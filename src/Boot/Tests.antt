-- ===== src/Boot/Tests.antt =====
-- The boot artefacts in two megabytes of zeros.
use hyper_pod.Base.{◌≡◌, refl, some, arith, ok}
use hyper_pod.Ram.{GuestRam}
use hyper_pod.Boot.{pml4_start, setup_page_tables, write_zero_page}
use hyper_pod.Boot.Walk.{translate}
use hyper_pod.Boot.Identity.{translate-setup_page_tables}
use hyper_pod.Boot.Params.{HasHeader, read_e820, e820_map}
use hyper_pod.Boot.Page.{write_zero_page-boot_params}

abbrev ram : GuestRam
ram = record { size = 0x200000; cell = λ _. 0 }

translate-setup_page_tables_example :
    translate (setup_page_tables ram).1.cell pml4_start 0x1234567 ≡ some 0x1234567
translate-setup_page_tables_example =
    translate-setup_page_tables ram 0x1234567 (omega arith) (omega arith) (λ a p q. refl)
      (omega arith)

write_zero_page-boot_params_example :
    (ram' : GuestRam) × (write_zero_page 2 0x200000 ram ≡ (ok tt, ram'))
    × HasHeader ram'.cell 2
    × (read_e820 ram'.cell ≡ e820_map 0x200000)
write_zero_page-boot_params_example =
    write_zero_page-boot_params 2 0x200000 ram (omega arith) (omega arith) (omega arith)
      (omega arith)
