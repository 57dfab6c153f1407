-- ===== src/Storage/Sector.antt =====
-- The unit of block storage, hyperpod/src/vmm/common/storage/mod.rs.
use hyper_pod.Base.{ℕ}

abbrev pub sector_size : ℕ
sector_size = 512
