-- ===== src/Probes/Discovery.antt =====
-- The usual content of a process's cgroup file, which `discover_cgroup_share_sink` of
-- hyperpod/src/scaling/probes.rs reads.
use hyper_pod.Base.{
  ℕ, ◌≡◌, ◌≢◌, refl, ap, ◌∙◌, true, false, some, List, [], ◌∷◌, ◌++◌, All, arith, ◌==◌, ne→==_false,
}
use mathlib.Core.List.{append-nil, append_assoc}
use hyper_pod.Config.{is_whitespace}
use hyper_pod.Probes.Text.{
  slash, newline, strip_prefix, starts_with, strip_fuel, trim, trim_start, trim_end, ends_with,
  join, lines_from, end_line,
}
use hyper_pod.Probes.Cgroup.{join-relative}
use hyper_pod.Probes.Linux.{
  Files, unified, cgroup_root, cpu_weight, weight_path, new_sink, find, discover_cgroup_share_sink,
}

-- A character of a line that trimming keeps.
abbrev pub IsPlain : ℕ → Type 0
IsPlain c = is_whitespace c ≡ false

plain_not : (c d : ℕ) → IsPlain c → is_whitespace d ≡ true → (c == d) ≡ false
plain_not c d plain white = ne→==_false c d (λ e. ground (arith, e))

trim_end-plain : (cs : List ℕ) → All IsPlain cs → trim_end is_whitespace cs ≡ cs
unfolding trim_end
trim_end-plain [] h = refl
trim_end-plain (c ∷ []) (h, hs) = rw h refl
trim_end-plain (c ∷ d ∷ ds) (h, hs) = rw (trim_end-plain (d ∷ ds) hs) refl

end_line-plain : (cs : List ℕ) → All IsPlain cs → end_line cs ≡ cs
unfolding end_line is_whitespace
end_line-plain [] h = refl
end_line-plain (c ∷ []) (h, hs) = rw (plain_not c 13 h refl) refl
end_line-plain (c ∷ d ∷ ds) (h, hs) = ap (λ t. c ∷ t) (end_line-plain (d ∷ ds) hs)

lines_from-plain :
    (line cs : List ℕ)
    → All IsPlain cs
    → lines_from line (cs ++ newline ∷ []) ≡ end_line (line ++ cs) ∷ []
unfolding lines_from is_whitespace
lines_from-plain line [] h = rw (append-nil line) refl
lines_from-plain line (c ∷ cs) (h, hs) = rw (plain_not c newline h refl) (
    lines_from-plain (line ++ c ∷ []) cs hs
    ∙ ap (λ l. end_line l ∷ []) (append_assoc line (c ∷ []) cs))

trim-plain : (cs : List ℕ) → All IsPlain cs → trim (slash ∷ cs) ≡ slash ∷ cs
unfolding trim trim_start is_whitespace
trim-plain cs h = trim_end-plain (slash ∷ cs) (refl, h)

trim_start-name :
    (c : ℕ) (rel : List ℕ) → c ≢ slash → trim_start (λ x. x == slash) (slash ∷ c ∷ rel) ≡ c ∷ rel
unfolding trim_start
trim_start-name c rel top = rw (ne→==_false c slash top) refl

starts_with-name : (c : ℕ) (rel : List ℕ) → c ≢ slash → starts_with (slash ∷ []) (c ∷ rel) ≡ false
unfolding starts_with strip_prefix
starts_with-name c rel top = ground arith

join-name :
    (base : List ℕ) (c : ℕ) (rel : List ℕ)
    → c ≢ slash
    → ends_with slash base ≡ false
    → join base (c ∷ rel) ≡ base ++ slash ∷ c ∷ rel
join-name base c rel top shut =
    join-relative base (c ∷ rel) (starts_with-name c rel top) ∙ rw shut refl

weight_path-named :
    (c : ℕ) (rel : List ℕ)
    → All IsPlain (c ∷ rel)
    → c ≢ slash
    → ends_with slash (c ∷ rel) ≡ false
    → weight_path (unified ++ slash ∷ c ∷ rel)
      ≡ (cgroup_root ++ slash ∷ c ∷ rel) ++ slash ∷ cpu_weight
unfolding weight_path strip_fuel strip_prefix
weight_path-named c rel plain top shut =
    rw (trim-plain (c ∷ rel) plain, trim_start-name c rel top, join-name cgroup_root c rel top refl)
      (join-name (cgroup_root ++ slash ∷ c ∷ rel) 99 _ (λ e. ground (arith, e)) shut)

-- A cgroup file of one line `0::/name`, where the name is not empty, has no white space, and does not
-- begin or end with a slash, leads to the file cpu.weight of just that cgroup: the sink is made for it,
-- or refused with its error if that is no file or cannot be written.
pub discover_cgroup_share_sink-named :
    (files : Files) (c : ℕ) (rel : List ℕ)
    → All IsPlain (c ∷ rel)
    → c ≢ slash
    → ends_with slash (c ∷ rel) ≡ false
    → discover_cgroup_share_sink files (some (unified ++ slash ∷ c ∷ rel ++ newline ∷ []))
      ≡ new_sink files ((cgroup_root ++ slash ∷ c ∷ rel) ++ slash ∷ cpu_weight)
unfolding discover_cgroup_share_sink find starts_with strip_prefix is_whitespace
discover_cgroup_share_sink-named files c rel plain top shut =
    let line = unified ++ slash ∷ c ∷ rel in
    let all : All IsPlain line = (refl, (refl, (refl, (refl, plain)))) in
    rw (lines_from-plain [] line all, end_line-plain line all)
      (ap (λ path. new_sink files path) (weight_path-named c rel plain top shut))
