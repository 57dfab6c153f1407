-- ===== src/Probes/Cgroup.antt =====
-- The path of the share file, `discover_cgroup_share_sink` of hyperpod/src/scaling/probes.rs.
use hyper_pod.Base.{
  ℕ, ◌≡◌, refl, sym, ap, ◌∙◌, true, false, Option, none, some, List, [], ◌∷◌, ◌++◌, ok, or_err,
  ◌>>=◌, no_cgroup_line, arith, ◌==◌, if◌then◌else◌,
}
use hyper_pod.Probes.Text.{slash, strip_prefix, starts_with, trim_start, ends_with, join, lines}
use hyper_pod.Probes.Linux.{
  Files, unified, cgroup_root, cpu_weight, weight_path, new_sink, find, discover_cgroup_share_sink,
}

-- A trimmed path is relative.
trim_start-slash : (s : List ℕ) → starts_with (slash ∷ []) (trim_start (λ c. c == slash) s) ≡ false
unfolding starts_with strip_prefix trim_start
trim_start-slash [] = refl
trim_start-slash (c ∷ cs) = ground (arith, trim_start-slash cs)

pub join-relative :
    (base part : List ℕ)
    → starts_with (slash ∷ []) part ≡ false
    → join base part ≡ base ++ (if ends_with slash base then part else slash ∷ part)
unfolding join
join-relative base part relative = rw relative refl

weight_path-inside :
    (line : List ℕ) → (rest : List ℕ) × (weight_path line ≡ cgroup_root ++ slash ∷ rest)
unfolding weight_path starts_with strip_prefix
weight_path-inside line = (
  _,
  ap (λ b. join b cpu_weight) (join-relative cgroup_root _ (trim_start-slash _))
      ∙ join-relative _ cpu_weight refl,
)

new_sink-eq-ok :
    (files : Files) (p path : List ℕ)
    → new_sink files p ≡ ok path
    → (p ≡ path) × ((files.is_file path ≡ true) × (files.is_writable path ≡ true))
unfolding new_sink
new_sink-eq-ok files p path found = ground arith

found-inside :
    (files : Files) (line : Option (List ℕ)) (path : List ℕ)
    → (or_err line no_cgroup_line >>= λ l. new_sink files (weight_path l)) ≡ ok path
    → ((rest : List ℕ) × (path ≡ cgroup_root ++ slash ∷ rest))
      × ((files.is_file path ≡ true) × (files.is_writable path ≡ true))
found-inside files none path found = absurd (ground (arith, found))
found-inside files (some line) path found =
    let made = new_sink-eq-ok files (weight_path line) path found in
    let inside = weight_path-inside line in ((inside.0, sym made.0 ∙ inside.1), made.1)

-- Whatever the process's cgroup file holds, the file that the sink is made for is below the root of the
-- cgroup file system, by its path, and it is a file that can be written.
pub discover_cgroup_share_sink-inside :
    (files : Files) (cgroup : Option (List ℕ)) (path : List ℕ)
    → discover_cgroup_share_sink files cgroup ≡ ok path
    → ((rest : List ℕ) × (path ≡ cgroup_root ++ slash ∷ rest))
      × ((files.is_file path ≡ true) × (files.is_writable path ≡ true))
unfolding discover_cgroup_share_sink
discover_cgroup_share_sink-inside files none path found = absurd (ground (arith, found))
discover_cgroup_share_sink-inside files (some raw) path found =
    found-inside files (find (starts_with unified) (lines raw)) path found
