-- ===== src/Probes/Text.antt =====
-- The operations of Rust's strings that the probes use, on lists of code points.
use hyper_pod.Base.{
  ℕ, zero, suc, Bool, true, false, ◌==◌, if◌then◌else◌, Option, none, some, List, [], ◌∷◌, ◌++◌,
  length,
}
use hyper_pod.Config.{is_whitespace}

abbrev pub newline : ℕ
newline = 10

abbrev pub slash : ℕ
slash = 47

-- What is left of a text after a prefix that it has.
unfoldable pub strip_prefix : List ℕ → List ℕ → Option (List ℕ)
strip_prefix [] s = some s
strip_prefix (c ∷ cs) [] = none
strip_prefix (c ∷ cs) (d ∷ ds) = if c == d then strip_prefix cs ds else none

unfoldable pub starts_with : List ℕ → List ℕ → Bool
starts_with p s = elim (strip_prefix p s) [ none ↦ false | some rest ↦ true ]

-- A line ends at a newline, and a carriage return before it is not part of it. The last line may lack
-- its newline.
unfoldable pub end_line : List ℕ → List ℕ
end_line [] = []
end_line (c ∷ []) = if c == 13 then [] else c ∷ []
end_line (c ∷ d ∷ cs) = c ∷ end_line (d ∷ cs)

unfoldable pub lines_from : List ℕ → List ℕ → List (List ℕ)
lines_from [] [] = []
lines_from (d ∷ ds) [] = (d ∷ ds) ∷ []
lines_from line (c ∷ cs) =
    let rest = lines_from (line ++ c ∷ []) cs in
    if c == newline then end_line line ∷ lines_from [] cs else rest

abbrev pub lines : List ℕ → List (List ℕ)
lines s = lines_from [] s

-- `trim_start_matches` with a string that is not empty: each match shortens the text, so its length is
-- fuel enough.
unfoldable pub strip_fuel : ℕ → List ℕ → List ℕ → List ℕ
strip_fuel zero p s = s
strip_fuel (suc fuel) p s = elim (strip_prefix p s) [
  | none ↦ s
  | some rest ↦ strip_fuel fuel p rest
]

abbrev pub strip_all : List ℕ → List ℕ → List ℕ
strip_all p s = strip_fuel (length s) p s

-- `trim_start_matches` and `trim_start` with a test on characters.
unfoldable pub trim_start : (ℕ → Bool) → List ℕ → List ℕ
trim_start test [] = []
trim_start test (c ∷ cs) = if test c then trim_start test cs else c ∷ cs

unfoldable pub trim_end : (ℕ → Bool) → List ℕ → List ℕ
trim_end test [] = []
trim_end test (c ∷ cs) =
    let rest = trim_end test cs in
    elim rest [ [] ↦ if test c then [] else c ∷ [] | d ∷ ds ↦ c ∷ d ∷ ds ]

unfoldable pub trim : List ℕ → List ℕ
trim s = trim_end is_whitespace (trim_start is_whitespace s)

-- The part before the first character that satisfies a test.
unfoldable pub take_until : (ℕ → Bool) → List ℕ → List ℕ
take_until test [] = []
take_until test (c ∷ cs) = let rest = take_until test cs in if test c then [] else c ∷ rest

-- `split_whitespace().next()`
unfoldable pub first_word : List ℕ → Option (List ℕ)
first_word s = elim (trim_start is_whitespace s) [
  | [] ↦ none
  | c ∷ cs ↦ some (take_until is_whitespace (c ∷ cs))
]

abbrev pub ends_with : ℕ → List ℕ → Bool
ends_with x [] = false
ends_with x (c ∷ []) = c == x
ends_with x (c ∷ d ∷ cs) = ends_with x (d ∷ cs)

-- `Path::join`: a path that starts at the root takes the place of the other one, which is not empty.
unfoldable pub join : List ℕ → List ℕ → List ℕ
join base part =
    if starts_with (slash ∷ []) part
    then part
    else base ++ (if ends_with slash base then part else slash ∷ part)
