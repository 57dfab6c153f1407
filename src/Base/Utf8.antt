-- ===== src/Base/Utf8.antt =====
-- `str::as_bytes`: the UTF-8 form of a text of code points.
use Prim.Native.Nat.{ℕ, ◌+◌, ◌/◌, ◌%◌, ◌<◌}
use mathlib.Core.List.{List, [], ◌∷◌, ◌++◌}
use native.Mathlib.Omega.{arith}
use hyper_pod.Base.Tests.{ltb, if◌then◌else◌}
use hyper_pod.Base.Lists.{All}

unfoldable pub utf8_char : ℕ → List ℕ
utf8_char c =
    if ltb c 0x80
    then c ∷ []
    else if ltb c 0x800
    then (0xc0 + c / 0x40) ∷ (0x80 + c % 0x40) ∷ []
    else if ltb c 0x10000
    then (0xe0 + c / 0x1000) ∷ (0x80 + c / 0x40 % 0x40) ∷ (0x80 + c % 0x40) ∷ []
    else (0xf0 + c / 0x40000)
      ∷ (0x80 + c / 0x1000 % 0x40)
      ∷ (0x80 + c / 0x40 % 0x40)
      ∷ (0x80 + c % 0x40)
      ∷ []

unfoldable pub utf8 : List ℕ → List ℕ
utf8 [] = []
utf8 (c ∷ cs) = utf8_char c ++ utf8 cs

All-append {ℓ κ} :
    {A : Type ℓ} (P : A → Type κ) (xs ys : List A) → All P xs → All P ys → All P (xs ++ ys)
All-append P [] ys hx hy = hy
All-append P (x ∷ xs) ys hx hy = (hx.0, All-append P xs ys hx.1 hy)

-- Only the code point zero gives a zero byte.
utf8_char-pos : (c : ℕ) → 0 < c → All (λ b. 0 < b) (utf8_char c)
unfolding utf8_char
utf8_char-pos c h = ground arith

pub utf8-pos : (cs : List ℕ) → All (λ c. 0 < c) cs → All (λ b. 0 < b) (utf8 cs)
unfolding utf8
utf8-pos [] h = tt
utf8-pos (c ∷ cs) h =
    All-append (λ b. 0 < b) (utf8_char c) (utf8 cs) (utf8_char-pos c h.0) (utf8-pos cs h.1)
