-- ===== src/Ram/Memory.antt =====
-- Runs of bytes in a memory that is a function from addresses (`ptr::copy_nonoverlapping`).
use hyper_pod.Base.{
  ℕ, zero, suc, ◌+◌, ◌-◌, ◌^◌, ◌≤◌, ◌<◌, ◌≡◌, refl, ◌⊎◌, ap, ap₂, ◌∙◌, subst, ◌&&◌, List, [], ◌∷◌,
  arith, length, get_or, get_or_ext, ◌++◌, length-append, get_or-append_left, get_or-append_right,
  leb, ltb, if◌then◌else◌, to_le_bytes, from_le_bytes, length-to_le_bytes,
  from_le_bytes-to_le_bytes,
}

-- The memory after a copy of `bytes` to offset `off`.
unfoldable pub overwrite : (ℕ → ℕ) → ℕ → List ℕ → ℕ → ℕ
overwrite cell off bytes a =
    if leb off a && ltb a (off + length bytes) then get_or bytes (a - off) 0 else cell a

-- The `n` bytes from offset `off`.
unfoldable pub bytes_at : (ℕ → ℕ) → ℕ → ℕ → List ℕ
bytes_at cell off zero = []
bytes_at cell off (suc n) = cell off ∷ bytes_at cell (off + 1) n

-- The little-endian integer of `width` bytes at offset `off`.
unfoldable pub word_at : ℕ → (ℕ → ℕ) → ℕ → ℕ
word_at width cell off = from_le_bytes (bytes_at cell off width)

pub overwrite_inside :
    (cell : ℕ → ℕ) (off : ℕ) (bytes : List ℕ) (i : ℕ)
    → i < length bytes
    → overwrite cell off bytes (off + i) ≡ get_or bytes i 0
unfolding overwrite
overwrite_inside cell off bytes i h = let e : off + i - off ≡ i = omega arith in ground arith

pub overwrite_outside :
    (cell : ℕ → ℕ) (off : ℕ) (bytes : List ℕ) (a : ℕ)
    → (a < off) ⊎ (off + length bytes ≤ a)
    → overwrite cell off bytes a ≡ cell a
unfolding overwrite
overwrite_outside cell off bytes a h = ground arith

pub length-bytes_at : (cell : ℕ → ℕ) (off n : ℕ) → length (bytes_at cell off n) ≡ n
unfolding bytes_at
length-bytes_at cell off zero = refl
length-bytes_at cell off (suc n) = omega (arith, length-bytes_at cell (off + 1) n)

-- Memories that agree on a run hold the same bytes there.
pub bytes_at_ext :
    (f g : ℕ → ℕ) (off n : ℕ)
    → ((a : ℕ) → off ≤ a → a < off + n → f a ≡ g a)
    → bytes_at f off n ≡ bytes_at g off n
unfolding bytes_at
bytes_at_ext f g off zero h = refl
bytes_at_ext f g off (suc n) h =
    ap₂ ◌∷◌ (h off (omega arith) (omega arith))
      (bytes_at_ext f g (off + 1) n (λ a p q. h a (omega arith) (omega arith)))

-- A run apart from the copy is not touched.
pub bytes_at-overwrite_apart :
    (cell : ℕ → ℕ) (off : ℕ) (bytes : List ℕ) (a n : ℕ)
    → (a + n ≤ off) ⊎ (off + length bytes ≤ a)
    → bytes_at (overwrite cell off bytes) a n ≡ bytes_at cell a n
bytes_at-overwrite_apart cell off bytes a n h =
    bytes_at_ext _ cell a n (λ b p q. overwrite_outside cell off bytes b (ground arith))

pub get_or-bytes_at :
    (cell : ℕ → ℕ) (off n i : ℕ) → i < n → get_or (bytes_at cell off n) i 0 ≡ cell (off + i)
unfolding bytes_at
get_or-bytes_at cell off zero i h = absurd (omega arith)
get_or-bytes_at cell off (suc n) zero h = let e : off ≡ off + 0 = omega arith in ap cell e
get_or-bytes_at cell off (suc n) (suc i) h =
    let e : off + 1 + i ≡ off + suc i = omega arith in
    get_or-bytes_at cell (off + 1) n i (omega arith) ∙ ap cell e

-- The copied bytes stand where they were copied to.
pub bytes_at-overwrite :
    (cell : ℕ → ℕ) (off : ℕ) (bytes : List ℕ)
    → bytes_at (overwrite cell off bytes) off (length bytes) ≡ bytes
bytes_at-overwrite cell off bytes =
    get_or_ext 0 _ bytes (length-bytes_at _ off (length bytes)) λ i h.
      let h' : i < length bytes =
        omega (arith, length-bytes_at (overwrite cell off bytes) off (length bytes)) in
      get_or-bytes_at _ off (length bytes) i h' ∙ overwrite_inside cell off bytes i h'

-- A word reads back, and leaves the words apart from it alone.
pub word_at-overwrite :
    (w : ℕ) (cell : ℕ → ℕ) (off v : ℕ)
    → v < 256 ^ w
    → word_at w (overwrite cell off (to_le_bytes w v)) off ≡ v
unfolding word_at
word_at-overwrite w cell off v h =
    ap from_le_bytes (
      subst (λ n. bytes_at (overwrite cell off (to_le_bytes w v)) off n ≡ to_le_bytes w v)
        (length-to_le_bytes w v) (bytes_at-overwrite cell off (to_le_bytes w v)))
    ∙ from_le_bytes-to_le_bytes w v h

pub word_at-overwrite_apart :
    (u w : ℕ) (cell : ℕ → ℕ) (off v a : ℕ)
    → (a + u ≤ off) ⊎ (off + w ≤ a)
    → word_at u (overwrite cell off (to_le_bytes w v)) a ≡ word_at u cell a
unfolding word_at
word_at-overwrite_apart u w cell off v a h =
    ap from_le_bytes
      (bytes_at-overwrite_apart cell off (to_le_bytes w v) a u (rw length-to_le_bytes h))

-- A word is the same in memories that agree on its bytes.
pub word_at_ext :
    (w : ℕ) (f g : ℕ → ℕ) (off : ℕ)
    → ((a : ℕ) → off ≤ a → a < off + w → f a ≡ g a)
    → word_at w f off ≡ word_at w g off
unfolding word_at
word_at_ext w f g off h = ap from_le_bytes (bytes_at_ext f g off w h)

-- A run of zeros is the word 0.
pub word_at-zero :
    (w : ℕ) (f : ℕ → ℕ) (off : ℕ)
    → ((a : ℕ) → off ≤ a → a < off + w → f a ≡ 0)
    → word_at w f off ≡ 0
unfolding word_at bytes_at from_le_bytes
word_at-zero zero f off h = refl
word_at-zero (suc w) f off h = omega (
  arith,
  h off (omega arith) (omega arith),
  word_at-zero w f (off + 1) (λ a p q. h a (omega arith) (omega arith)),
)

-- Two copies, the second right behind the first, are one copy of both.
pub overwrite-append :
    (cell : ℕ → ℕ) (off : ℕ) (xs ys : List ℕ) (a : ℕ)
    → overwrite (overwrite cell off xs) (off + length xs) ys a ≡ overwrite cell off (xs ++ ys) a
unfolding overwrite
overwrite-append cell off xs ys a =
    let e : a - off - length xs ≡ a - (off + length xs) = omega arith in
    ground (
      arith,
      length-append xs ys,
      get_or-append_left xs ys (a - off) 0,
      get_or-append_right xs ys (a - off) 0,
    )
