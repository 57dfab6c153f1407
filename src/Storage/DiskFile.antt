-- ===== src/Storage/DiskFile.antt =====
-- A regular file as the storage code uses one: its bytes, read and written at an offset. A file
-- keeps its bytes between two calls; the operating system's own failures are not modelled.
use hyper_pod.Base.{
  ℕ, ◌+◌, ◌-◌, ◌≤◌, ◌<◌, ◌≡◌, sym, ◌∙◌, ◌⊎◌, get_or_ext, List, ◌++◌, arith, length, take, get_or,
  get_or-append_left, get_or-append_right, get_or-take, get_or-drop, ltb, ◌&&◌, length-append,
  length-take, length-drop, drop, replicate, leb, if◌then◌else◌, Outcome, ok, err, unexpected_eof,
}

abbrev pub File : Type 0
File = List ℕ

-- `seek(SeekFrom::Start(off))` and `read_exact` of `n` bytes.
unfoldable pub read_exact_at : File → ℕ → ℕ → Outcome (List ℕ)
read_exact_at file off n =
    if leb (off + n) (length file) then ok (take n (drop off file)) else err unexpected_eof

-- `seek(SeekFrom::Start(off))` and `write_all`: a gap behind the end is filled with zeros.
unfoldable pub write_all_at : File → ℕ → List ℕ → File
write_all_at file off bytes =
    take off file ++ (replicate (off - length file) 0 ++ (bytes ++ drop (off + length bytes) file))

-- Inside the file there is no gap.
pub write_all_at_inside :
    (file : File) (off : ℕ) (bytes : List ℕ)
    → off + length bytes ≤ length file
    → write_all_at file off bytes ≡ take off file ++ (bytes ++ drop (off + length bytes) file)
unfolding write_all_at
write_all_at_inside file off bytes h = let gap : off - length file ≡ 0 = omega arith in rw gap

pub length-write_all_at :
    (file : File) (off : ℕ) (bytes : List ℕ)
    → off + length bytes ≤ length file
    → length (write_all_at file off bytes) ≡ length file
length-write_all_at file off bytes h =
    rw (write_all_at_inside file off bytes h, length-append, length-append)
      (omega (arith, length-take off file (omega arith), length-drop (off + length bytes) file))

-- A write inside the file, byte by byte.
pub get_or-write_all_at :
    (file : File) (off : ℕ) (bytes : List ℕ) (i : ℕ)
    → off + length bytes ≤ length file
    → get_or (write_all_at file off bytes) i 0 ≡ (
        if leb off i && ltb i (off + length bytes)
        then get_or bytes (i - off) 0
        else get_or file i 0)
get_or-write_all_at file off bytes i h =
    let behind = drop (off + length bytes) file in
    let back : off + length bytes + (i - off - length bytes) ≡ i ⊎ (i < off + length bytes) =
      ground arith in
    rw (write_all_at_inside file off bytes h) (
      ground (
        arith,
        length-take off file (omega arith),
        get_or-append_left (take off file) (bytes ++ behind) i 0,
        get_or-append_right (take off file) (bytes ++ behind) i 0,
        get_or-append_left bytes behind (i - off) 0,
        get_or-append_right bytes behind (i - off) 0,
        get_or-take off file i 0,
        get_or-drop (off + length bytes) file (i - off - length bytes) 0,
      ))

-- The `n` bytes at `off`, and what a write does to them: it sets its own range, and leaves a range
-- apart from it alone.
abbrev pub range_of : File → ℕ → ℕ → List ℕ
range_of file off n = take n (drop off file)

length-range_of :
    (file : File) (off n : ℕ) → off + n ≤ length file → length (range_of file off n) ≡ n
length-range_of file off n h = length-take n (drop off file) (omega (arith, length-drop off file))

get_or-range_of :
    (file : File) (off n i : ℕ) → i < n → get_or (range_of file off n) i 0 ≡ get_or file (off + i) 0
get_or-range_of file off n i h = get_or-take n (drop off file) i 0 h ∙ get_or-drop off file i 0

pub range_of-write_all_at :
    (file : File) (off : ℕ) (bytes : List ℕ)
    → off + length bytes ≤ length file
    → range_of (write_all_at file off bytes) off (length bytes) ≡ bytes
range_of-write_all_at file off bytes h =
    let file' = write_all_at file off bytes in
    let size =
      length-range_of file' off (length bytes) (rw (length-write_all_at file off bytes h) h) in
    get_or_ext 0 (range_of file' off (length bytes)) bytes size λ i p.
      let q : i < length bytes = omega (arith, size) in
      let back : off + i - off ≡ i = omega arith in
      get_or-range_of file' off (length bytes) i q
      ∙ ground (arith, get_or-write_all_at file off bytes (off + i) h)

pub range_of-write_all_at_apart :
    (file : File) (off : ℕ) (bytes : List ℕ) (a n : ℕ)
    → off + length bytes ≤ length file
    → a + n ≤ length file
    → (a + n ≤ off) ⊎ (off + length bytes ≤ a)
    → range_of (write_all_at file off bytes) a n ≡ range_of file a n
range_of-write_all_at_apart file off bytes a n h fits apart =
    let file' = write_all_at file off bytes in
    let size = length-range_of file' a n (rw (length-write_all_at file off bytes h) fits) in
    get_or_ext 0 (range_of file' a n) (range_of file a n)
      (size ∙ sym (length-range_of file a n fits))
      λ i p.
        let q : i < n = omega (arith, size) in
        get_or-range_of file' a n i q
        ∙ (ground (arith, get_or-write_all_at file off bytes (a + i) h)
            ∙ sym (get_or-range_of file a n i q))
