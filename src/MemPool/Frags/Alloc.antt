-- ===== src/MemPool/Frags/Alloc.antt =====
-- `mp_frag_alloc` of up to a page: the descriptors agree with the bitmap, and lead from every
-- address of an allocation back to it.
use v_perf_generator.MemPool.Frags.{
  alloc_found, Segment, Descr, FragType, frag_unallocated, frag_reference, frag_common, frag_slab,
  frag_heap, is_negative, set_descriptors, descr_of, frags_of, mp_page_size, mp_frag_alloc,
  mp_frag_get_descr, mp_frag_get_size, find_frags, num_frags,
}
use v_perf_generator.MemPool.Frags.References.{reference, set_descriptors_lem, set_descriptors-some}
use v_perf_generator.MemPool.Bitmap.{mp_bitmap_alloc}
use v_perf_generator.MemPool.Bitmap.Region.{inside}
use v_perf_generator.MemPool.Bitmap.Cells.{
  item, quiet, BitmapAllocated, mp_bitmap_alloc-BitmapAllocated,
}
use v_perf_generator.MemPool.Bitmap.CellsBound.{mp_bitmap_alloc_bound}
use v_perf_generator.Common.{
  ==_iff, ==_iff, ℕ, ℕ, ◌+◌, ◌-◌, ◌*◌, ◌/◌, ◌%◌, ◌^◌, ◌≤◌, ◌<◌, ◌≡◌, ◌⊎◌, refl, ◌∙◌, arith, ltb,
  leb, ◌==◌, ◌&&◌, if◌then◌else◌, true, false, some, none, Option, Bool-cases, inl, inr, List, All,
  length, ap,
}

-- The bit of fragment `k`.
abbrev pub taken : Segment → ℕ → ℕ
taken seg k = item seg.mp_frag_bitmap (k / 32) (k % 32)

-- The segment is sound: it has a cell for each page, and a fragment that is not taken has no
-- descriptor.
pub record IsSound (seg : Segment) : Type 0 where
  pub cells : All (λ c. c < 2 ^ 32) seg.mp_frag_bitmap
  pub pages : length seg.mp_frag_bitmap ≡ seg.mp_segment_size / mp_page_size
  pub free : (k : ℕ) → (taken seg k ≡ 1) ⊎ ((seg.mp_frags k).fd_type ≡ frag_unallocated)

-- What `mp_frag_alloc` of `size` bytes comes to, at the `i`-th fragment of the allocation: no region
-- was found in the bitmap; or the segment is sound, the size that is recorded is enough, and the
-- descriptor of the fragment is that of the allocation.
abbrev pub FragAllocated : ℕ → Segment → ℕ → FragType → ℕ → Option (ℕ × Segment) → Type 0
FragAllocated beyond seg size flags i none =
    (mp_bitmap_alloc beyond quiet (num_frags seg) (frags_of size) seg.mp_frag_bitmap).0 ≡ none
FragAllocated beyond seg size flags i (some (idx, seg')) =
    IsSound seg'
    × (idx + frags_of size ≤ num_frags seg)
    × (size ≤ mp_frag_get_size seg' idx)
    × (mp_frag_get_descr seg' (idx + i) ≡ some idx)
    × ((seg'.mp_frags idx).fd_type ≡ flags)

descr_of_first :
    (flags : FragType) (idx n : ℕ) → is_negative flags ≡ false → descr_of flags idx n ≡ some idx
unfolding descr_of is_negative
descr_of_first frag_unallocated idx n h = absurd (cc)
descr_of_first frag_reference idx n h = absurd (cc)
descr_of_first frag_common idx n h = refl
descr_of_first frag_slab idx n h = refl
descr_of_first frag_heap idx n h = refl

module _ (beyond size i idx : ℕ) (flags : FragType) (seg : Segment) (bitmap : List ℕ)
    (frags : ℕ → Descr) (sound : IsSound seg) (positive : is_negative flags ≡ false)
    (some_size : 1 ≤ size) (page : size ≤ mp_page_size) (part : i < frags_of size)
    (done : (j b : ℕ)
      → b < 32
      → BitmapAllocated (frags_of size) (num_frags seg) seg.mp_frag_bitmap j b (some idx, bitmap))
    (bound : All (λ c. c < 2 ^ 32) bitmap)
    (written : (k : ℕ)
      → frags k ≡ (
          if k == idx
          then record { fd_type = flags; fd_size = frags_of size }
          else if leb idx k && ltb k (idx + frags_of size)
          then reference (k - idx)
          else seg.mp_frags k)) where
  abbrev after : Segment
  after = record seg { mp_frag_bitmap = bitmap; mp_frags = frags }

  some_frags : 1 ≤ frags_of size
  unfolding frags_of
  some_frags = ground arith

  after-free : (k : ℕ) → (taken after k ≡ 1) ⊎ ((frags k).fd_type ≡ frag_unallocated)
  after-free k =
      let place : k / 32 * 32 + k % 32 ≡ k = omega arith in
      let new = (done (k / 32) (k % 32) (omega arith)).4 in
      elim (Bool-cases (inside idx (frags_of size) k)) [
        | inl here ↦ inl (ground (arith, new, place))
        | inr other ↦ elim (sound.free k) [
          | inl used ↦ inl (ground (arith, new, place))
          | inr unused ↦ inr (ground (arith, written k, some_frags))
        ]
      ]

  after-IsSound : IsSound after
  after-IsSound = record {
    cells = bound;
    pages = (done 0 0 (omega arith)).2 ∙ sound.pages;
    free = after-free;
  }

  after-descr : mp_frag_get_descr after (idx + i) ≡ some idx
  unfolding mp_frag_get_descr descr_of
  after-descr = elim (Bool-cases (idx + i == idx)) [
    | inl first ↦
        let here : frags (idx + i) ≡ record { fd_type = flags; fd_size = frags_of size } =
          written (idx + i) ∙ rw first refl in
        rw here (
          descr_of_first flags (idx + i) (frags_of size) positive
          ∙ ap some ((==_iff (idx + i) idx).0 first))
    | inr later ↦
        let within : (leb idx (idx + i) && ltb (idx + i) (idx + frags_of size)) ≡ true =
          ground arith in
        let here : frags (idx + i) ≡ reference (idx + i - idx) =
          written (idx + i) ∙ rw (later, within) refl in
        rw here (ap some (omega arith))
  ]

  after-size : size ≤ mp_frag_get_size after idx
  unfolding mp_frag_get_size frags_of
  after-size = ground (arith, written idx)

  after-FragAllocated : FragAllocated beyond seg size flags i (some (idx, after))
  after-FragAllocated = (
    after-IsSound,
    (done 0 0 (omega arith)).0,
    after-size,
    after-descr,
    ground (arith, written idx),
  )

FragAllocated-of_written :
    (beyond size i idx : ℕ) (flags : FragType) (seg : Segment) (bitmap : List ℕ)
    (o : Option (ℕ → Descr))
    → IsSound seg
    → is_negative flags ≡ false
    → 1 ≤ size
    → size ≤ mp_page_size
    → i < frags_of size
    → ((j b : ℕ)
        → b < 32
        → BitmapAllocated (frags_of size) (num_frags seg) seg.mp_frag_bitmap j b (some idx, bitmap))
    → All (λ c. c < 2 ^ 32) bitmap
    → set_descriptors idx (frags_of size) flags seg.mp_frags ≡ o
    → FragAllocated beyond seg size flags i (elim o [
      | none ↦ none
      | some frags ↦ some (idx, record seg { mp_frag_bitmap = bitmap; mp_frags = frags })
    ])
unfolding frags_of
FragAllocated-of_written beyond size i idx flags seg bitmap (some frags) sound positive some_size
      page part done bound e =
    after-FragAllocated beyond size i idx flags seg bitmap frags sound positive some_size page part
      done bound
      (λ k. set_descriptors_lem idx (frags_of size) flags seg.mp_frags frags k (ground arith) e)
FragAllocated-of_written beyond size i idx flags seg bitmap none sound positive some_size page part
      done bound e =
    let (frags, written) =
      set_descriptors-some idx (frags_of size) flags seg.mp_frags (ground arith) (λ k low high.
        let place : k / 32 * 32 + k % 32 ≡ k = omega arith in
        let was_free : taken seg k ≡ 0 =
          ground (arith, done (k / 32) (k % 32) (omega arith), place) in
        elim (sound.free k) [
          | inl used ↦ absurd (omega (arith, used, was_free))
          | inr unused ↦ unused
        ]) in
    absurd (cc)

FragAllocated-of_found :
    (beyond size i : ℕ) (flags : FragType) (seg : Segment) (r : Option ℕ × List ℕ)
    → IsSound seg
    → is_negative flags ≡ false
    → 1 ≤ size
    → size ≤ mp_page_size
    → i < frags_of size
    → mp_bitmap_alloc beyond quiet (num_frags seg) (frags_of size) seg.mp_frag_bitmap ≡ r
    → ((j b : ℕ)
        → b < 32
        → BitmapAllocated (frags_of size) (num_frags seg) seg.mp_frag_bitmap j b r)
    → All (λ c. c < 2 ^ 32) r.1
    → FragAllocated beyond seg size flags i (alloc_found flags (frags_of size) seg r)
unfolding alloc_found
FragAllocated-of_found beyond size i flags seg (none, bitmap) sound positive some_size page part e
      done bound =
    ap (λ x. x.0) e
FragAllocated-of_found beyond size i flags seg (some idx, bitmap) sound positive some_size page part
      e done bound =
    FragAllocated-of_written beyond size i idx flags seg bitmap _ sound positive some_size page part
      done bound refl

frags_of_le : (size : ℕ) → size ≤ mp_page_size → frags_of size ≤ 32
unfolding frags_of
frags_of_le size page = ground arith

find_frags_page :
    (beyond : ℕ) (seg : Segment) (n : ℕ)
    → n ≤ 32
    → find_frags beyond quiet seg n
      ≡ mp_bitmap_alloc beyond quiet (num_frags seg) n seg.mp_frag_bitmap
unfolding find_frags
find_frags_page beyond seg n small =
    let one_page : leb n 32 ≡ true = ground arith in rw one_page refl

num_frags_cells :
    (seg : Segment) → IsSound seg → (num_frags seg + 31) / 32 ≡ length seg.mp_frag_bitmap
unfolding num_frags
num_frags_cells seg sound = omega (arith, sound.pages)

-- mp_frag_alloc of 1 to 8192 bytes, in a sound segment that no other thread uses meanwhile, fails
-- no assertion: it aborts only where mp_bitmap_alloc answers that it found no region, which it may
-- also answer when there is one, behind a gap that is too small. Otherwise the segment stays sound,
-- the fragments lie in it, mp_frag_get_size of the first gives at least the size asked for,
-- mp_frag_get_descr of each fragment of the allocation leads to the first, and that has the type
-- asked for.
pub mp_frag_alloc-FragAllocated :
    (beyond size i : ℕ) (flags : FragType) (seg : Segment)
    → IsSound seg
    → is_negative flags ≡ false
    → 1 ≤ size
    → size ≤ mp_page_size
    → i < frags_of size
    → FragAllocated beyond seg size flags i (mp_frag_alloc beyond quiet seg size flags)
unfolding mp_frag_alloc
mp_frag_alloc-FragAllocated beyond size i flags seg sound positive some_size page part =
    let small : frags_of size ≤ 32 = frags_of_le size page in
    let count : (num_frags seg + 31) / 32 ≡ length seg.mp_frag_bitmap = num_frags_cells seg sound in
    rw (positive, find_frags_page beyond seg (frags_of size) small)
      (FragAllocated-of_found beyond size i flags seg _ sound positive some_size page part refl
        (λ j b lt.
          mp_bitmap_alloc-BitmapAllocated beyond (frags_of size) (num_frags seg) seg.mp_frag_bitmap
            j b small sound.cells count lt)
        (mp_bitmap_alloc_bound beyond (frags_of size) (num_frags seg) seg.mp_frag_bitmap small
          sound.cells))
