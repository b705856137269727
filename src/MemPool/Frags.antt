-- ===== src/MemPool/Frags.antt =====
-- lib/libtscommon/src/mempool.c, the fragment allocator: `mp_frag_allocator_init`, `mp_frag_alloc`,
-- `mp_frag_free`, `mp_frag_get_descr` and `mp_frag_get_size`. A fragment stands for its address: the
-- segment's plus MPFRAGSIZE times its index. `none` is an assertion that fails, or `abort`.
pub mod References
pub mod Alloc
mod Tests
use v_perf_generator.MemPool.Bitmap.{
  mp_bitmap_bits, mp_bitmap_alloc, mp_bitmap_free, mp_bitmap_free_cells,
}
use v_perf_generator.MemPool.Bitmap.AllocCells.{mp_bitmap_alloc_cells}
use v_perf_generator.Common.{
  ℕ, not, ℕ, zero, suc, ◌+◌, ◌-◌, ◌*◌, ◌/◌, ◌%◌, ltb, leb, ◌==◌, ◌&&◌, if◌then◌else◌, Bool, true,
  false, some, none, Option, List, replicate, not,
}
use v_perf_generator.Common.Memory.{update}

abbrev pub mp_page_size : ℕ
mp_page_size = 8192

-- MPFRAGSIZE, MPPAGESIZE / MP_BITMAP_BITS
abbrev pub mp_frag_size : ℕ
mp_frag_size = 256

-- `fd_type`, FRAG_UNALLOCATED and FRAG_REFERENCE and the flags of an allocation
pub data FragType : Type 0 where
  frag_unallocated : FragType
  frag_reference : FragType
  frag_common : FragType
  frag_slab : FragType
  frag_heap : FragType

-- `fd_size` and `fd_offset` are one field, a union.
pub record Descr : Type 0 where
  pub fd_type : FragType
  pub fd_size : ℕ

-- `mp_frag_bitmap` and `mp_frags`, and `mp_segment_size`.
pub record Segment : Type 0 where
  pub mp_segment_size : ℕ
  pub mp_frag_bitmap : List ℕ
  pub mp_frags : ℕ → Descr

abbrev pub unallocated : Descr
unallocated = record { fd_type = frag_unallocated; fd_size = 0 }

unfoldable pub mp_frag_allocator_init : ℕ → Segment
mp_frag_allocator_init segment_size = record {
  mp_segment_size = segment_size;
  mp_frag_bitmap = replicate (segment_size / mp_page_size) 0;
  mp_frags = λ k. unallocated;
}

unfoldable pub frags_of : ℕ → ℕ
frags_of size = size / mp_frag_size + (if size % mp_frag_size == 0 then 0 else 1)

unfoldable pub num_frags : Segment → ℕ
num_frags seg = seg.mp_segment_size / mp_page_size * mp_bitmap_bits

-- `fd_type < 0`
unfoldable pub is_negative : FragType → Bool
is_negative frag_unallocated = true
is_negative frag_reference = true
is_negative frag_common = false
is_negative frag_slab = false
is_negative frag_heap = false

unfoldable pub is_unallocated : FragType → Bool
is_unallocated frag_unallocated = true
is_unallocated frag_reference = false
is_unallocated frag_common = false
is_unallocated frag_slab = false
is_unallocated frag_heap = false

-- The references behind the first descriptor: descriptor `idx + i` gets offset `i`.
unfoldable pub set_references : ℕ → ℕ → ℕ → (ℕ → Descr) → Option (ℕ → Descr)
unfolding is_unallocated
set_references idx i zero frags = some frags
set_references idx i (suc left) frags =
    if is_unallocated (frags (idx + i)).fd_type
    then set_references idx (i + 1) left
        (update frags (idx + i) (record { fd_type = frag_reference; fd_size = i }))
    else none

unfoldable pub set_descriptors : ℕ → ℕ → FragType → (ℕ → Descr) → Option (ℕ → Descr)
unfolding is_unallocated set_references
set_descriptors idx alloc_frags flags frags =
    if is_unallocated (frags idx).fd_type
    then set_references idx 1 (alloc_frags - 1)
        (update frags idx (record { fd_type = flags; fd_size = alloc_frags }))
    else none

-- The index and the bitmap that `mp_frag_alloc` gets.
unfoldable pub find_frags : ℕ → (ℕ → List ℕ → List ℕ) → Segment → ℕ → Option ℕ × List ℕ
unfolding num_frags
find_frags beyond others seg alloc_frags =
    let alloc_pages =
      alloc_frags / mp_bitmap_bits + (if alloc_frags % mp_bitmap_bits == 0 then 0 else 1) in
    if leb alloc_frags mp_bitmap_bits
    then mp_bitmap_alloc beyond others (num_frags seg) alloc_frags seg.mp_frag_bitmap
    else mp_bitmap_alloc_cells beyond (num_frags seg) alloc_pages seg.mp_frag_bitmap

-- The descriptors of what has been found.
unfoldable pub alloc_found : FragType → ℕ → Segment → Option ℕ × List ℕ → Option (ℕ × Segment)
unfolding set_descriptors
alloc_found flags alloc_frags seg (none, bitmap) = none
alloc_found flags alloc_frags seg (some idx, bitmap) =
    elim (set_descriptors idx alloc_frags flags seg.mp_frags) [
      | none ↦ none
      | some frags ↦ some (idx, record seg { mp_frag_bitmap = bitmap; mp_frags = frags })
    ]

-- The index of the first fragment.
unfoldable pub mp_frag_alloc :
    ℕ → (ℕ → List ℕ → List ℕ) → Segment → ℕ → FragType → Option (ℕ × Segment)
unfolding is_negative frags_of find_frags alloc_found
mp_frag_alloc beyond others seg size flags =
    let alloc_frags = frags_of size in
    if is_negative flags
    then none
    else alloc_found flags alloc_frags seg (find_frags beyond others seg alloc_frags)

unfoldable pub clear_descriptors : ℕ → ℕ → (ℕ → Descr) → ℕ → Descr
clear_descriptors idx zero frags = frags
clear_descriptors idx (suc left) frags =
    clear_descriptors (idx + 1) left
      (update frags idx (record { fd_type = frag_unallocated; fd_size = (frags idx).fd_size }))

-- `mp_frag_free`: a fragment that is not the first of an allocation is logged and left alone.
unfoldable pub mp_frag_free : ℕ → Segment → ℕ → Option Segment
unfolding num_frags is_negative clear_descriptors
mp_frag_free beyond seg idx =
    let descr = seg.mp_frags idx in
    let free_frags = descr.fd_size in
    let bitmap =
      if leb free_frags mp_bitmap_bits
      then mp_bitmap_free beyond seg.mp_frag_bitmap free_frags idx
      else mp_bitmap_free_cells seg.mp_frag_bitmap free_frags idx in
    if not (ltb idx (num_frags seg))
    then none
    else if is_negative descr.fd_type
    then some seg
    else some (record seg {
      mp_frag_bitmap = bitmap;
      mp_frags = clear_descriptors idx free_frags seg.mp_frags;
    })

-- The descriptor of the allocation that a fragment belongs to, by its index; `none` is NULL.
unfoldable pub descr_of : FragType → ℕ → ℕ → Option ℕ
descr_of frag_unallocated idx offset = none
descr_of frag_reference idx offset = some (idx - offset)
descr_of frag_common idx offset = some idx
descr_of frag_slab idx offset = some idx
descr_of frag_heap idx offset = some idx

unfoldable pub mp_frag_get_descr : Segment → ℕ → Option ℕ
unfolding descr_of
mp_frag_get_descr seg idx = descr_of (seg.mp_frags idx).fd_type idx (seg.mp_frags idx).fd_size

unfoldable pub mp_frag_get_size : Segment → ℕ → ℕ
mp_frag_get_size seg idx = (seg.mp_frags idx).fd_size * mp_frag_size
