-- ===== src/MemPool/Frags/Tests.antt =====
-- Runs of the fragment allocator and its witness.
use v_perf_generator.MemPool.Frags.{
  Segment, mp_frag_allocator_init, mp_frag_alloc, frag_common, frag_slab, is_negative,
  frag_unallocated, frags_of,
}
use v_perf_generator.MemPool.Frags.Alloc.{IsSound, FragAllocated, mp_frag_alloc-FragAllocated}
use v_perf_generator.MemPool.Bitmap.{mp_bitmap_alloc}
use v_perf_generator.MemPool.Bitmap.Cells.{quiet}
use v_perf_generator.Common.{ℕ, ℕ, ◌≡◌, refl, some, none, Option, List, [], ◌∷◌, arith, inr}

abbrev two_pages : Segment
two_pages = record {
  mp_segment_size = 16384;
  mp_frag_bitmap = 0 ∷ 0 ∷ [];
  mp_frags = λ k. record { fd_type = frag_unallocated; fd_size = 0 };
}

initial : mp_frag_allocator_init 16384 ≡ two_pages
unfolding mp_frag_allocator_init
initial = refl

two_pages-IsSound : IsSound two_pages
two_pages-IsSound = record { cells = omega arith; pages = refl; free = λ k. inr refl }

mp_frag_alloc-FragAllocated_example :
    FragAllocated 1 two_pages 600 frag_slab 2 (mp_frag_alloc 1 quiet two_pages 600 frag_slab)
unfolding is_negative frags_of
mp_frag_alloc-FragAllocated_example =
    mp_frag_alloc-FragAllocated 1 600 2 frag_slab two_pages two_pages-IsSound refl (omega arith)
      (omega arith) (omega arith)

bitmap_of : Option (ℕ × Segment) → List ℕ
bitmap_of none = []
bitmap_of (some (idx, seg)) = seg.mp_frag_bitmap

-- 600 bytes are three fragments.
three : bitmap_of (mp_frag_alloc 1 quiet two_pages 600 frag_common) ≡ 7 ∷ 0 ∷ []
unfolding bitmap_of mp_frag_alloc mp_bitmap_alloc
three = refl

then_alloc : ℕ → Option (ℕ × Segment) → Option (ℕ × Segment)
then_alloc size none = none
then_alloc size (some (idx, seg)) = mp_frag_alloc 1 quiet seg size frag_common

-- An allocation of no bytes takes a descriptor and no bit: the next one fails its assertion.
after_nothing : then_alloc 600 (mp_frag_alloc 1 quiet two_pages 0 frag_common) ≡ none
unfolding then_alloc mp_frag_alloc mp_bitmap_alloc
after_nothing = refl
