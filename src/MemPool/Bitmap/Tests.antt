-- ===== src/MemPool/Bitmap/Tests.antt =====
-- Runs of the bitmaps and the witnesses.
use v_perf_generator.Common.{arith, ◌≡◌, refl, some, none, [], ◌∷◌, arith}
use v_perf_generator.MemPool.Bitmap.{
  mp_bitmap_find_one, mp_bitmap_find_region, mp_bitmap_alloc, mp_bitmap_free, mp_bitmap_free_cells,
  mp_bitmap_busy,
}
use v_perf_generator.MemPool.Bitmap.FindOne.{first_zero, mp_bitmap_find_one_lem}
use v_perf_generator.MemPool.Bitmap.Cells.{
  item, quiet, BitmapAllocated, mp_bitmap_alloc-BitmapAllocated,
}
use v_perf_generator.MemPool.Bitmap.Free.{mp_bitmap_free-mp_bitmap_alloc}

-- 0b1011: the lowest zero is at 2, and the region of two items that starts there is blocked.
lowest : mp_bitmap_find_one 0xB ≡ 2
unfolding mp_bitmap_find_one
lowest = refl

blocked : mp_bitmap_find_region 1 0xB 2 ≡ none
unfolding mp_bitmap_find_region
blocked = refl

second_cell : mp_bitmap_alloc 1 quiet 40 3 (0xFFFFFFF0 ∷ 1 ∷ []) ≡ (some 0, 0xFFFFFFF7 ∷ 1 ∷ [])
unfolding mp_bitmap_alloc
second_cell = refl

-- A last cell of eight items has no room for eight more.
last_cell : mp_bitmap_alloc 1 quiet 40 8 (mp_bitmap_busy ∷ 1 ∷ []) ≡ (none, mp_bitmap_busy ∷ 1 ∷ [])
unfolding mp_bitmap_alloc
last_cell = refl

freed : mp_bitmap_free 1 (0xFFFFFFF7 ∷ 1 ∷ []) 3 0 ≡ 0xFFFFFFF0 ∷ 1 ∷ []
unfolding mp_bitmap_free
freed = refl

-- The pages that are freed are the first ones, whatever the index.
first_pages : mp_bitmap_free_cells (1 ∷ 2 ∷ 3 ∷ []) 64 32 ≡ 0 ∷ 0 ∷ 3 ∷ []
unfolding mp_bitmap_free_cells
first_pages = refl

mp_bitmap_find_one_example : mp_bitmap_find_one 0xB ≡ first_zero 32 0xB
mp_bitmap_find_one_example = mp_bitmap_find_one_lem 0xB (omega arith)

mp_bitmap_alloc-BitmapAllocated_example :
    BitmapAllocated 3 40
      (0xFFFFFFF0 ∷ 1 ∷ [])
      0
      2
      (mp_bitmap_alloc 1 quiet 40 3 (0xFFFFFFF0 ∷ 1 ∷ []))
mp_bitmap_alloc-BitmapAllocated_example =
    mp_bitmap_alloc-BitmapAllocated 1 3 40 (0xFFFFFFF0 ∷ 1 ∷ []) 0 2 (omega arith) (omega arith)
      refl (omega arith)

mp_bitmap_free-mp_bitmap_alloc_example :
    item (mp_bitmap_free 1 (0xFFFFFFF7 ∷ 1 ∷ []) 3 0) 0 2 ≡ item (0xFFFFFFF0 ∷ 1 ∷ []) 0 2
mp_bitmap_free-mp_bitmap_alloc_example =
    mp_bitmap_free-mp_bitmap_alloc 1 3 40 0 (0xFFFFFFF0 ∷ 1 ∷ []) (0xFFFFFFF7 ∷ 1 ∷ []) 0 2
      (omega arith) (omega arith) (omega arith) refl (omega arith) second_cell
