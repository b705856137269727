-- ===== src/MemPool/HeapPage/Tests.antt =====
-- Runs of the heap and the witnesses.
use v_perf_generator.Common.{true, ℕ, ◌≡◌, refl, some, none, Option, List, [], ◌∷◌, arith, true}
use v_perf_generator.MemPool.FreeTree.{
  Fragment, leaf, node, mp_heap_btree_insert, mp_heap_btree_find_delete, mp_heap_btree_linearize,
}
use v_perf_generator.MemPool.FreeTree.Weight.{weight, list_weight}
use v_perf_generator.MemPool.HeapPage.{
  HeapPage, mp_heap_page_alloc, mp_heap_alloc, alloc_from_page, free_in_page, mp_heap_page_defrag,
  units_of, take_from_page, has_free,
}
use v_perf_generator.MemPool.HeapPage.Tiled.{IsSound, cover, covers, one}
use v_perf_generator.MemPool.HeapPage.Alloc.{Allocated, alloc_from_page-Allocated}
use v_perf_generator.MemPool.HeapPage.Defrag.{Defragmented, mp_heap_page_defrag-Defragmented}
use v_perf_generator.MemPool.HeapPage.Free.{Freed, free_in_page-Freed}
use v_perf_generator.MemPool.HeapPage.Heap.{HeapAllocated, mp_heap_alloc-HeapAllocated}

abbrev fragment : ℕ → ℕ → Fragment
fragment a n = record { hh = a; hh_size = n }

-- A page of twelve units behind its header: two free fragments that adjoin, and one allocated.
abbrev small_page : HeapPage
small_page = record {
  address = 100;
  hp_free = 7;
  hp_birth = 0;
  hp_defrag_period = 1;
  hp_allocated_count = 1;
  hp_free_count = 2;
  hp_root_free = node leaf (fragment 113 3) (node leaf (fragment 116 4) leaf);
  allocated = fragment 108 5 ∷ [];
}

small_page-IsSound : IsSound 108 12 small_page
unfolding cover weight list_weight covers
small_page-IsSound = record {
  ordered = omega arith;
  free_units = refl;
  free_fragments = refl;
  allocated_fragments = refl;
  tiled = λ u. ground arith;
}

alloc_from_page-Allocated_example : Allocated 108 12 4 small_page (alloc_from_page small_page 4)
alloc_from_page-Allocated_example = alloc_from_page-Allocated 108 12 4 small_page small_page-IsSound

mp_heap_page_defrag-Defragmented_example :
    Defragmented 108 12 small_page (mp_heap_page_defrag true small_page)
unfolding has_free
mp_heap_page_defrag-Defragmented_example =
    mp_heap_page_defrag-Defragmented 108 12 small_page small_page-IsSound refl

free_in_page-Freed_example : Freed 108 12 one 5 small_page 108 (free_in_page true 5 small_page 108)
free_in_page-Freed_example = free_in_page-Freed 108 12 5 108 one small_page small_page-IsSound

header_of : Option (Fragment × List HeapPage) → Option Fragment
header_of none = none
header_of (some (h, pages)) = some h

free_of : Option HeapPage → List Fragment
unfolding mp_heap_btree_linearize
free_of none = []
free_of (some page) = mp_heap_btree_linearize page.hp_root_free

-- The first allocation makes a page; sizes are in units, with the header's.
first_alloc : header_of (mp_heap_alloc 160 1_000 7 (λ i. true) 100 []) ≡ some (fragment 1_040 26)
unfolding header_of mp_heap_alloc mp_heap_page_alloc units_of alloc_from_page take_from_page
    mp_heap_btree_find_delete
first_alloc = refl

mp_heap_alloc-HeapAllocated_example :
    HeapAllocated 160 (units_of 100) (mp_heap_alloc 160 1_000 7 (λ i. true) 100 [])
mp_heap_alloc-HeapAllocated_example =
    mp_heap_alloc-HeapAllocated 160 1_000 7 (λ i. true) 100 [] (omega arith) (omega arith) tt

-- The two siblings become one fragment.
merged : free_of (mp_heap_page_defrag true small_page) ≡ fragment 113 7 ∷ []
unfolding mp_heap_page_defrag free_of mp_heap_btree_insert
merged = refl
