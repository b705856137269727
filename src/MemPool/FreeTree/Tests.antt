-- ===== src/MemPool/FreeTree/Tests.antt =====
-- Runs of the free tree and its witness.
use v_perf_generator.Common.{arith, ℕ, ◌≡◌, refl, some, none, [], ◌∷◌, arith}
use v_perf_generator.MemPool.FreeTree.{
  Fragment, Tree, leaf, node, mp_heap_btree_insert, mp_heap_btree_find_delete,
  mp_heap_btree_linearize,
}
use v_perf_generator.MemPool.FreeTree.BestFit.{BestFit, mp_heap_btree_find_delete-BestFit}

abbrev fragment : ℕ → ℕ → Fragment
fragment a n = record { hh = a; hh_size = n }

-- Four fragments, two of one size.
abbrev four : Tree
four =
    node (node (node leaf (fragment 60 8) leaf) (fragment 20 8) leaf) (fragment 10 30)
      (node leaf (fragment 100 90) leaf)

built :
    mp_heap_btree_insert
      (mp_heap_btree_insert
        (mp_heap_btree_insert (mp_heap_btree_insert leaf (fragment 10 30)) (fragment 20 8))
        (fragment 100 90))
      (fragment 60 8)
    ≡ four
unfolding mp_heap_btree_insert
built = refl

-- The root has two children: its successor takes its place.
found :
    mp_heap_btree_find_delete four 9
    ≡ some (
      fragment 10 30,
      node (node (node leaf (fragment 60 8) leaf) (fragment 20 8) leaf) (fragment 100 90) leaf,
    )
unfolding mp_heap_btree_find_delete
found = refl

too_large : mp_heap_btree_find_delete four 91 ≡ none
unfolding mp_heap_btree_find_delete
too_large = refl

linearized :
    mp_heap_btree_linearize four
    ≡ fragment 10 30 ∷ fragment 20 8 ∷ fragment 60 8 ∷ fragment 100 90 ∷ []
unfolding mp_heap_btree_linearize
linearized = refl

mp_heap_btree_find_delete-BestFit_example :
    BestFit (λ h. h.hh_size) 9 four (mp_heap_btree_find_delete four 9)
mp_heap_btree_find_delete-BestFit_example =
    mp_heap_btree_find_delete-BestFit (λ h. h.hh_size) 9 four (omega arith)
