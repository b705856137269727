-- ===== src/MemPool/HeapPage/Defrag.antt =====
-- Defragmentation keeps a heap page sound: it merges free fragments that adjoin one another.
use v_perf_generator.MemPool.FreeTree.{
  Fragment, Tree, leaf, mp_heap_btree_insert, mp_heap_btree_linearize,
}
use v_perf_generator.MemPool.FreeTree.Weight.{
  Weight, weight, list_weight, weight-mp_heap_btree_insert, list_weight-mp_heap_btree_linearize,
}
use v_perf_generator.MemPool.FreeTree.Order.{IsOrdered, mp_heap_btree_insert-IsOrdered}
use v_perf_generator.MemPool.HeapPage.{
  HeapPage, insert_sorted, sort_headers, merge_from, merge_siblings, insert_all, mp_hh_next,
  mp_heap_page_defrag, has_free,
}
use v_perf_generator.MemPool.HeapPage.Tiled.{IsSound, covers, cover, units, one}
use v_perf_generator.Common.{
  ℕ, true, ==_iff, ℕ, ◌+◌, ◌-◌, ◌≡◌, ltb, ◌==◌, arith, length, List, [], ◌∷◌, Option, some, none,
  Bool-cases, inl, inr, refl,
}

module _ (w : Weight) where
  list_weight-insert_sorted :
      (h : Fragment) (hs : List Fragment)
      → list_weight w (insert_sorted h hs) ≡ w h + list_weight w hs
  unfolding list_weight insert_sorted
  list_weight-insert_sorted h [] = refl
  list_weight-insert_sorted h (g ∷ gs) = ground (arith, list_weight-insert_sorted h gs)

  list_weight-sort_headers :
      (hs : List Fragment) → list_weight w (sort_headers hs) ≡ list_weight w hs
  unfolding list_weight sort_headers
  list_weight-sort_headers [] = refl
  list_weight-sort_headers (h ∷ hs) =
      omega (arith, list_weight-insert_sorted h (sort_headers hs), list_weight-sort_headers hs)

  weight-insert_all :
      (t : Tree) (hs : List Fragment) → weight w (insert_all t hs) ≡ weight w t + list_weight w hs
  unfolding list_weight insert_all
  weight-insert_all t [] = omega arith
  weight-insert_all t (h ∷ hs) =
      omega
        (arith, weight-insert_all (mp_heap_btree_insert t h) hs, weight-mp_heap_btree_insert w t h)

insert_all-IsOrdered : (t : Tree) (hs : List Fragment) → IsOrdered t → IsOrdered (insert_all t hs)
unfolding insert_all
insert_all-IsOrdered t [] o = o
insert_all-IsOrdered t (h ∷ hs) o =
    insert_all-IsOrdered (mp_heap_btree_insert t h) hs (mp_heap_btree_insert-IsOrdered t h o)

list_weight-one : (hs : List Fragment) → list_weight one hs ≡ length hs
unfolding list_weight
list_weight-one [] = refl
list_weight-one (h ∷ hs) = omega (arith, list_weight-one hs)

-- Two fragments that adjoin cover what the merged one covers.
covers_merge :
    (u : ℕ) (h g : Fragment)
    → mp_hh_next h ≡ g.hh
    → covers u h + covers u g ≡ covers u (record { hh = h.hh; hh_size = h.hh_size + g.hh_size })
unfolding covers mp_hh_next
covers_merge u h g next = ground arith

list_weight-merge_from-covers :
    (u : ℕ) (h : Fragment) (hs : List Fragment)
    → list_weight (covers u) (merge_from h hs) ≡ covers u h + list_weight (covers u) hs
unfolding list_weight merge_from
list_weight-merge_from-covers u h [] = refl
list_weight-merge_from-covers u h (g ∷ gs) =
    let both : Fragment = record { hh = h.hh; hh_size = h.hh_size + g.hh_size } in
    elim (Bool-cases (mp_hh_next h == g.hh)) [
      | inl next ↦ rw next (
          omega (
            arith,
            list_weight-merge_from-covers u both gs,
            covers_merge u h g ((==_iff (mp_hh_next h) g.hh).0 next),
          ))
      | inr gap ↦ rw gap (omega (arith, list_weight-merge_from-covers u g gs))
    ]

list_weight-merge_from-units :
    (h : Fragment) (hs : List Fragment)
    → list_weight units (merge_from h hs) ≡ h.hh_size + list_weight units hs
unfolding list_weight merge_from
list_weight-merge_from-units h [] = refl
list_weight-merge_from-units h (g ∷ gs) =
    let both : Fragment = record { hh = h.hh; hh_size = h.hh_size + g.hh_size } in
    elim (Bool-cases (mp_hh_next h == g.hh)) [
      | inl next ↦ rw next (omega (arith, list_weight-merge_from-units both gs))
      | inr gap ↦ rw gap (omega (arith, list_weight-merge_from-units g gs))
    ]

list_weight-merge_siblings-covers :
    (u : ℕ) (hs : List Fragment)
    → list_weight (covers u) (merge_siblings hs) ≡ list_weight (covers u) hs
unfolding list_weight merge_siblings
list_weight-merge_siblings-covers u [] = refl
list_weight-merge_siblings-covers u (h ∷ hs) = list_weight-merge_from-covers u h hs

list_weight-merge_siblings-units :
    (hs : List Fragment) → list_weight units (merge_siblings hs) ≡ list_weight units hs
unfolding list_weight merge_siblings
list_weight-merge_siblings-units [] = refl
list_weight-merge_siblings-units (h ∷ hs) = list_weight-merge_from-units h hs

-- What a defragmentation leaves: a sound page with the allocated fragments that it had.
abbrev pub Defragmented : ℕ → ℕ → HeapPage → Option HeapPage → Type 0
Defragmented first room page none = ⊥
Defragmented first room page (some page') =
    IsSound first room page' × (page'.allocated ≡ page.allocated)

module _ (first room : ℕ) (page : HeapPage) (sound : IsSound first room page) where
  linearized_length : length (mp_heap_btree_linearize page.hp_root_free) ≡ page.hp_free_count
  linearized_length = omega (
    arith,
    list_weight-one (mp_heap_btree_linearize page.hp_root_free),
    list_weight-mp_heap_btree_linearize one page.hp_root_free,
    sound.free_fragments,
  )

  -- Defragmenting a sound heap page that has a free fragment, where mp_frag_alloc finds room for the
  -- array of the free headers, never fails its assertion, and leaves a sound page: each unit is still
  -- in exactly one fragment, the new tree is ordered, the counters count, and the allocated fragments
  -- are those it had.
  pub mp_heap_page_defrag-Defragmented :
      has_free page.hp_root_free ≡ true
      → Defragmented first room page (mp_heap_page_defrag true page)
  unfolding mp_heap_page_defrag cover weight
  mp_heap_page_defrag-Defragmented some_free =
      let linear = mp_heap_btree_linearize page.hp_root_free in
      let merged = merge_siblings (sort_headers linear) in
      let counted : (length linear == page.hp_free_count) ≡ true =
        (==_iff (length linear) page.hp_free_count).1 linearized_length in
      elim (Bool-cases (ltb 0 (page.hp_defrag_period - 1))) [
        | inl wait ↦ rw wait (
          record {
            ordered = sound.ordered;
            free_units = sound.free_units;
            free_fragments = sound.free_fragments;
            allocated_fragments = sound.allocated_fragments;
            tiled = sound.tiled;
          },
          refl,
        )
        | inr run ↦
            rw (run, some_free, counted)
              (
                record {
                  ordered = insert_all-IsOrdered leaf merged tt;
                  free_units = omega (
                    arith,
                    sound.free_units,
                    weight-insert_all units leaf merged,
                    list_weight-merge_siblings-units (sort_headers linear),
                    list_weight-sort_headers units linear,
                    list_weight-mp_heap_btree_linearize units page.hp_root_free,
                  );
                  free_fragments =
                      omega (arith, weight-insert_all one leaf merged, list_weight-one merged);
                  allocated_fragments = sound.allocated_fragments;
                  tiled = λ u. omega (
                    arith,
                    sound.tiled u,
                    weight-insert_all (covers u) leaf merged,
                    list_weight-merge_siblings-covers u (sort_headers linear),
                    list_weight-sort_headers (covers u) linear,
                    list_weight-mp_heap_btree_linearize (covers u) page.hp_root_free,
                  );
                },
                refl,
              )
      ]
