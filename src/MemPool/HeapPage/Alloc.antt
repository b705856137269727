-- ===== src/MemPool/HeapPage/Alloc.antt =====
-- Allocation keeps a heap page sound, and a new page has room for every size that comes here.
use v_perf_generator.MemPool.FreeTree.{Fragment, Tree, mp_heap_btree_find_delete}
use v_perf_generator.MemPool.FreeTree.Weight.{Weight, list_weight, weight-mp_heap_btree_insert}
use v_perf_generator.MemPool.FreeTree.Order.{Each, mp_heap_btree_insert-IsOrdered}
use v_perf_generator.MemPool.FreeTree.BestFit.{BestFit, mp_heap_btree_find_delete-BestFit}
use v_perf_generator.MemPool.HeapPage.{
  mp_hh_next, HeapPage, take_from_page, alloc_from_page, mp_heap_min_units,
}
use v_perf_generator.MemPool.HeapPage.Tiled.{IsSound, covers, cover, units, one}
use v_perf_generator.Common.{
  ℕ, inr, inl, Bool-cases, ◌-◌, ℕ, ◌+◌, ◌≡◌, ◌≤◌, ◌<◌, ltb, arith, ◌∷◌, Option, some, none,
}

-- A fragment covers what its two parts cover.
covers_split :
    (u a m n : ℕ)
    → covers u (record { hh = a; hh_size = m + n })
      ≡ covers u (record { hh = a; hh_size = m }) + covers u (record { hh = a + m; hh_size = n })
unfolding covers
covers_split u a m n = ground arith

covers_trim :
    (u : ℕ) (h : Fragment) (n : ℕ)
    → n ≤ h.hh_size
    → covers u h
      ≡ covers u (record { hh = h.hh; hh_size = n })
        + covers u (record { hh = h.hh + n; hh_size = h.hh_size - n })
unfolding covers
covers_trim u h n le = ground arith

-- `h` has been found in a sound page, and `rest` is the tree that is left.
module _ (first room asked : ℕ) (page : HeapPage) (sound : IsSound first room page) (h : Fragment)
    (rest : Tree) (fit : (w : Weight) → BestFit w asked page.hp_root_free (some (h, rest))) where
  take_from_page-IsSound : IsSound first room (take_from_page page h rest asked).1
  unfolding take_from_page cover list_weight mp_hh_next
  take_from_page-IsSound = elim (Bool-cases (ltb mp_heap_min_units (h.hh_size - asked))) [
    | inl trim ↦
        let left_over : Fragment = record { hh = h.hh + asked; hh_size = h.hh_size - asked } in
        rw trim (record {
          ordered = mp_heap_btree_insert-IsOrdered rest left_over (fit one).1;
          free_units = omega (
            arith,
            sound.free_units,
            (fit units).2,
            (fit units).0.0,
            weight-mp_heap_btree_insert units rest left_over,
          );
          free_fragments = omega (
            arith,
            sound.free_fragments,
            (fit one).2,
            weight-mp_heap_btree_insert one rest left_over,
          );
          allocated_fragments = omega (arith, sound.allocated_fragments);
          tiled = λ u. omega (
            arith,
            sound.tiled u,
            (fit (covers u)).2,
            covers_trim u h asked (fit one).0.0,
            weight-mp_heap_btree_insert (covers u) rest left_over,
          );
        })
    | inr whole ↦ rw whole (record {
      ordered = (fit one).1;
      free_units = omega (arith, sound.free_units, (fit units).2);
      free_fragments = omega (arith, sound.free_fragments, (fit one).2);
      allocated_fragments = omega (arith, sound.allocated_fragments);
      tiled = λ u. omega (arith, sound.tiled u, (fit (covers u)).2);
    })
  ]

  take_from_page-enough : asked ≤ (take_from_page page h rest asked).0.hh_size
  unfolding take_from_page
  take_from_page-enough = ground (arith, (fit one).0.0)

  take_from_page-address : (take_from_page page h rest asked).1.address ≡ page.address
  unfolding take_from_page
  take_from_page-address = ground arith

  -- The allocated header is the first of the page's.
  take_from_page-allocated :
      (take_from_page page h rest asked).1.allocated
      ≡ (take_from_page page h rest asked).0 ∷ page.allocated
  unfolding take_from_page
  take_from_page-allocated = ground arith

-- What an allocation in a page comes to: either no free fragment is large enough, or the page is
-- sound with one more allocated fragment of at least the units asked for.
abbrev pub Allocated : ℕ → ℕ → ℕ → HeapPage → Option (Fragment × HeapPage) → Type 0
Allocated first room asked page none = Each (λ x. x.hh_size < asked) page.hp_root_free
Allocated first room asked page (some (h, page')) =
    IsSound first room page'
    × (asked ≤ h.hh_size)
    × (page'.allocated ≡ h ∷ page.allocated)
    × (page'.address ≡ page.address)

Allocated-of_BestFit :
    (first room asked : ℕ) (page : HeapPage) (o : Option (Fragment × Tree))
    → IsSound first room page
    → ((w : Weight) → BestFit w asked page.hp_root_free o)
    → Allocated first room asked page
        (elim o [ none ↦ none | some (h, rest) ↦ some (take_from_page page h rest asked) ])
Allocated-of_BestFit first room asked page none sound fit = fit one
Allocated-of_BestFit first room asked page (some (h, rest)) sound fit = (
  take_from_page-IsSound first room asked page sound h rest fit,
  take_from_page-enough first room asked page sound h rest fit,
  take_from_page-allocated first room asked page sound h rest fit,
  take_from_page-address first room asked page sound h rest fit,
)

-- An allocation of `asked` units in a sound heap page fails only where every free fragment is too
-- small. Otherwise the page stays sound: every unit of it lies in exactly one free or allocated
-- fragment, the free tree is ordered and the counters count; the fragment that is returned has at
-- least `asked` units and is the only new one among the allocated.
pub alloc_from_page-Allocated :
    (first room asked : ℕ) (page : HeapPage)
    → IsSound first room page
    → Allocated first room asked page (alloc_from_page page asked)
unfolding alloc_from_page
alloc_from_page-Allocated first room asked page sound =
    Allocated-of_BestFit first room asked page (mp_heap_btree_find_delete page.hp_root_free asked)
      sound (λ w. mp_heap_btree_find_delete-BestFit w asked page.hp_root_free sound.ordered)
