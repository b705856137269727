-- ===== src/MemPool/HeapPage/Free.antt =====
-- Freeing keeps a heap page sound.
use v_perf_generator.MemPool.FreeTree.{Fragment, Tree, leaf, node, mp_heap_btree_insert}
use v_perf_generator.MemPool.FreeTree.Weight.{Weight, list_weight, weight-mp_heap_btree_insert}
use v_perf_generator.MemPool.FreeTree.Order.{mp_heap_btree_insert-IsOrdered}
use v_perf_generator.MemPool.HeapPage.{
  HeapPage, take_header, give_back, mp_heap_page_free, free_in_page, mp_heap_page_defrag,
  mp_hh_defrag_free, has_free,
}
use v_perf_generator.MemPool.HeapPage.Tiled.{IsSound, covers, cover, units, one}
use v_perf_generator.MemPool.HeapPage.Defrag.{Defragmented, mp_heap_page_defrag-Defragmented}
use v_perf_generator.Common.{
  true, true, ◌≢◌, subst, ◌≢◌, Option-cases, All, ℕ, if◌then◌else◌, ==_iff, ℕ, ◌+◌, ◌-◌, ◌≡◌, ◌≤◌,
  ltb, ◌==◌, arith, length, List, [], ◌∷◌, Option, some, none, Bool-cases, inl, inr, refl,
}
use v_perf_generator.TsTime.{t_sec}

-- A header that is taken out of a list: with it go its weight and one place.
abbrev Taken : Weight → ℕ → List Fragment → Option (Fragment × List Fragment) → Type 0
Taken w a hs none = Unit
Taken w a hs (some (h, others)) =
    (h.hh ≡ a) × (list_weight w hs ≡ w h + list_weight w others) × (length hs ≡ length others + 1)

Taken-of_cons :
    (w : Weight) (a : ℕ) (h : Fragment) (hs : List Fragment) (o : Option (Fragment × List Fragment))
    → Taken w a hs o
    → Taken w a (h ∷ hs) (elim o [
      | none ↦ if h.hh == a then some (h, hs) else none
      | some (g, rest) ↦ if h.hh == a then some (h, hs) else some (g, h ∷ rest)
    ])
unfolding list_weight
Taken-of_cons w a h hs none t = elim (Bool-cases (h.hh == a)) [
  | inl here ↦ rw here ((==_iff h.hh a).0 here, refl, omega arith)
  | inr other ↦ rw other tt
]
Taken-of_cons w a h hs (some (g, rest)) t = elim (Bool-cases (h.hh == a)) [
  | inl here ↦ rw here ((==_iff h.hh a).0 here, refl, omega arith)
  | inr other ↦ rw other (t.0, omega (arith, t.1), omega (arith, t.2))
]

take_header-Taken : (w : Weight) (a : ℕ) (hs : List Fragment) → Taken w a hs (take_header a hs)
unfolding take_header
take_header-Taken w a [] = tt
take_header-Taken w a (h ∷ hs) =
    Taken-of_cons w a h hs (take_header a hs) (take_header-Taken w a hs)

mp_heap_btree_insert-has_free :
    (t : Tree) (h : Fragment) → has_free (mp_heap_btree_insert t h) ≡ true
unfolding has_free mp_heap_btree_insert
mp_heap_btree_insert-has_free leaf h = refl
mp_heap_btree_insert-has_free (node l parent r) h = ground arith

give_back-has_free :
    (page : HeapPage) (h : Fragment) (others : List Fragment)
    → has_free (give_back page h others).hp_root_free ≡ true
unfolding give_back
give_back-has_free page h others = mp_heap_btree_insert-has_free page.hp_root_free h

give_back-IsSound :
    (first room a : ℕ) (page : HeapPage) (h : Fragment) (others : List Fragment)
    → IsSound first room page
    → ((w : Weight) → Taken w a page.allocated (some (h, others)))
    → IsSound first room (give_back page h others)
unfolding give_back cover
give_back-IsSound first room a page h others sound taken = record {
  ordered = mp_heap_btree_insert-IsOrdered page.hp_root_free h sound.ordered;
  free_units =
      omega (arith, sound.free_units, weight-mp_heap_btree_insert units page.hp_root_free h);
  free_fragments =
      omega (arith, sound.free_fragments, weight-mp_heap_btree_insert one page.hp_root_free h);
  allocated_fragments = omega (arith, sound.allocated_fragments, (taken one).2);
  tiled = λ u. omega (
    arith,
    sound.tiled u,
    (taken (covers u)).1,
    weight-mp_heap_btree_insert (covers u) page.hp_root_free h,
  );
}

take_header-none : (a : ℕ) (hs : List Fragment) → take_header a hs ≡ none → All (λ h. h.hh ≢ a) hs
unfolding take_header
take_header-none a [] e = tt
take_header-none a (h ∷ hs) e = elim (Option-cases (take_header a hs)) [
  | inl rest ↦ (ground (arith, rest), take_header-none a hs rest)
  | inr (g, got) ↦ absurd (ground (arith, got))
]

-- What freeing at header `a` comes to: there is no such allocated fragment; or the page goes, which
-- has no other and is a second old; or it stays, sound, and has lost one fragment with that header.
abbrev pub Freed : ℕ → ℕ → Weight → ℕ → HeapPage → ℕ → Option (Option HeapPage) → Type 0
Freed first room w now page a none = All (λ h. h.hh ≢ a) page.allocated
Freed first room w now page a (some none) =
    (length page.allocated ≡ 1) × (t_sec ≤ now - page.hp_birth)
Freed first room w now page a (some (some page')) =
    IsSound first room page'
    × ((h : Fragment) × (h.hh ≡ a)
        × (list_weight w page.allocated ≡ w h + list_weight w page'.allocated))

module _ (first room now a : ℕ) (w : Weight) (page : HeapPage) (h : Fragment)
    (others : List Fragment) (sound : IsSound first room page)
    (taken : (v : Weight) → Taken v a page.allocated (some (h, others))) where
  Freed-of_Defragmented :
      (o : Option HeapPage)
      → Defragmented first room (give_back page h others) o
      → Freed first room w now page a (elim o [ none ↦ none | some page'' ↦ some (some page'') ])
  unfolding give_back
  Freed-of_Defragmented none d = absurd d
  Freed-of_Defragmented (some page'') d = (d.0, (h, (taken w).0, rw d.1 (taken w).1))

  Freed-of_kept : Freed first room w now page a (some (some (give_back page h others)))
  unfolding give_back
  Freed-of_kept =
      (give_back-IsSound first room a page h others sound taken, (h, (taken w).0, (taken w).1))

  Freed-of_empty :
      (give_back page h others).hp_allocated_count ≡ 0
      → Freed first room w now page a (some (mp_heap_page_free now (give_back page h others)))
  unfolding mp_heap_page_free give_back
  Freed-of_empty none_left = elim (Bool-cases (ltb (now - page.hp_birth) t_sec)) [
    | inl young ↦ rw young Freed-of_kept
    | inr old ↦
        rw old (omega (arith, none_left, sound.allocated_fragments, (taken w).2), ground arith)
  ]

  Freed-of_give_back : Freed first room w now page a (
      if (give_back page h others).hp_allocated_count == 0
      then some (mp_heap_page_free now (give_back page h others))
      else if ltb mp_hh_defrag_free (give_back page h others).hp_free_count
      then elim (mp_heap_page_defrag true (give_back page h others)) [
        | none ↦ none
        | some page'' ↦ some (some page'')
      ]
      else some (some (give_back page h others)))
  Freed-of_give_back =
      let page' = give_back page h others in
      elim (Bool-cases (page'.hp_allocated_count == 0)) [
        | inl last ↦ rw last (Freed-of_empty ((==_iff page'.hp_allocated_count 0).0 last))
        | inr more ↦ elim (Bool-cases (ltb mp_hh_defrag_free page'.hp_free_count)) [
          | inl many ↦
              rw (more, many)
                (Freed-of_Defragmented _ (
                  mp_heap_page_defrag-Defragmented first room page'
                    (give_back-IsSound first room a page h others sound taken)
                    (give_back-has_free page h others)))
          | inr few ↦ rw (more, few) Freed-of_kept
        ]
      ]

Freed-of_taken :
    (first room now a : ℕ) (w : Weight) (page : HeapPage) (o : Option (Fragment × List Fragment))
    → IsSound first room page
    → take_header a page.allocated ≡ o
    → Freed first room w now page a (elim o [
      | none ↦ none
      | some (h, others) ↦
          if (give_back page h others).hp_allocated_count == 0
          then some (mp_heap_page_free now (give_back page h others))
          else if ltb mp_hh_defrag_free (give_back page h others).hp_free_count
          then elim (mp_heap_page_defrag true (give_back page h others)) [
            | none ↦ none
            | some page'' ↦ some (some page'')
          ]
          else some (some (give_back page h others))
    ])
Freed-of_taken first room now a w page none sound e = take_header-none a page.allocated e
Freed-of_taken first room now a w page (some (h, others)) sound e =
    Freed-of_give_back first room now a w page h others sound
      (λ v. subst (λ o. Taken v a page.allocated o) e (take_header-Taken v a page.allocated))

-- Freeing the fragment behind header `a` in a sound heap page, where mp_frag_alloc finds room for the
-- array of a defragmentation: an assertion fails only where no allocated fragment has that header; the page itself is given back only when it is a second old and
-- this was its last fragment; in every other case the page stays and is sound, merged siblings
-- included, and its allocated fragments are those it had but for one with that header.
pub free_in_page-Freed :
    (first room now a : ℕ) (w : Weight) (page : HeapPage)
    → IsSound first room page
    → Freed first room w now page a (free_in_page true now page a)
unfolding free_in_page
free_in_page-Freed first room now a w page sound =
    Freed-of_taken first room now a w page (take_header a page.allocated) sound refl
