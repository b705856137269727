-- ===== src/MemPool/HeapPage/Heap.antt =====
-- `mp_heap_alloc` over the list of pages.
use v_perf_generator.MemPool.FreeTree.{Fragment}
use v_perf_generator.MemPool.FreeTree.Weight.{weight, list_weight}
use v_perf_generator.MemPool.HeapPage.{
  HeapPage, alloc_from_page, mp_heap_page_alloc, units_of, mp_heap_alloc, try_pages, pages_to_try,
  with_first, has_free, mp_heap_unit, mp_heap_page_size, mp_heap_hh_size,
}
use v_perf_generator.MemPool.HeapPage.Tiled.{IsSound, covers, cover}
use v_perf_generator.MemPool.HeapPage.Alloc.{Allocated, alloc_from_page-Allocated}
use v_perf_generator.Common.{
  sym, sym, subst, ℕ, ℕ, ◌+◌, ◌-◌, ◌/◌, ◌≡◌, ◌≤◌, ◌&&◌, if◌then◌else◌, arith, List, [], ◌∷◌, Option,
  some, none, All, Bool, true, false, refl,
}

-- MPHEAPMAXALLOC
abbrev pub mp_heap_max_alloc : ℕ
mp_heap_max_alloc = 3200

-- The units of a page behind its `mp_heap_page_t` of `sizeof_page` bytes.
abbrev pub room_of : ℕ → ℕ
room_of sizeof_page = (mp_heap_page_size - sizeof_page - mp_heap_hh_size) / mp_heap_unit

abbrev pub PageSound : ℕ → HeapPage → Type 0
PageSound sizeof_page page =
    IsSound (page.address + sizeof_page / mp_heap_unit) (room_of sizeof_page) page

abbrev pub HeapSound : ℕ → List HeapPage → Type 0
HeapSound sizeof_page = All (PageSound sizeof_page)

-- The heap after an allocation: sound, with `h` of at least `asked` units.
abbrev pub HeapAllocated : ℕ → ℕ → Option (Fragment × List HeapPage) → Type 0
HeapAllocated sizeof_page asked none = ⊥
HeapAllocated sizeof_page asked (some (h, pages)) =
    HeapSound sizeof_page pages × (asked ≤ h.hh_size)

module _ (sizeof_page : ℕ) where
  mp_heap_page_alloc-Sound :
      (raw_page now : ℕ) → PageSound sizeof_page (mp_heap_page_alloc sizeof_page raw_page now)
  unfolding mp_heap_page_alloc cover weight list_weight covers
  mp_heap_page_alloc-Sound raw_page now = record {
    ordered = (tt, tt, tt, tt);
    free_units = omega arith;
    free_fragments = omega arith;
    allocated_fragments = refl;
    tiled = λ u. omega arith;
  }

  PageSound-of_address :
      (page page' : HeapPage)
      → page'.address ≡ page.address
      → IsSound (page.address + sizeof_page / mp_heap_unit) (room_of sizeof_page) page'
      → PageSound sizeof_page page'
  PageSound-of_address page page' same sound =
      subst (λ (a : ℕ). IsSound (a + sizeof_page / mp_heap_unit) (room_of sizeof_page) page')
        (sym same) sound

  -- What an allocation in one page of a sound heap comes to.
  abbrev InPage : ℕ → Option (Fragment × HeapPage) → Type 0
  InPage asked none = Unit
  InPage asked (some (h, page')) = PageSound sizeof_page page' × (asked ≤ h.hh_size)

  InPage-of_Allocated :
      (asked : ℕ) (page : HeapPage) (o : Option (Fragment × HeapPage))
      → Allocated (page.address + sizeof_page / mp_heap_unit) (room_of sizeof_page) asked page o
      → InPage asked o
  InPage-of_Allocated asked page none a = tt
  InPage-of_Allocated asked page (some (h, page')) a =
      (PageSound-of_address page page' a.3 a.0, a.1)

  alloc_from_page-InPage :
      (asked : ℕ) (page : HeapPage)
      → PageSound sizeof_page page
      → InPage asked (alloc_from_page page asked)
  alloc_from_page-InPage asked page sound = InPage-of_Allocated asked page _ (
      alloc_from_page-Allocated (page.address + sizeof_page / mp_heap_unit) (room_of sizeof_page)
        asked page sound)

  abbrev InPages : ℕ → Option (Fragment × List HeapPage) → Type 0
  InPages asked none = Unit
  InPages asked (some (h, pages)) = HeapSound sizeof_page pages × (asked ≤ h.hh_size)

  InPages-behind :
      (asked : ℕ) (page : HeapPage) (o : Option (Fragment × List HeapPage))
      → PageSound sizeof_page page
      → InPages asked o
      → InPages asked (elim o [ none ↦ none | some (h, pages') ↦ some (h, page ∷ pages') ])
  InPages-behind asked page none sound a = tt
  InPages-behind asked page (some (h, pages)) sound a = ((sound, a.0), a.1)

  InPages-here :
      (asked : ℕ) (pages : List HeapPage) (o : Option (Fragment × HeapPage))
      (behind : Option (Fragment × List HeapPage))
      → HeapSound sizeof_page pages
      → InPage asked o
      → InPages asked behind
      → InPages asked (elim o [ none ↦ behind | some (h, page') ↦ some (h, page' ∷ pages) ])
  InPages-here asked pages none behind sound a b = b
  InPages-here asked pages (some (h, page')) behind sound a b = ((a.0, sound), a.1)

  InPages-if :
      (asked : ℕ) (b : Bool) (x y : Option (Fragment × List HeapPage))
      → InPages asked x
      → InPages asked y
      → InPages asked (if b then x else y)
  InPages-if asked true x y p q = p
  InPages-if asked false x y p q = q

  try_pages-InPages :
      (lock : ℕ → Bool) (i asked : ℕ) (pages : List HeapPage)
      → HeapSound sizeof_page pages
      → InPages asked (try_pages lock i asked pages)
  unfolding try_pages
  try_pages-InPages lock i asked [] sound = tt
  try_pages-InPages lock i asked (page ∷ pages) sound =
      let behind =
        InPages-behind asked page (try_pages lock (i + 1) asked pages) sound.0
          (try_pages-InPages lock (i + 1) asked pages sound.1) in
      InPages-if asked (lock i && has_free page.hp_root_free) _ _
        (InPages-here asked pages (alloc_from_page page asked) _ sound.1
          (alloc_from_page-InPage asked page sound.0) behind)
        behind

  -- A new page has room for what is asked.
  abbrev InNewPage : ℕ → List HeapPage → Option (Fragment × HeapPage) → Type 0
  InNewPage asked pages o =
      HeapAllocated sizeof_page asked
        (elim o [ none ↦ none | some (h, page) ↦ some (h, page ∷ pages) ])

  InNewPage-of_Allocated :
      (asked raw_page now : ℕ) (pages : List HeapPage) (o : Option (Fragment × HeapPage))
      → HeapSound sizeof_page pages
      → asked ≤ room_of sizeof_page
      → Allocated
          (raw_page + sizeof_page / mp_heap_unit)
          (room_of sizeof_page)
          asked
          (mp_heap_page_alloc sizeof_page raw_page now)
          o
      → InNewPage asked pages o
  unfolding mp_heap_page_alloc
  InNewPage-of_Allocated asked raw_page now pages none sound room a = absurd (omega (arith, a.1))
  InNewPage-of_Allocated asked raw_page now pages (some (h, page')) sound room a = (
    (PageSound-of_address (mp_heap_page_alloc sizeof_page raw_page now) page' a.3 a.0, sound),
    a.1,
  )

  with_first-Sound :
      (pages tried : List HeapPage)
      → HeapSound sizeof_page pages
      → HeapSound sizeof_page tried
      → HeapSound sizeof_page (with_first pages tried)
  unfolding with_first
  with_first-Sound [] tried s t = t
  with_first-Sound (page ∷ pages) tried s t = (s.0, t)

  pages_to_try-Sound :
      (pages : List HeapPage)
      → HeapSound sizeof_page pages
      → HeapSound sizeof_page (pages_to_try pages)
  unfolding pages_to_try
  pages_to_try-Sound [] s = tt
  pages_to_try-Sound (page ∷ pages) s = s.1

units_of-le :
    (sizeof_page size : ℕ)
    → sizeof_page ≤ 884
    → size ≤ mp_heap_max_alloc
    → units_of size ≤ room_of sizeof_page
unfolding units_of
units_of-le sizeof_page size small le = ground arith

HeapAllocated-of_cases :
    (sizeof_page raw_page now asked : ℕ) (pages : List HeapPage)
    (o : Option (Fragment × List HeapPage))
    → HeapSound sizeof_page pages
    → asked ≤ room_of sizeof_page
    → InPages sizeof_page asked o
    → HeapAllocated sizeof_page asked (elim o [
      | some (h, tried) ↦ some (h, with_first pages tried)
      | none ↦ elim (alloc_from_page (mp_heap_page_alloc sizeof_page raw_page now) asked) [
        | none ↦ none
        | some (h, page) ↦ some (h, page ∷ pages)
      ]
    ])
unfolding mp_heap_page_alloc
HeapAllocated-of_cases sizeof_page raw_page now asked pages (some (h, tried)) sound room a =
    (with_first-Sound sizeof_page pages tried sound a.0, a.1)
HeapAllocated-of_cases sizeof_page raw_page now asked pages none sound room a =
    let fresh = mp_heap_page_alloc sizeof_page raw_page now in
    InNewPage-of_Allocated sizeof_page asked raw_page now pages (alloc_from_page fresh asked) sound
      room
      (alloc_from_page-Allocated (raw_page + sizeof_page / mp_heap_unit) (room_of sizeof_page) asked
        fresh (mp_heap_page_alloc-Sound sizeof_page raw_page now))

-- mp_heap_alloc of at most MPHEAPMAXALLOC bytes ends with a fragment, whichever pages other threads
-- hold, for a thread that can make a page of its own when it needs one (heap_page_mutex is free, and
-- mp_frag_alloc gives the raw page), as long as the header of a page takes no more than 884 bytes:
-- the fragment holds the size and its header, and each page of the heap stays sound.
pub mp_heap_alloc-HeapAllocated :
    (sizeof_page raw_page now : ℕ) (lock : ℕ → Bool) (size : ℕ) (pages : List HeapPage)
    → sizeof_page ≤ 884
    → size ≤ mp_heap_max_alloc
    → HeapSound sizeof_page pages
    → HeapAllocated sizeof_page
        (units_of size)
        (mp_heap_alloc sizeof_page raw_page now lock size pages)
unfolding mp_heap_alloc
mp_heap_alloc-HeapAllocated sizeof_page raw_page now lock size pages small le sound =
    HeapAllocated-of_cases sizeof_page raw_page now (units_of size) pages _ sound
      (units_of-le sizeof_page size small le)
      (try_pages-InPages sizeof_page lock 0 (units_of size) (pages_to_try pages)
        (pages_to_try-Sound sizeof_page pages sound))
