-- ===== src/MemPool/HeapPage.antt =====
-- lib/libtscommon/src/mempool.c, the pages of the heap: `mp_heap_page_alloc`, `mp_heap_alloc`,
-- `mp_heap_free` and `mp_heap_page_defrag`. What runs with `hp_mutex` held is one step. Addresses
-- and sizes count heap units (MPHEAPUNIT, 4 bytes); where pages lie comes from the fragment
-- allocator and is a parameter.
pub mod Tiled
pub mod Defrag
pub mod Alloc
pub mod Heap
pub mod Free
mod Tests
use v_perf_generator.TsTime.{t_sec}
use v_perf_generator.MemPool.FreeTree.{
  Fragment, Tree, leaf, node, mp_heap_btree_insert, mp_heap_btree_find_delete,
  mp_heap_btree_linearize,
}
use v_perf_generator.Common.{
  ℕ, ◌^◌, ℕ, ◌+◌, ◌-◌, ◌*◌, ◌/◌, ◌%◌, Bool, List, [], ◌∷◌, Option, none, some, ltb, leb, ◌==◌, ◌&&◌,
  if◌then◌else◌, true, false, length,
}

abbrev pub mp_heap_unit : ℕ
mp_heap_unit = 4

abbrev pub mp_heap_min_units : ℕ
mp_heap_min_units = 4

abbrev pub mp_heap_max_units : ℕ
mp_heap_max_units = 1024

-- MPHEAPHHSIZE, as on GCC: one unit
abbrev pub mp_heap_hh_size : ℕ
mp_heap_hh_size = 4

abbrev pub mp_heap_page_size : ℕ
mp_heap_page_size = 4096

abbrev pub mp_hh_defrag_free : ℕ
mp_hh_defrag_free = 16

abbrev pub mp_hh_defrag_period : ℕ
mp_hh_defrag_period = 8

-- A page at `address`; `allocated` are the headers in it that are marked as allocated.
pub record HeapPage : Type 0 where
  pub address : ℕ
  pub hp_free : ℕ
  pub hp_birth : ℕ
  pub hp_defrag_period : ℕ
  pub hp_allocated_count : ℕ
  pub hp_free_count : ℕ
  pub hp_root_free : Tree
  pub allocated : List Fragment

-- The page that `mp_heap_page_alloc` makes at a raw page, with `sizeof(mp_heap_page_t)`: the branch of
-- the thread that gets `heap_page_mutex` at once, and for which `mp_frag_alloc` does not abort. One
-- that has to wait for it returns `last_heap_page`, the page of the other thread.
unfoldable pub mp_heap_page_alloc : ℕ → ℕ → ℕ → HeapPage
mp_heap_page_alloc sizeof_page raw_page now =
    let free = (mp_heap_page_size - sizeof_page - mp_heap_hh_size) / mp_heap_unit in
    let header : Fragment = record { hh = raw_page + sizeof_page / mp_heap_unit; hh_size = free } in
    record {
      address = raw_page;
      hp_free = free;
      hp_birth = now;
      hp_defrag_period = 1;
      hp_allocated_count = 0;
      hp_free_count = 1;
      hp_root_free = node leaf header leaf;
      allocated = [];
    }

-- The units of an allocation of `size` bytes, its header included.
unfoldable pub units_of : ℕ → ℕ
units_of size =
    let units =
      size / mp_heap_unit
      + (if size % mp_heap_unit == 0 then 0 else 1)
      + mp_heap_hh_size / mp_heap_unit in
    if ltb units mp_heap_min_units then mp_heap_min_units else units

-- `MP_HH_NEXT`
unfoldable pub mp_hh_next : Fragment → ℕ
mp_hh_next h = h.hh + h.hh_size

-- Once a page has given up `h`: its header is marked, and what is left over is trimmed when it is
-- more than MPHEAPMINUNITS.
unfoldable pub take_from_page : HeapPage → Fragment → Tree → ℕ → Fragment × HeapPage
unfolding mp_hh_next
take_from_page page h rest units =
    let diff = h.hh_size - units in
    let kept : Fragment = record { hh = h.hh; hh_size = units } in
    let hh_next : Fragment = record { hh = mp_hh_next kept; hh_size = diff } in
    if ltb mp_heap_min_units diff
    then (
      kept,
      record page {
        hp_allocated_count = page.hp_allocated_count + 1;
        hp_free_count = page.hp_free_count - 1 + 1;
        hp_root_free = mp_heap_btree_insert rest hh_next;
        hp_free = page.hp_free - units;
        allocated = kept ∷ page.allocated;
      },
    )
    else (
      h,
      record page {
        hp_allocated_count = page.hp_allocated_count + 1;
        hp_free_count = page.hp_free_count - 1;
        hp_root_free = rest;
        hp_free = page.hp_free - h.hh_size;
        allocated = h ∷ page.allocated;
      },
    )

unfoldable pub alloc_from_page : HeapPage → ℕ → Option (Fragment × HeapPage)
unfolding take_from_page
alloc_from_page page units = elim (mp_heap_btree_find_delete page.hp_root_free units) [
  | none ↦ none
  | some (h, rest) ↦ some (take_from_page page h rest units)
]

-- `hp_root_free != NULL`
unfoldable pub has_free : Tree → Bool
has_free leaf = false
has_free (node l h r) = true

-- The pages behind the one that was tried last, from the `i`-th attempt on; `lock i` is what
-- `mutex_try_lock` says then.
unfoldable pub try_pages : (ℕ → Bool) → ℕ → ℕ → List HeapPage → Option (Fragment × List HeapPage)
unfolding alloc_from_page has_free
try_pages lock i units [] = none
try_pages lock i units (page ∷ pages) =
    let behind : Option (Fragment × List HeapPage) = elim (try_pages lock (i + 1) units pages) [
      | none ↦ none
      | some (h, pages') ↦ some (h, page ∷ pages')
    ] in
    if lock i && has_free page.hp_root_free
    then elim (alloc_from_page page units) [
      | none ↦ behind
      | some (h, page') ↦ some (h, page' ∷ pages)
    ]
    else behind

-- `list_for_each_entry_continue` starts behind the first page.
unfoldable pub pages_to_try : List HeapPage → List HeapPage
pages_to_try [] = []
pages_to_try (page ∷ pages) = pages

unfoldable pub with_first : List HeapPage → List HeapPage → List HeapPage
with_first [] tried = tried
with_first (page ∷ pages) tried = page ∷ tried

-- The header that is allocated, and the list of pages. `none` is a new page that is too small,
-- where the source goes on for ever.
unfoldable pub mp_heap_alloc :
    ℕ → ℕ → ℕ → (ℕ → Bool) → ℕ → List HeapPage → Option (Fragment × List HeapPage)
unfolding mp_heap_page_alloc units_of try_pages pages_to_try with_first
mp_heap_alloc sizeof_page raw_page now lock size pages =
    elim (try_pages lock 0 (units_of size) (pages_to_try pages)) [
      | some (h, tried) ↦ some (h, with_first pages tried)
      | none ↦
          elim (alloc_from_page (mp_heap_page_alloc sizeof_page raw_page now) (units_of size)) [
            | none ↦ none
            | some (h, page) ↦ some (h, page ∷ pages)
          ]
    ]

-- The low 16 bits of a header's address in bytes, by which `mp_heap_header_lcmp` compares.
unfoldable pub low_bits : Fragment → ℕ
low_bits h = (h.hh * mp_heap_unit) % 2 ^ 16

unfoldable pub insert_sorted : Fragment → List Fragment → List Fragment
unfolding low_bits
insert_sorted h [] = h ∷ []
insert_sorted h (g ∷ gs) =
    if leb (low_bits h) (low_bits g) then h ∷ g ∷ gs else g ∷ insert_sorted h gs

-- `qsort` with `mp_heap_header_lcmp`
unfoldable pub sort_headers : List Fragment → List Fragment
unfolding insert_sorted
sort_headers [] = []
sort_headers (h ∷ hs) = insert_sorted h (sort_headers hs)

-- The merge of siblings, with `h` being enlarged.
unfoldable pub merge_from : Fragment → List Fragment → List Fragment
unfolding mp_hh_next
merge_from h [] = h ∷ []
merge_from h (g ∷ gs) =
    let merged = merge_from (record { hh = h.hh; hh_size = h.hh_size + g.hh_size }) gs in
    let apart = h ∷ merge_from g gs in if mp_hh_next h == g.hh then merged else apart

unfoldable pub merge_siblings : List Fragment → List Fragment
unfolding merge_from
merge_siblings [] = []
merge_siblings (h ∷ hs) = merge_from h hs

unfoldable pub insert_all : Tree → List Fragment → Tree
insert_all t [] = t
insert_all t (h ∷ hs) = insert_all (mp_heap_btree_insert t h) hs

-- `array` is that `mp_frag_alloc` finds room for the array of the free headers, which is given back at
-- the end. `none` is its abort, NULL as the root that is followed, or the assertion that the tree has
-- `hp_free_count` headers.
unfoldable pub mp_heap_page_defrag : Bool → HeapPage → Option HeapPage
unfolding has_free sort_headers merge_siblings insert_all
mp_heap_page_defrag array page =
    let period = page.hp_defrag_period - 1 in
    let linear = mp_heap_btree_linearize page.hp_root_free in
    let merged = merge_siblings (sort_headers linear) in
    if ltb 0 period
    then some (record page { hp_defrag_period = period })
    else if array && has_free page.hp_root_free && length linear == page.hp_free_count
    then some (record page {
      hp_root_free = insert_all leaf merged;
      hp_free_count = length merged;
      hp_defrag_period = mp_hh_defrag_period;
    })
    else none

-- The header at an address among the allocated ones, and the others.
unfoldable pub take_header : ℕ → List Fragment → Option (Fragment × List Fragment)
take_header a [] = none
take_header a (h ∷ hs) = elim (take_header a hs) [
  | none ↦ if h.hh == a then some (h, hs) else none
  | some (g, rest) ↦ if h.hh == a then some (h, hs) else some (g, h ∷ rest)
]

-- The fragment back in the free tree.
unfoldable pub give_back : HeapPage → Fragment → List Fragment → HeapPage
give_back page h others = record page {
  hp_root_free = mp_heap_btree_insert page.hp_root_free h;
  hp_free_count = page.hp_free_count + 1;
  hp_free = page.hp_free + h.hh_size;
  hp_allocated_count = page.hp_allocated_count - 1;
  allocated = others;
}

-- `mp_heap_page_free` leaves a page alone in its first second.
unfoldable pub mp_heap_page_free : ℕ → HeapPage → Option HeapPage
mp_heap_page_free now page = if ltb (now - page.hp_birth) t_sec then some page else none

-- What a page becomes when the fragment at header `a` is freed: `some none` where the page itself
-- is. `none` is the assertion that an allocated fragment has its header there, or a defragmentation
-- that comes to nothing.
unfoldable pub free_in_page : Bool → ℕ → HeapPage → ℕ → Option (Option HeapPage)
unfolding take_header give_back mp_heap_page_free mp_heap_page_defrag
free_in_page array now page a = elim (take_header a page.allocated) [
  | none ↦ none
  | some (h, others) ↦
      let page' = give_back page h others in
      if page'.hp_allocated_count == 0
      then some (mp_heap_page_free now page')
      else if ltb mp_hh_defrag_free page'.hp_free_count
      then elim (mp_heap_page_defrag array page') [ none ↦ none | some page'' ↦ some (some page'') ]
      else some (some page')
]

-- `MP_HH_IN_PAGE`
unfoldable pub mp_hh_in_page : ℕ → HeapPage → Bool
mp_hh_in_page a page = ltb page.address a && ltb a (page.address + mp_heap_max_units)

unfoldable pub put_page : Option HeapPage → List HeapPage → List HeapPage
put_page none pages = pages
put_page (some page) pages = page ∷ pages

-- The address of a page that is given back.
unfoldable pub page_given_back : HeapPage → Option HeapPage → Option ℕ
page_given_back page none = some page.address
page_given_back page (some left) = none

-- `mp_heap_free` of the fragment behind header `a`: the page that goes back to the fragment
-- allocator, if one does, and the list. `none` is an assertion that fails or an abort.
unfoldable pub mp_heap_free : Bool → ℕ → ℕ → List HeapPage → Option (Option ℕ × List HeapPage)
unfolding free_in_page mp_hh_in_page put_page page_given_back
mp_heap_free array now a [] = none
mp_heap_free array now a (page ∷ pages) = elim (mp_hh_in_page a page) [
  | true ↦ elim (free_in_page array now page a) [
    | none ↦ none
    | some left ↦ some (page_given_back page left, put_page left pages)
  ]
  | false ↦ elim (mp_heap_free array now a pages) [
    | none ↦ none
    | some (gone, pages') ↦ some (gone, page ∷ pages')
  ]
]
