-- ===== src/MemPool/Malloc.antt =====
-- lib/libtscommon/src/mempool.c, `mp_malloc`, `mp_get_size`, `mp_realloc` and `mp_free`: which
-- allocator serves a call. A pointer is a number of heap units from the start of the segment.
pub mod Served
mod Tests
use v_perf_generator.MemPool.FreeTree.{Fragment}
use v_perf_generator.MemPool.HeapPage.{
  HeapPage, try_pages, pages_to_try, mp_heap_alloc, mp_heap_free, units_of, mp_heap_page_size,
  mp_heap_unit,
}
use v_perf_generator.MemPool.HeapPage.Heap.{mp_heap_max_alloc}
use v_perf_generator.MemPool.Frags.{
  Segment, FragType, frag_common, frag_heap, frag_slab, frag_unallocated, frag_reference,
  mp_frag_alloc, mp_frag_free, mp_frag_get_descr, mp_frag_get_size, mp_frag_size,
}
use v_perf_generator.Common.{
  ◌∷◌, ℕ, ℕ, ◌+◌, ◌-◌, ◌*◌, ◌/◌, ◌%◌, leb, ltb, ◌==◌, ◌||◌, if◌then◌else◌, Bool, true, false, some,
  none, Option, List, [],
}

pub record MemPool : Type 0 where
  pub segment : Segment
  pub heap_page_list : List HeapPage

-- What the calls take from outside: `sizeof(mp_heap_page_t)`, `1 << 32`, the clock, `mutex_try_lock`
-- of the pages, the other users of the bitmap while a call sleeps, and whether `mp_frag_alloc` finds
-- room for the array of a defragmentation.
pub record Env : Type 0 where
  pub sizeof_page : ℕ
  pub beyond : ℕ
  pub now : ℕ
  pub lock : ℕ → Bool
  pub array : Bool
  pub others : ℕ → List ℕ → List ℕ

-- The heap units of a fragment.
abbrev pub frag_units : ℕ
frag_units = 64

-- `MP_HH_TO_FRAGMENT`
unfoldable pub mp_hh_to_fragment : Fragment → ℕ
mp_hh_to_fragment h = h.hh + 1

unfoldable pub heap_done : Segment → Option (Fragment × List HeapPage) → Option (ℕ × MemPool)
unfolding mp_hh_to_fragment
heap_done seg none = none
heap_done seg (some (h, pages)) =
    some (mp_hh_to_fragment h, record { segment = seg; heap_page_list = pages })

-- A heap page comes from the fragment allocator, where no page of the list serves.
unfoldable pub heap_new_page : Env → List HeapPage → ℕ → Option (ℕ × Segment) → Option (ℕ × MemPool)
unfolding heap_done
heap_new_page env pages sz none = none
heap_new_page env pages sz (some (idx, seg)) =
    heap_done seg (mp_heap_alloc env.sizeof_page (idx * frag_units) env.now env.lock sz pages)

-- By what the pages of the list have to offer.
unfoldable pub heap_serve :
    Env → MemPool → ℕ → Option (Fragment × List HeapPage) → Option (ℕ × MemPool)
unfolding heap_done heap_new_page
heap_serve env pool sz (some served) =
    heap_done pool.segment (mp_heap_alloc env.sizeof_page 0 env.now env.lock sz pool.heap_page_list)
heap_serve env pool sz none =
    heap_new_page env pool.heap_page_list sz
      (mp_frag_alloc env.beyond env.others pool.segment mp_heap_page_size frag_heap)

unfoldable pub heap_malloc : Env → MemPool → ℕ → Option (ℕ × MemPool)
unfolding heap_serve
heap_malloc env pool sz =
    heap_serve env pool sz (try_pages env.lock 0 (units_of sz) (pages_to_try pool.heap_page_list))

unfoldable pub frag_done : List HeapPage → Option (ℕ × Segment) → Option (ℕ × MemPool)
frag_done pages none = none
frag_done pages (some (idx, seg)) =
    some (idx * frag_units, record { segment = seg; heap_page_list = pages })

-- `(sz > MPHEAPMAXALLOC) || ((sz & MPFRAGMASK) == 0)`
unfoldable pub for_frags : ℕ → Bool
for_frags sz = ltb mp_heap_max_alloc sz || (sz % mp_frag_size == 0)

unfoldable pub mp_malloc : Env → MemPool → ℕ → Option (ℕ × MemPool)
unfolding for_frags frag_done heap_malloc
mp_malloc env pool sz =
    if for_frags sz
    then frag_done pool.heap_page_list
        (mp_frag_alloc env.beyond env.others pool.segment sz frag_common)
    else heap_malloc env pool sz

-- `hh_size` of the allocated header at `a`, and the size in bytes.
unfoldable pub header_size : ℕ → List Fragment → Option ℕ
header_size a [] = none
header_size a (h ∷ hs) = let rest = header_size a hs in if h.hh == a then some h.hh_size else rest

unfoldable pub mp_heap_get_size : List HeapPage → ℕ → Option ℕ
unfolding header_size
mp_heap_get_size [] ptr = none
mp_heap_get_size (page ∷ pages) ptr = elim (header_size (ptr - 1) page.allocated) [
  | some size ↦ some (size * mp_heap_unit)
  | none ↦ mp_heap_get_size pages ptr
]

unfoldable pub is_heap : FragType → Bool
is_heap frag_heap = true
is_heap frag_common = false
is_heap frag_slab = false
is_heap frag_unallocated = false
is_heap frag_reference = false

-- `none` is the assertion that the pointer has a descriptor.
unfoldable pub mp_get_size : MemPool → ℕ → Option ℕ
unfolding is_heap mp_heap_get_size
mp_get_size pool ptr = elim (mp_frag_get_descr pool.segment (ptr / frag_units)) [
  | none ↦ none
  | some descr ↦
      if is_heap (pool.segment.mp_frags descr).fd_type
      then mp_heap_get_size pool.heap_page_list ptr
      else some (mp_frag_get_size pool.segment descr)
]

-- A heap page that goes back.
unfoldable pub free_page : Env → Segment → Option ℕ → Option Segment
free_page env seg none = some seg
free_page env seg (some page) = mp_frag_free env.beyond seg (page / frag_units)

unfoldable pub heap_free : Env → MemPool → ℕ → Option MemPool
unfolding free_page
heap_free env pool ptr = elim (mp_heap_free env.array env.now (ptr - 1) pool.heap_page_list) [
  | none ↦ none
  | some (gone, pages) ↦ elim (free_page env pool.segment gone) [
    | none ↦ none
    | some seg ↦ some (record { segment = seg; heap_page_list = pages })
  ]
]

unfoldable pub mp_free : Env → MemPool → ℕ → Option MemPool
unfolding is_heap heap_free
mp_free env pool ptr = elim (mp_frag_get_descr pool.segment (ptr / frag_units)) [
  | none ↦ none
  | some descr ↦
      if is_heap (pool.segment.mp_frags descr).fd_type
      then heap_free env pool ptr
      else elim (mp_frag_free env.beyond pool.segment (ptr / frag_units)) [
        | none ↦ none
        | some seg ↦ some (record pool { segment = seg })
      ]
]

-- The second allocation, and the old memory freed once it has been copied.
unfoldable pub move : Env → MemPool → ℕ → ℕ → Option (ℕ × MemPool)
move env pool oldptr sz = elim (mp_malloc env pool sz) [
  | none ↦ none
  | some (newptr, pool') ↦ elim (mp_free env pool' oldptr) [
    | none ↦ none
    | some pool'' ↦ some (newptr, pool'')
  ]
]

-- `mp_realloc`: what the first call of `mp_malloc` returns is not used.
unfoldable pub mp_realloc : Env → MemPool → ℕ → ℕ → Option (ℕ × MemPool)
unfolding move
mp_realloc env pool oldptr sz = elim (mp_malloc env pool sz) [
  | none ↦ none
  | some (unused, pool') ↦ elim (mp_get_size pool' oldptr) [
    | none ↦ none
    | some oldsz ↦ if leb sz oldsz then some (oldptr, pool') else move env pool' oldptr sz
  ]
]
