-- ===== src/MemPool/Malloc/Served.antt =====
-- `mp_malloc` keeps both allocators sound, and fails only where the bitmap has no room.
use v_perf_generator.MemPool.FreeTree.{Fragment}
use v_perf_generator.MemPool.HeapPage.{HeapPage, units_of, mp_heap_page_size}
use v_perf_generator.MemPool.HeapPage.Heap.{
  mp_heap_max_alloc, HeapSound, HeapAllocated, mp_heap_alloc-HeapAllocated,
}
use v_perf_generator.MemPool.Bitmap.{mp_bitmap_alloc}
use v_perf_generator.MemPool.Bitmap.Cells.{quiet}
use v_perf_generator.MemPool.Frags.{
  Segment, frag_common, frag_heap, frags_of, num_frags, mp_page_size, is_negative,
}
use v_perf_generator.MemPool.Frags.Alloc.{IsSound, FragAllocated, mp_frag_alloc-FragAllocated}
use v_perf_generator.MemPool.Malloc.{
  heap_serve, frag_units, MemPool, Env, heap_done, heap_new_page, heap_malloc, frag_done, for_frags,
  mp_malloc,
}
use v_perf_generator.Common.{
  true, ℕ, ◌<◌, ◌*◌, ℕ, ◌≡◌, ◌≤◌, ◌⊎◌, inl, inr, arith, Bool, false, some, none, Option, List,
  Bool-cases, refl,
}

abbrev pub PoolSound : ℕ → MemPool → Type 0
PoolSound sizeof_page pool = IsSound pool.segment × HeapSound sizeof_page pool.heap_page_list

-- Does the bitmap have no room for `size` bytes?
abbrev pub NoRoom : ℕ → Segment → ℕ → Type 0
NoRoom beyond seg size =
    (mp_bitmap_alloc beyond quiet (num_frags seg) (frags_of size) seg.mp_frag_bitmap).0 ≡ none

-- The outcome of an allocation of `sz` bytes: the pool stays sound, or there is no room for them
-- or for a page of the heap.
abbrev pub Served : ℕ → ℕ → MemPool → ℕ → Option (ℕ × MemPool) → Type 0
Served sizeof_page beyond pool sz none =
    NoRoom beyond pool.segment sz ⊎ NoRoom beyond pool.segment mp_heap_page_size
Served sizeof_page beyond pool sz (some (ptr, pool')) = PoolSound sizeof_page pool'

frags_of_pos : (n : ℕ) → 1 ≤ n → 0 < frags_of n
unfolding frags_of
frags_of_pos n h = ground arith

heap_size : (sz : ℕ) → for_frags sz ≡ false → sz ≤ mp_heap_max_alloc
unfolding for_frags
heap_size sz little = ground arith

module _ (sizeof_page beyond now : ℕ) (lock : ℕ → Bool) where
  -- A call that no other thread disturbs in the bitmap.
  abbrev pub alone : Env
  alone = record {
    sizeof_page = sizeof_page;
    beyond = beyond;
    now = now;
    lock = lock;
    array = true;
    others = quiet;
  }

  module _ (pool : MemPool) (sz : ℕ) (sound : PoolSound sizeof_page pool) where
    Served-of_heap :
        (seg : Segment) (o : Option (Fragment × List HeapPage))
        → IsSound seg
        → HeapAllocated sizeof_page (units_of sz) o
        → Served sizeof_page beyond pool sz (heap_done seg o)
    unfolding heap_done
    Served-of_heap seg none s a = absurd a
    Served-of_heap seg (some (h, pages)) s a = (s, a.0)

    Served-of_page :
        (o : Option (ℕ × Segment))
        → sizeof_page ≤ 884
        → sz ≤ mp_heap_max_alloc
        → FragAllocated beyond pool.segment mp_heap_page_size frag_heap 0 o
        → Served sizeof_page beyond pool sz (heap_new_page alone pool.heap_page_list sz o)
    unfolding heap_new_page
    Served-of_page none small le a = inr a
    Served-of_page (some (idx, seg)) small le a = Served-of_heap seg _ a.0 (
        mp_heap_alloc-HeapAllocated sizeof_page (idx * frag_units) now lock sz pool.heap_page_list
          small le sound.1)

    Served-of_frags :
        (o : Option (ℕ × Segment))
        → FragAllocated beyond pool.segment sz frag_common 0 o
        → Served sizeof_page beyond pool sz (frag_done pool.heap_page_list o)
    unfolding frag_done
    Served-of_frags none a = inl a
    Served-of_frags (some (idx, seg)) a = (a.0, sound.1)

    Served-of_serve :
        (o : Option (Fragment × List HeapPage))
        → sizeof_page ≤ 884
        → sz ≤ mp_heap_max_alloc
        → Served sizeof_page beyond pool sz (heap_serve alone pool sz o)
    unfolding heap_serve is_negative
    Served-of_serve none small le = Served-of_page _ small le (
        mp_frag_alloc-FragAllocated beyond mp_heap_page_size 0 frag_heap pool.segment sound.0 refl
          (omega arith) (omega arith) (frags_of_pos mp_heap_page_size (omega arith)))
    Served-of_serve (some served) small le =
        Served-of_heap pool.segment _ sound.0 (
          mp_heap_alloc-HeapAllocated sizeof_page 0 now lock sz pool.heap_page_list small le
            sound.1)

    heap_malloc-Served :
        sizeof_page ≤ 884
        → sz ≤ mp_heap_max_alloc
        → Served sizeof_page beyond pool sz (heap_malloc alone pool sz)
    unfolding heap_malloc
    heap_malloc-Served small le = Served-of_serve _ small le

    -- mp_malloc of 1 to 8192 bytes on a sound pool, in which no other thread uses the bitmap or makes
    -- a heap page meanwhile, whichever heap pages others hold, and where the header of a heap page
    -- takes no more than 884 bytes, fails no assertion: it aborts only where mp_bitmap_alloc answers
    -- that it found no region, for the size itself or for a page of the heap, which it may also answer
    -- when there is one. Otherwise the segment and every heap page are sound afterwards.
    pub mp_malloc-Served :
        sizeof_page ≤ 884
        → 1 ≤ sz
        → sz ≤ mp_page_size
        → Served sizeof_page beyond pool sz (mp_malloc alone pool sz)
    unfolding mp_malloc is_negative
    mp_malloc-Served small some_size page = elim (Bool-cases (for_frags sz)) [
      | inl large ↦ rw large (
          Served-of_frags _ (
            mp_frag_alloc-FragAllocated beyond sz 0 frag_common pool.segment sound.0 refl some_size
              page (frags_of_pos sz some_size)))
      | inr little ↦ rw little (heap_malloc-Served small (heap_size sz little))
    ]
