-- ===== src/MemPool/Malloc/Tests.antt =====
-- Runs of `mp_malloc` and its witness.
use v_perf_generator.MemPool.Malloc.{MemPool, mp_malloc}
use v_perf_generator.MemPool.Malloc.Served.{PoolSound, Served, alone, mp_malloc-Served}
use v_perf_generator.MemPool.Frags.{frag_unallocated}
use v_perf_generator.Common.{refl, refl, [], ◌∷◌, arith, inr, true}

abbrev two_pages : MemPool
two_pages = record {
  segment = record {
    mp_segment_size = 16384;
    mp_frag_bitmap = 0 ∷ 0 ∷ [];
    mp_frags = λ k. record { fd_type = frag_unallocated; fd_size = 0 };
  };
  heap_page_list = [];
}

two_pages-Sound : PoolSound 160 two_pages
two_pages-Sound = (record { cells = omega arith; pages = refl; free = λ k. inr refl }, tt)

mp_malloc-Served_example :
    Served 160 1 two_pages 100 (mp_malloc (alone 160 1 7 (λ i. true)) two_pages 100)
mp_malloc-Served_example =
    mp_malloc-Served 160 1 7 (λ i. true) two_pages 100 two_pages-Sound (omega arith) (omega arith)
      (omega arith)
