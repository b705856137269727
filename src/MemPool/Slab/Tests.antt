-- ===== src/MemPool/Slab/Tests.antt =====
-- SLAB caches on concrete input.
use v_perf_generator.MemPool.Slab.{
  mp_cache_init_impl, fit_items, bitmap_size_of, mp_cache_reserve, align,
}
use v_perf_generator.MemPool.Slab.Layout.{mp_cache_init_impl-Fits}
use v_perf_generator.Common.{
  suc, ℕ, ℕ, ◌+◌, ◌*◌, ◌<◌, ◌≤◌, ◌≡◌, true, List, [], ◌∷◌, refl, arith, suc,
}
use v_perf_generator.Common.Int.{pos, negsuc, ◌-ℤ◌}

quiet : ℕ → List ℕ → List ℕ
quiet k bitmap = bitmap

-- 100 items of 81 bytes are one too many.
items_per_page : (mp_cache_init_impl 72 81).c_items_per_page ≡ 99
unfolding mp_cache_init_impl fit_items bitmap_size_of
items_per_page = refl

-- A reservation of two items in a page that has one succeeds.
reserve_too_many :
    mp_cache_reserve (record { address = 0; cp_free_items = pos 1; cp_bitmap = 0 ∷ [] }) 2
    ≡ (true, record { address = 0; cp_free_items = negsuc 0; cp_bitmap = 0 ∷ [] })
unfolding mp_cache_reserve ◌-ℤ◌
reserve_too_many = refl

align_full : align 64 ≡ 96
unfolding align
align_full = refl

bitmap_bytes : bitmap_size_of 101 ≡ 25
unfolding bitmap_size_of
bitmap_bytes = refl

mp_cache_init_impl-Fits_example :
    ((mp_cache_init_impl 72 81).c_first_item_off + (mp_cache_init_impl 72 81).c_items_per_page * 81
      ≤ 8192)
    × (8192
        < (mp_cache_init_impl 72 81).c_first_item_off
          + suc (mp_cache_init_impl 72 81).c_items_per_page * 81)
mp_cache_init_impl-Fits_example =
    mp_cache_init_impl-Fits 72 81 (omega arith) (rw bitmap_bytes (omega arith))
