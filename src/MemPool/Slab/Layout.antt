-- ===== src/MemPool/Slab/Layout.antt =====
-- lib/libtscommon/src/mempool.c, `mp_cache_init_impl`: how a SLAB page is laid out.
use v_perf_generator.MemPool.Bitmap.{mp_bitmap_bits}
use v_perf_generator.MemPool.Slab.{
  mp_cache_page_size, sizeof_atomic, fit_items, bitmap_size_of, bitmap_cells_of, mp_cache_init_impl,
  mp_cache_page_alloc,
}
use v_perf_generator.Common.{
  ℕ, zero, suc, ◌+◌, ◌-◌, ◌*◌, ◌/◌, ltb, ◌<◌, ◌≤◌, ◌≡◌, Bool-cases, inl, inr, arith, length,
  length-replicate,
}
use native.Mathlib.Nat.{lt-mul-div-succ}

-- The most items, up to `items`, that fit.
abbrev Fitted : ℕ → ℕ → ℕ → ℕ → Type 0
Fitted item_size room items n = (n * item_size ≤ room) × (n ≤ items)

fit_items-Fitted :
    (item_size svc_size items : ℕ)
    → Fitted item_size (mp_cache_page_size - svc_size) items (fit_items item_size svc_size items)
unfolding fit_items
fit_items-Fitted item_size svc_size zero = (ground arith, ground arith)
fit_items-Fitted item_size svc_size (suc items) =
    let (fits, few) = fit_items-Fitted item_size svc_size items in
    elim (Bool-cases (ltb (mp_cache_page_size - svc_size) (suc items * item_size))) [
      | inl over ↦ rw over (fits, ground arith)
      | inr ok ↦ rw ok (ground (arith, ok), ground arith)
    ]

fit_items-most :
    (item_size svc_size items : ℕ)
    → fit_items item_size svc_size items < items
    → mp_cache_page_size - svc_size < suc (fit_items item_size svc_size items) * item_size
unfolding fit_items
fit_items-most item_size svc_size zero less = absurd (ground arith)
fit_items-most item_size svc_size (suc items) less =
    let few = (fit_items-Fitted item_size svc_size items).1 in
    elim (Bool-cases (ltb (mp_cache_page_size - svc_size) (suc items * item_size))) [
      | inr ok ↦ absurd (ground (arith, rw ok at less))
      | inl over ↦ rw over (elim (Bool-cases (ltb (fit_items item_size svc_size items) items)) [
        | inl below ↦ fit_items-most item_size svc_size items (ground (arith, below))
        | inr full ↦
            let all : fit_items item_size svc_size items ≡ items = ground (arith, full) in
            rw all (ground (arith, over))
      ])
    ]

div-most : (n d : ℕ) → 0 < d → n < suc (n / d) * d
div-most n d some_d = omega (arith, lt-mul-div-succ n some_d)

bitmap_size_of-short :
    (items kept : ℕ)
    → mp_bitmap_bits < items
    → items / mp_bitmap_bits * mp_bitmap_bits < kept
    → bitmap_size_of items < sizeof_atomic * bitmap_cells_of kept
unfolding bitmap_size_of bitmap_cells_of
bitmap_size_of-short items kept many more = ground arith

-- The items of a SLAB page, which start behind the page's header and the bytes that the cache sets
-- aside for the bitmap, fewer than the bitmap may need, end before the page does; and they are as many
-- as can: with one more they would end behind it. This is so where items have a size and the header
-- and the bytes set aside fit in a page.
pub mp_cache_init_impl-Fits :
    (sizeof_page item_size : ℕ)
    → 0 < item_size
    → sizeof_page + bitmap_size_of (mp_cache_page_size / item_size) ≤ mp_cache_page_size
    → ((mp_cache_init_impl sizeof_page item_size).c_first_item_off
          + (mp_cache_init_impl sizeof_page item_size).c_items_per_page * item_size
        ≤ mp_cache_page_size)
      × (mp_cache_page_size
          < (mp_cache_init_impl sizeof_page item_size).c_first_item_off
            + suc (mp_cache_init_impl sizeof_page item_size).c_items_per_page * item_size)
unfolding mp_cache_init_impl
mp_cache_init_impl-Fits sizeof_page item_size some_size room =
    let items = mp_cache_page_size / item_size in
    let svc = sizeof_page + bitmap_size_of items in
    let fit = fit_items item_size svc items in
    let (fits, few) = fit_items-Fitted item_size svc items in
    (
      omega arith,
      elim (Bool-cases (ltb fit items)) [
        | inl below ↦
            let most = fit_items-most item_size svc items (ground (arith, below)) in omega arith
        | inr full ↦
            let all : fit ≡ items = ground (arith, full) in
            let most = div-most mp_cache_page_size item_size some_size in rw all (omega arith)
      ],
    )

-- The bitmap of a SLAB page whose cache has more than 32 items in a page, not a multiple of 32, and
-- keeps more than the whole cells hold, ends behind the start of the first item: the size of the
-- bitmap is rounded down, and its number of cells up.
pub mp_cache_page_alloc_overlaps :
    (sizeof_page item_size raw_page : ℕ)
    → mp_bitmap_bits < mp_cache_page_size / item_size
    → mp_cache_page_size / item_size / mp_bitmap_bits * mp_bitmap_bits
      < (mp_cache_init_impl sizeof_page item_size).c_items_per_page
    → (mp_cache_init_impl sizeof_page item_size).c_first_item_off
      < sizeof_page
        + sizeof_atomic
          * length
              (mp_cache_page_alloc raw_page (mp_cache_init_impl sizeof_page item_size)).cp_bitmap
unfolding mp_cache_page_alloc mp_cache_init_impl
mp_cache_page_alloc_overlaps sizeof_page item_size raw_page many kept =
    let items = mp_cache_page_size / item_size in
    let kept_items = (mp_cache_init_impl sizeof_page item_size).c_items_per_page in
    let cells = bitmap_cells_of kept_items in
    let size = bitmap_size_of-short items kept_items many kept in
    rw (length-replicate {A = ℕ} cells 0) (omega arith)
