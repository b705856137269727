-- ===== src/MemPool/Slab.antt =====
-- lib/libtscommon/src/mempool.c, the SLAB caches: `mp_cache_init_impl`, `mp_cache_page_alloc`,
-- `mp_cache_reserve`, `mp_cache_alloc_array` and `mp_cache_free_array`. Addresses are bytes from the
-- start of the segment; an `atomic_t` has 8 bytes.
pub mod Layout
mod Tests
use v_perf_generator.MemPool.Bitmap.{
  mp_bitmap_bits, mp_bitmap_alloc, mp_bitmap_free, mp_bitmap_free_cells,
}
use v_perf_generator.MemPool.Bitmap.AllocCells.{mp_bitmap_alloc_cells}
use v_perf_generator.Common.{
  ℕ, not, ℕ, zero, suc, ◌+◌, ◌-◌, ◌*◌, ◌/◌, ◌%◌, ltb, leb, ◌==◌, ◌&&◌, if◌then◌else◌, Bool, true,
  false, some, none, Option, List, [], ◌∷◌, replicate, not,
}
use v_perf_generator.Common.Int.{ℤ, pos, ltb_ℤ, ◌+ℤ◌, ◌-ℤ◌}

abbrev pub mp_cache_page_size : ℕ
mp_cache_page_size = 8192

abbrev pub sizeof_atomic : ℕ
sizeof_atomic = 8

-- `cp_free_items` can go below 0 for a while.
pub record SlabPage : Type 0 where
  pub address : ℕ
  pub cp_free_items : ℤ
  pub cp_bitmap : List ℕ

pub record Cache : Type 0 where
  pub c_page_list : List SlabPage
  pub c_item_size : ℕ
  pub c_items_per_page : ℕ
  pub c_first_item_off : ℕ

-- The loop that takes items off until they fit behind the `svc_size` bytes; it ends at 0 items, and
-- `items` counts its rounds.
unfoldable pub fit_items : ℕ → ℕ → ℕ → ℕ
fit_items item_size svc_size zero = zero
fit_items item_size svc_size (suc items) =
    let fewer = fit_items item_size svc_size items in
    if ltb (mp_cache_page_size - svc_size) (suc items * item_size) then fewer else suc items

unfoldable pub bitmap_size_of : ℕ → ℕ
bitmap_size_of items =
    let size = sizeof_atomic * items / mp_bitmap_bits in
    if ltb size sizeof_atomic then sizeof_atomic else size

-- `sizeof_page` is `sizeof(mp_cache_page_t)`.
unfoldable pub mp_cache_init_impl : ℕ → ℕ → Cache
unfolding fit_items bitmap_size_of
mp_cache_init_impl sizeof_page item_size =
    let items = mp_cache_page_size / item_size in
    let svc_size = sizeof_page + bitmap_size_of items in
    record {
      c_page_list = [];
      c_item_size = item_size;
      c_items_per_page = fit_items item_size svc_size items;
      c_first_item_off = svc_size;
    }

unfoldable pub bitmap_cells_of : ℕ → ℕ
bitmap_cells_of items = items / mp_bitmap_bits + (if items % mp_bitmap_bits == 0 then 0 else 1)

-- The thread that holds `c_page_lock`; the raw page comes from the fragment allocator.
unfoldable pub mp_cache_page_alloc : ℕ → Cache → SlabPage
unfolding bitmap_cells_of
mp_cache_page_alloc raw_page cache = record {
  address = raw_page;
  cp_free_items = pos cache.c_items_per_page;
  cp_bitmap = replicate (bitmap_cells_of cache.c_items_per_page) 0;
}

-- `atomic_sub` returns what was there before.
unfoldable pub mp_cache_reserve : SlabPage → ℕ → Bool × SlabPage
mp_cache_reserve page num =
    let old = page.cp_free_items in
    if ltb_ℤ old (pos 0)
    then (false, page)
    else (true, record page { cp_free_items = old -ℤ pos num })

-- `num` for an array of more than 32 items is made a multiple of 32.
unfoldable pub align : ℕ → ℕ
align num = if ltb mp_bitmap_bits num then num + (mp_bitmap_bits - num % mp_bitmap_bits) else num

unfoldable pub find_slots : ℕ → (ℕ → List ℕ → List ℕ) → ℕ → ℕ → List ℕ → Option ℕ × List ℕ
find_slots beyond others items num bitmap =
    if leb num mp_bitmap_bits
    then mp_bitmap_alloc beyond others items num bitmap
    else mp_bitmap_alloc_cells beyond items (num / mp_bitmap_bits) bitmap

-- The items in a page that has been reserved; else the reservation is taken back.
unfoldable pub take_slots : SlabPage → ℕ → Option ℕ × List ℕ → Option ℕ × SlabPage
take_slots page num (some idx, bitmap) = (some idx, record page { cp_bitmap = bitmap })
take_slots page num (none, bitmap) =
    (none, record page { cp_free_items = page.cp_free_items +ℤ pos num; cp_bitmap = bitmap })

unfoldable pub alloc_in_page : ℕ → (ℕ → List ℕ → List ℕ) → ℕ → ℕ → SlabPage → Option ℕ × SlabPage
unfolding mp_cache_reserve find_slots take_slots
alloc_in_page beyond others items num page =
    let (reserved, page') = mp_cache_reserve page num in
    if reserved
    then take_slots page' num (find_slots beyond others items num page'.cp_bitmap)
    else (none, page)

-- `MP_CACHE_ITEM`
unfoldable pub mp_cache_item : Cache → SlabPage → ℕ → ℕ
mp_cache_item cache page idx = page.address + cache.c_first_item_off + idx * cache.c_item_size

-- The pages behind the one tried last.
unfoldable pub try_slabs :
    ℕ → (ℕ → List ℕ → List ℕ) → Cache → ℕ → List SlabPage → Option ℕ × List SlabPage
unfolding alloc_in_page mp_cache_item
try_slabs beyond others cache num [] = (none, [])
try_slabs beyond others cache num (page ∷ pages) =
    let (idx, page') = alloc_in_page beyond others cache.c_items_per_page num page in
    let (item, pages') = try_slabs beyond others cache num pages in
    elim idx [
      | some k ↦ (some (mp_cache_item cache page k), page' ∷ pages)
      | none ↦ (item, page' ∷ pages')
    ]

-- `list_for_each_entry_continue` starts behind the first page.
unfoldable pub try_behind :
    ℕ → (ℕ → List ℕ → List ℕ) → Cache → ℕ → List SlabPage → Option ℕ × List SlabPage
unfolding try_slabs
try_behind beyond others cache num [] = (none, [])
try_behind beyond others cache num (page ∷ pages) =
    let (item, pages') = try_slabs beyond others cache num pages in (item, page ∷ pages')

-- The address of the array. `none` is the assertion that a page holds more than `num` items, or a
-- new page on which the array does not find room, where the source goes on with the pages behind it.
unfoldable pub mp_cache_alloc_array : ℕ → (ℕ → List ℕ → List ℕ) → ℕ → Cache → ℕ → Option (ℕ × Cache)
unfolding align try_behind mp_cache_page_alloc
mp_cache_alloc_array beyond others raw_page cache num =
    let count = align num in
    let (item, pages) = try_behind beyond others cache count cache.c_page_list in
    let fresh = mp_cache_page_alloc raw_page cache in
    let (idx, page) = alloc_in_page beyond others cache.c_items_per_page count fresh in
    if not (ltb count cache.c_items_per_page) then none else elim item [
      | some a ↦ some (a, record cache { c_page_list = pages })
      | none ↦ elim idx [
        | none ↦ none
        | some k ↦ some (mp_cache_item cache fresh k, record cache { c_page_list = page ∷ pages })
      ]
    ]

-- `MP_CACHE_ITEM_IN_PAGE`
unfoldable pub item_in_page : SlabPage → ℕ → Bool
item_in_page page ptr = ltb page.address ptr && ltb ptr (page.address + mp_cache_page_size)

unfoldable pub free_slots : ℕ → Cache → SlabPage → ℕ → ℕ → SlabPage
free_slots beyond cache page ptr num =
    let idx = (ptr - (page.address + cache.c_first_item_off)) / cache.c_item_size in
    record page {
      cp_free_items = page.cp_free_items +ℤ pos num;
      cp_bitmap =
          if leb num mp_bitmap_bits
          then mp_bitmap_free beyond page.cp_bitmap num idx
          else mp_bitmap_free_cells page.cp_bitmap (num / mp_bitmap_bits) idx;
    }

-- The first page that the array lies in; `none` is the assertion that there is one.
unfoldable pub free_in_slabs : ℕ → Cache → ℕ → ℕ → List SlabPage → Option (List SlabPage)
unfolding item_in_page free_slots
free_in_slabs beyond cache ptr num [] = none
free_in_slabs beyond cache ptr num (page ∷ pages) =
    let rest = free_in_slabs beyond cache ptr num pages in
    if item_in_page page ptr
    then some (free_slots beyond cache page ptr num ∷ pages)
    else elim rest [ none ↦ none | some pages' ↦ some (page ∷ pages') ]

unfoldable pub mp_cache_free_array : ℕ → Cache → ℕ → ℕ → Option Cache
unfolding align free_in_slabs
mp_cache_free_array beyond cache ptr num =
    elim (free_in_slabs beyond cache ptr (align num) cache.c_page_list) [
      | none ↦ none
      | some pages ↦ some (record cache { c_page_list = pages })
    ]
