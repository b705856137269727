-- ===== src/MemPool/Bitmap.antt =====
-- lib/libtscommon/src/mempool.c, the bitmaps: `mp_bitmap_find_one`, `mp_bitmap_find_region`,
-- `mp_bitmap_cell_alloc`, `mp_bitmap_alloc`, `mp_bitmap_alloc_cells`, `mp_bitmap_free` and
-- `mp_bitmap_free_cells`. A cell is a number below 2 ^ 32, a 1 for each item in use; `long` has 64
-- bits. An index of -1 is `none`.
pub mod FindOne
pub mod Region
pub mod Cell
pub mod Cells
pub mod CellsBound
pub mod AllocCells
pub mod Free
mod Tests
use Prim.Native.Nat.{bit_and, bit_or}
use v_perf_generator.Common.{
  ℕ, ℕ, zero, suc, ◌+◌, ◌-◌, ◌*◌, ◌/◌, ◌%◌, ◌^◌, Bool, List, [], ◌∷◌, Option, none, some, ltb, leb,
  ◌==◌, ◌&&◌, if◌then◌else◌, true, false, get_or, set, replicate,
}

abbrev pub mp_bitmap_bits : ℕ
mp_bitmap_bits = 32

abbrev pub mp_bitmap_busy : ℕ
mp_bitmap_busy = 0xFFFFFFFF

abbrev pub mp_max_retries : ℕ
mp_max_retries = 3

-- The number of ones, by sums of groups of three digits; the masks are octal in the source.
unfoldable pub mp_bitmap_bitcount : ℕ → ℕ
mp_bitmap_bitcount u =
    let count = u - bit_and (u / 2) 0xDB6DB6DB - bit_and (u / 4) 0x49249249 in
    bit_and (count + count / 8) 0xC71C71C7 % 63

-- `u = ~u`, then `(u & (-u)) - 1`
unfoldable pub mp_bitmap_find_one : ℕ → ℕ
unfolding mp_bitmap_bitcount
mp_bitmap_find_one u =
    let v = 2 ^ 64 - 1 - u in
    mp_bitmap_bitcount ((bit_and v ((2 ^ 64 - v) % 2 ^ 64) + (2 ^ 64 - 1)) % 2 ^ 64)

-- `MPREGMASK(num, bidx)` in a cell; `beyond` is `1 << 32`, which C leaves undefined.
unfoldable pub mp_reg_mask : ℕ → ℕ → ℕ → ℕ
mp_reg_mask beyond num bidx =
    let shifted = if ltb num mp_bitmap_bits then 2 ^ num else beyond in
    ((if shifted == 0 then mp_bitmap_busy else shifted - 1) * 2 ^ bidx) % 2 ^ 32

-- The loop of `mp_bitmap_find_region`; `u` stays as it is in it. It has at most 32 rounds.
unfoldable pub find_region_from : ℕ → ℕ → ℕ → ℕ → ℕ → Option ℕ
unfolding mp_bitmap_find_one mp_reg_mask
find_region_from beyond zero i u num = none
find_region_from beyond (suc fuel) i u num =
    let bidx = mp_bitmap_find_one u in
    let again = find_region_from beyond fuel (i + bidx + 1) u num in
    if ltb i (mp_bitmap_bits - num)
    then if bit_and u (mp_reg_mask beyond num bidx) == 0 then some bidx else again
    else none

unfoldable pub mp_bitmap_find_region : ℕ → ℕ → ℕ → Option ℕ
unfolding find_region_from
mp_bitmap_find_region beyond u num = find_region_from beyond mp_bitmap_bits 0 u num

-- The index in a cell that is not busy, and the mask of its items.
unfoldable pub find_items : ℕ → ℕ → ℕ → Option ℕ × ℕ
unfolding mp_bitmap_find_region
find_items beyond bval num =
    let region = mp_bitmap_find_region beyond bval num in
    if num == 1
    then (some (mp_bitmap_find_one bval), 2 ^ mp_bitmap_find_one bval % 2 ^ 32)
    else if num == mp_bitmap_bits
    then (if bval == 0 then some 0 else none, mp_bitmap_busy)
    else (region, elim region [ none ↦ 0 | some bidx ↦ mp_reg_mask beyond num bidx ])

-- `(bidx + num) > max_items`
unfoldable pub within : ℕ → ℕ → Option ℕ → Option ℕ
within num max_items none = none
within num max_items (some bidx) = if ltb max_items (bidx + num) then none else some bidx

-- The index and the cell. Between the exchange and `atomic_and` others can only clear bits of the
-- busy cell: `kept` is what it holds by then.
unfoldable pub mp_bitmap_cell_alloc : ℕ → ℕ → ℕ → ℕ → ℕ → Option ℕ × ℕ
unfolding find_items within
mp_bitmap_cell_alloc beyond cell kept num max_items =
    let (found, mask) = find_items beyond cell num in
    let bidx = within num max_items found in
    if cell == mp_bitmap_busy
    then (none, kept)
    else (bidx, bit_and kept (elim bidx [ none ↦ cell | some b ↦ bit_or cell mask ]))

-- The loop over the cells, from the `i`-th on.
unfoldable pub try_cells : ℕ → ℕ → ℕ → ℕ → ℕ → List ℕ → Option ℕ × List ℕ
unfolding mp_bitmap_cell_alloc
try_cells beyond num_cells last_items alloc_items i [] = (none, [])
try_cells beyond num_cells last_items alloc_items i (cell ∷ cells) =
    let items = if i == num_cells - 1 then last_items else mp_bitmap_bits in
    let (bidx, cell') = mp_bitmap_cell_alloc beyond cell mp_bitmap_busy alloc_items items in
    let (idx, cells') = try_cells beyond num_cells last_items alloc_items (i + 1) cells in
    elim bidx [
      | some b ↦ (some (i * mp_bitmap_bits + b), cell' ∷ cells)
      | none ↦ (idx, cell' ∷ cells')
    ]

-- The rounds that are left; `others` is what other threads make of the bitmap in the sleep after
-- a round.
unfoldable pub try_rounds : ℕ → (ℕ → List ℕ → List ℕ) → ℕ → ℕ → ℕ → ℕ → List ℕ → Option ℕ × List ℕ
unfolding try_cells
try_rounds beyond others num_cells last_items alloc_items zero cells = (none, cells)
try_rounds beyond others num_cells last_items alloc_items (suc retries) cells =
    let (idx, cells') = try_cells beyond num_cells last_items alloc_items 0 cells in
    let rest =
      try_rounds beyond others num_cells last_items alloc_items retries (others retries cells') in
    elim idx [ some k ↦ (some k, cells') | none ↦ rest ]

-- A bitmap is the list of its `num_cells` cells.
unfoldable pub mp_bitmap_alloc : ℕ → (ℕ → List ℕ → List ℕ) → ℕ → ℕ → List ℕ → Option ℕ × List ℕ
unfolding try_rounds
mp_bitmap_alloc beyond others num_items alloc_items bitmap =
    let left = num_items % mp_bitmap_bits in
    let num_cells = num_items / mp_bitmap_bits + (if left == 0 then 0 else 1) in
    let last_items = if left == 0 then mp_bitmap_bits else left in
    try_rounds beyond others num_cells last_items alloc_items mp_max_retries bitmap

-- `mp_bitmap_free`: the items' bits are cleared.
unfoldable pub mp_bitmap_free : ℕ → List ℕ → ℕ → ℕ → List ℕ
unfolding mp_reg_mask
mp_bitmap_free beyond bitmap num idx =
    let i = idx / mp_bitmap_bits in
    let mask = mp_reg_mask beyond num (idx % mp_bitmap_bits) in
    set bitmap i (bit_and (get_or bitmap i 0) (mp_bitmap_busy - mask))

-- `mp_bitmap_free_cells`: `idx` is divided and then never used.
unfoldable pub mp_bitmap_free_cells : List ℕ → ℕ → ℕ → List ℕ
mp_bitmap_free_cells [] num idx = []
mp_bitmap_free_cells (cell ∷ cells) num idx =
    if ltb num mp_bitmap_bits
    then cell ∷ cells
    else 0 ∷ mp_bitmap_free_cells cells (num - mp_bitmap_bits) idx
