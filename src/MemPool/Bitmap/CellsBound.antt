-- ===== src/MemPool/Bitmap/CellsBound.antt =====
-- The cells stay cells: numbers of 32 digits.
use v_perf_generator.Common.{
  ◌==◌, ◌/◌, ◌*◌, ◌%◌, ℕ, zero, suc, ◌+◌, ◌-◌, ◌^◌, ◌≤◌, ◌<◌, arith, if◌then◌else◌, some, none,
  Option, List, [], ◌∷◌, All, ◌==◌,
}
use v_perf_generator.MemPool.Bitmap.{
  mp_bitmap_cell_alloc, mp_bitmap_bits, mp_bitmap_busy, try_cells, try_rounds, mp_bitmap_alloc,
}
use v_perf_generator.MemPool.Bitmap.Cell.{CellAllocated, mp_bitmap_cell_alloc-CellAllocated}
use v_perf_generator.MemPool.Bitmap.Cells.{quiet}

bound_of_CellAllocated :
    (num max_items cell : ℕ) (r : Option ℕ × ℕ)
    → cell < 2 ^ 32
    → CellAllocated num max_items cell 0 r
    → r.1 < 2 ^ 32
bound_of_CellAllocated num max_items cell (none, cell') h e = omega (arith, e)
bound_of_CellAllocated num max_items cell (some b, cell') h e = e.3

bound_of_cells :
    (i cell : ℕ) (cells : List ℕ) (here : Option ℕ × ℕ) (rest : Option ℕ × List ℕ)
    → here.1 < 2 ^ 32
    → All (λ c. c < 2 ^ 32) cells
    → All (λ c. c < 2 ^ 32) rest.1
    → All
        (λ c. c < 2 ^ 32)
        (let r : Option ℕ × List ℕ = elim here.0 [
          | some b0 ↦ (some (i * 32 + b0), here.1 ∷ cells)
          | none ↦ (rest.0, here.1 ∷ rest.1)
        ] in
          r.1)
bound_of_cells i cell cells (none, c) rest h hs rs = (h, rs)
bound_of_cells i cell cells (some b0, c) rest h hs rs = (h, hs)

module _ (beyond num last num_cells : ℕ) (small : num ≤ 32) (few : last ≤ 32) where
  try_cells_bound :
      (i : ℕ) (cells : List ℕ)
      → All (λ c. c < 2 ^ 32) cells
      → All (λ c. c < 2 ^ 32) (try_cells beyond num_cells last num i cells).1
  unfolding try_cells
  try_cells_bound i [] h = tt
  try_cells_bound i (cell ∷ cells) h =
      let items : ℕ = if i == num_cells - 1 then last else mp_bitmap_bits in
      let items_le : items ≤ 32 = ground arith in
      bound_of_cells i cell cells (mp_bitmap_cell_alloc beyond cell mp_bitmap_busy num items)
        (try_cells beyond num_cells last num (i + 1) cells)
        (bound_of_CellAllocated num items cell _ h.0 (
          mp_bitmap_cell_alloc-CellAllocated beyond cell num items 0 h.0 small items_le
            (omega arith)))
        h.1 (try_cells_bound (i + 1) cells h.1)

  try_rounds_bound :
      (retries : ℕ) (cells : List ℕ)
      → All (λ c. c < 2 ^ 32) cells
      → All (λ c. c < 2 ^ 32) (try_rounds beyond quiet num_cells last num retries cells).1
  unfolding try_rounds
  try_rounds_bound zero cells h = h
  try_rounds_bound (suc retries) cells h =
      one_round (try_cells beyond num_cells last num 0 cells) _ (try_cells_bound 0 cells h) (
        try_rounds_bound retries (try_cells beyond num_cells last num 0 cells).1
          (try_cells_bound 0 cells h))
    where
      one_round :
          (r rest : Option ℕ × List ℕ)
          → All (λ c. c < 2 ^ 32) r.1
          → All (λ c. c < 2 ^ 32) rest.1
          → All
              (λ c. c < 2 ^ 32)
              (let s : Option ℕ × List ℕ = elim r.0 [ some k ↦ (some k, r.1) | none ↦ rest ] in s.1)
      one_round (none, cells') rest a b = b
      one_round (some k, cells') rest a b = a

pub mp_bitmap_alloc_bound :
    (beyond num num_items : ℕ) (cells : List ℕ)
    → num ≤ 32
    → All (λ c. c < 2 ^ 32) cells
    → All (λ c. c < 2 ^ 32) (mp_bitmap_alloc beyond quiet num_items num cells).1
unfolding mp_bitmap_alloc
mp_bitmap_alloc_bound beyond num num_items cells small h =
    let left = num_items % mp_bitmap_bits in
    let num_cells = num_items / mp_bitmap_bits + (if left == 0 then 0 else 1) in
    let last = if left == 0 then mp_bitmap_bits else left in
    try_rounds_bound beyond num last num_cells small (ground arith) 3 cells h
