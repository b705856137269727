-- ===== src/MemPool/Bitmap/Cells.antt =====
-- `mp_bitmap_alloc`: what one pass over the cells takes, and the allocation of its rounds.
use v_perf_generator.Common.{
  length, ℕ, zero, suc, ◌+◌, ◌-◌, ◌*◌, ◌/◌, ◌%◌, ◌^◌, ◌≤◌, ◌<◌, ◌≡◌, ◌⊎◌, refl, arith, ◌==◌,
  if◌then◌else◌, false, some, none, Option, List, [], ◌∷◌, All, get_or, length,
}
use v_perf_generator.Common.Bits.{bit}
use v_perf_generator.MemPool.Bitmap.{
  mp_bitmap_cell_alloc, mp_bitmap_bits, mp_bitmap_busy, try_cells, try_rounds, mp_bitmap_alloc,
}
use v_perf_generator.MemPool.Bitmap.Region.{inside}
use v_perf_generator.MemPool.Bitmap.Cell.{CellAllocated, mp_bitmap_cell_alloc-CellAllocated}

-- Item `b` of cell `j`.
abbrev pub item : List ℕ → ℕ → ℕ → ℕ
item cells j b = bit (get_or cells j 0) b

-- What a pass over `cells`, the first of which is cell `i`, does to item `b` of their `j`-th, with
-- `last` items in the last cell.
abbrev pub Passed : ℕ → ℕ → ℕ → List ℕ → ℕ → ℕ → Option ℕ × List ℕ → Type 0
Passed num last i cells j b (none, cells') = cells' ≡ cells
Passed num last i cells j b (some idx, cells') =
    (i * 32 ≤ idx)
    × (idx + num + 32 ≤ (i + length cells) * 32 + last)
    × (idx % 32 + num ≤ 32)
    × (length cells' ≡ length cells)
    × ((inside idx num ((i + j) * 32 + b) ≡ false) ⊎ (item cells j b ≡ 0))
    × (item cells' j b ≡ (if inside idx num ((i + j) * 32 + b) then 1 else item cells j b))

module _ (num last i cell : ℕ) (cells : List ℕ) (max_items cell' : ℕ) where
  Passed-here :
      (j b b0 : ℕ)
      → b < 32
      → (max_items + 32 ≤ length (cell ∷ cells) * 32 + last)
      → (max_items ≤ 32)
      → CellAllocated num max_items cell b (some b0, cell')
      → Passed num last i (cell ∷ cells) j b (some (i * 32 + b0), cell' ∷ cells)
  Passed-here zero b b0 lt room few (le, free, new, bound) =
      (omega arith, omega arith, omega arith, ground arith, ground arith, ground arith)
  Passed-here (suc j) b b0 lt room few (le, free, new, bound) =
      (omega arith, omega arith, omega arith, ground arith, ground arith, ground arith)

  Passed-later :
      (j b : ℕ) (r : Option ℕ × List ℕ)
      → b < 32
      → cell' ≡ cell
      → Passed num last (i + 1) cells (j - 1) b r
      → Passed num last i (cell ∷ cells) j b (r.0, cell' ∷ r.1)
  Passed-later j b (none, cells') lt same p = rw (same, p) refl
  Passed-later zero b (some idx, cells') lt same (low, room, one, same_length, free, new) =
      (omega arith, omega arith, omega arith, ground arith, ground arith, ground arith)
  Passed-later (suc j) b (some idx, cells') lt same (low, room, one, same_length, free, new) =
      (omega arith, omega arith, omega arith, ground arith, ground arith, ground arith)

Passed-step :
    (num last i cell : ℕ) (cells : List ℕ) (max_items j b : ℕ) (here : Option ℕ × ℕ)
    (rest : Option ℕ × List ℕ)
    → b < 32
    → max_items + 32 ≤ length (cell ∷ cells) * 32 + last
    → max_items ≤ 32
    → CellAllocated num max_items cell b here
    → Passed num last (i + 1) cells (j - 1) b rest
    → Passed num last i (cell ∷ cells) j b (elim here.0 [
      | some b0 ↦ (some (i * 32 + b0), here.1 ∷ cells)
      | none ↦ (rest.0, here.1 ∷ rest.1)
    ])
Passed-step num last i cell cells max_items j b (none, cell') rest lt room few p q =
    Passed-later num last i cell cells max_items cell' j b rest lt p q
Passed-step num last i cell cells max_items j b (some b0, cell') rest lt room few p q =
    Passed-here num last i cell cells max_items cell' j b b0 lt room few p

module _ (beyond num last num_cells : ℕ) (small : num ≤ 32) (few : last ≤ 32) where
  try_cells-Passed :
      (i : ℕ) (cells : List ℕ) (j b : ℕ)
      → All (λ c. c < 2 ^ 32) cells
      → num_cells ≡ i + length cells
      → b < 32
      → Passed num last i cells j b (try_cells beyond num_cells last num i cells)
  unfolding try_cells
  try_cells-Passed i [] j b bound e lt = refl
  try_cells-Passed i (cell ∷ cells) j b bound e lt =
      let items : ℕ = if i == num_cells - 1 then last else mp_bitmap_bits in
      let items_le : items ≤ 32 = ground arith in
      let items_room : items + 32 ≤ length (cell ∷ cells) * 32 + last = ground arith in
      Passed-step num last i cell cells items j b
        (mp_bitmap_cell_alloc beyond cell mp_bitmap_busy num items)
        (try_cells beyond num_cells last num (i + 1) cells) lt items_room items_le
        (mp_bitmap_cell_alloc-CellAllocated beyond cell num items b bound.0 small items_le lt)
        (try_cells-Passed (i + 1) cells (j - 1) b bound.1 (omega (arith, e)) lt)

Passed-of_rounds :
    (num last j b : ℕ) (cells : List ℕ) (r rest : Option ℕ × List ℕ)
    → Passed num last 0 cells j b r
    → (r.1 ≡ cells → Passed num last 0 cells j b rest)
    → Passed num last 0 cells j b (elim r.0 [ some k ↦ (some k, r.1) | none ↦ rest ])
Passed-of_rounds num last j b cells (none, cells') rest p q = q p
Passed-of_rounds num last j b cells (some k, cells') rest p q = p

-- The other threads of a bitmap that nobody else uses.
abbrev pub quiet : ℕ → List ℕ → List ℕ
quiet retries cells = cells

try_rounds-Passed :
    (beyond num last num_cells retries : ℕ) (cells : List ℕ) (j b : ℕ)
    → num ≤ 32
    → last ≤ 32
    → All (λ c. c < 2 ^ 32) cells
    → num_cells ≡ length cells
    → b < 32
    → Passed num last 0 cells j b (try_rounds beyond quiet num_cells last num retries cells)
unfolding try_rounds
try_rounds-Passed beyond num last num_cells zero cells j b small few bound e lt = refl
try_rounds-Passed beyond num last num_cells (suc retries) cells j b small few bound e lt =
    let first = try_cells beyond num_cells last num 0 cells in
    Passed-of_rounds num last j b cells first _
      (try_cells-Passed beyond num last num_cells small few 0 cells j b bound (omega (arith, e)) lt)
      (λ same.
        rw same
          (try_rounds-Passed beyond num last num_cells retries cells j b small few bound e lt))

-- The outcome of an allocation for item `b` of cell `j`: the bitmap is as it was, or the items from
-- the index on, all of them among the bitmap's, were free and are in use, and no other is changed.
abbrev pub BitmapAllocated : ℕ → ℕ → List ℕ → ℕ → ℕ → Option ℕ × List ℕ → Type 0
BitmapAllocated num num_items cells j b (none, cells') = cells' ≡ cells
BitmapAllocated num num_items cells j b (some idx, cells') =
    (idx + num ≤ num_items)
    × (idx % 32 + num ≤ 32)
    × (length cells' ≡ length cells)
    × ((inside idx num (j * 32 + b) ≡ false) ⊎ (item cells j b ≡ 0))
    × (item cells' j b ≡ (if inside idx num (j * 32 + b) then 1 else item cells j b))

BitmapAllocated-of_Passed :
    (num num_items last j b : ℕ) (cells : List ℕ) (r : Option ℕ × List ℕ)
    → num_items + 32 ≡ length cells * 32 + last
    → Passed num last 0 cells j b r
    → BitmapAllocated num num_items cells j b r
BitmapAllocated-of_Passed num num_items last j b cells (none, cells') e p = p
BitmapAllocated-of_Passed num num_items last j b cells (some idx, cells') e
      (low, room, one, same_length, free, new) =
    let place : (0 + j) * 32 + b ≡ j * 32 + b = omega arith in
    (omega (arith, room, e), one, same_length, rw place at free, rw place at new)

-- mp_bitmap_alloc of up to 32 items, in a bitmap of `num_items` that no other thread uses
-- meanwhile, either leaves it as it was or takes items that all were free, that all belong to the
-- bitmap, also in a last cell that is not full, and that lie in one cell; every other item keeps
-- its state. The statement is about item `b` of cell `j`.
pub mp_bitmap_alloc-BitmapAllocated :
    (beyond num num_items : ℕ) (cells : List ℕ) (j b : ℕ)
    → num ≤ 32
    → All (λ c. c < 2 ^ 32) cells
    → (num_items + 31) / 32 ≡ length cells
    → b < 32
    → BitmapAllocated num num_items cells j b (mp_bitmap_alloc beyond quiet num_items num cells)
unfolding mp_bitmap_alloc
mp_bitmap_alloc-BitmapAllocated beyond num num_items cells j b small bound e lt =
    let left = num_items % mp_bitmap_bits in
    let num_cells = num_items / mp_bitmap_bits + (if left == 0 then 0 else 1) in
    let last = if left == 0 then mp_bitmap_bits else left in
    let last_le : last ≤ 32 = ground arith in
    let count : num_cells ≡ length cells = ground arith in
    let total : num_items + 32 ≡ length cells * 32 + last = ground arith in
    BitmapAllocated-of_Passed num num_items last j b cells _ total
      (try_rounds-Passed beyond num last num_cells 3 cells j b small last_le bound count lt)
