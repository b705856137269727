-- ===== src/MemPool/Bitmap/AllocCells.antt =====
-- lib/libtscommon/src/mempool.c, `mp_bitmap_alloc_cells`: the allocation of whole cells in a row.
use v_perf_generator.Common.{
  ◌∙◌, inr, inl, ap, ◌^◌, Bool-cases, ==_of_ne, set, ℕ, zero, suc, ◌+◌, ◌-◌, ◌*◌, ◌/◌, ◌≤◌, ◌<◌,
  ◌≡◌, ◌≢◌, refl, arith, ◌==◌, if◌then◌else◌, false, some, none, Option, List, [], ◌∷◌, get_or, set,
}
use v_perf_generator.MemPool.Bitmap.{
  mp_bitmap_cell_alloc, mp_bitmap_bits, mp_bitmap_busy, mp_max_retries,
}
use v_perf_generator.Common.Bits.{bit_and_ones}

-- The variables of the loops; `bitmap` are the cells.
pub record CellRun : Type 0 where
  pub bitmap : List ℕ
  pub first_cell : Option ℕ
  pub allocated_cells : ℕ

-- `atomic_set(bitmap + j, 0l)` for `n` cells from `j` on.
unfoldable pub clear_cells : List ℕ → ℕ → ℕ → List ℕ
clear_cells bitmap j zero = bitmap
clear_cells bitmap j (suc n) = clear_cells (set bitmap j 0) (j + 1) n

-- Cell `i` has been taken as a whole, or not. `some` is the result.
unfoldable pub cell_taken : ℕ → ℕ → CellRun → Option ℕ × CellRun
cell_taken alloc_cells i run = elim run.first_cell [
  | none ↦ (none, record run { first_cell = some i })
  | some first ↦ (
    if run.allocated_cells + 1 == alloc_cells then some (first * mp_bitmap_bits) else none,
    record run { allocated_cells = run.allocated_cells + 1 },
  )
]

unfoldable pub cell_refused : ℕ → CellRun → CellRun
unfolding clear_cells
cell_refused i run = elim run.first_cell [
  | none ↦ run
  | some first ↦ record {
    bitmap = clear_cells run.bitmap first (i + 1 - first);
    first_cell = none;
    allocated_cells = 0;
  }
]

unfoldable pub after_cell : ℕ → ℕ → CellRun → Option ℕ × ℕ → Option ℕ × CellRun
unfolding cell_taken cell_refused
after_cell alloc_cells i run (bidx, cell) =
    let run' = record run { bitmap = set run.bitmap i cell } in
    elim bidx [ some b ↦ cell_taken alloc_cells i run' | none ↦ (none, cell_refused i run') ]

unfoldable pub cell_step : ℕ → ℕ → ℕ → CellRun → Option ℕ × CellRun
unfolding after_cell
cell_step beyond alloc_cells i run = after_cell alloc_cells i run (
    mp_bitmap_cell_alloc beyond (get_or run.bitmap i 0) mp_bitmap_busy mp_bitmap_bits
      mp_bitmap_bits)

-- The loop over the cells from `i` on, `left` of them.
unfoldable pub cells_pass : ℕ → ℕ → ℕ → ℕ → CellRun → Option ℕ × CellRun
unfolding cell_step
cells_pass beyond alloc_cells zero i run = (none, run)
cells_pass beyond alloc_cells (suc left) i run =
    let (done, run') = cell_step beyond alloc_cells i run in
    let rest = cells_pass beyond alloc_cells left (i + 1) run' in
    elim done [ some idx ↦ (some idx, run') | none ↦ rest ]

-- The rounds: a run of cells that is open at the end of one goes on in the next.
unfoldable pub cells_rounds : ℕ → ℕ → ℕ → ℕ → CellRun → Option ℕ × CellRun
unfolding cells_pass
cells_rounds beyond alloc_cells num_cells zero run = (none, run)
cells_rounds beyond alloc_cells num_cells (suc retries) run =
    let (done, run') = cells_pass beyond alloc_cells num_cells 0 run in
    let rest = cells_rounds beyond alloc_cells num_cells retries run' in
    elim done [ some idx ↦ (some idx, run') | none ↦ rest ]

-- The bitmap has no other user meanwhile.
unfoldable pub mp_bitmap_alloc_cells : ℕ → ℕ → ℕ → List ℕ → Option ℕ × List ℕ
unfolding cells_rounds
mp_bitmap_alloc_cells beyond num_items alloc_cells bitmap =
    let (idx, run) =
      cells_rounds beyond alloc_cells (num_items / mp_bitmap_bits) mp_max_retries
        (record { bitmap = bitmap; first_cell = none; allocated_cells = 0 }) in
    (idx, run.bitmap)

module _ (beyond : ℕ) where
  free_cell :
      mp_bitmap_cell_alloc beyond 0 mp_bitmap_busy mp_bitmap_bits mp_bitmap_bits
      ≡ (some 0, mp_bitmap_busy)
  unfolding mp_bitmap_cell_alloc
  free_cell = refl

  busy_cell :
      mp_bitmap_cell_alloc beyond mp_bitmap_busy mp_bitmap_busy mp_bitmap_bits mp_bitmap_bits
      ≡ (none, mp_bitmap_busy)
  unfolding mp_bitmap_cell_alloc
  busy_cell = refl

  used_cell :
      (cell : ℕ)
      → cell ≢ 0
      → cell < 2 ^ 32
      → mp_bitmap_cell_alloc beyond cell mp_bitmap_busy mp_bitmap_bits mp_bitmap_bits ≡ (none, cell)
  unfolding mp_bitmap_cell_alloc
  used_cell cell used bound =
      let same = bit_and_ones 32 cell bound in
      let nonzero : (cell == 0) ≡ false = ==_of_ne cell 0 used in
      elim (Bool-cases (cell == mp_bitmap_busy)) [
        | inl busy ↦ ground (arith, busy)
        | inr free ↦ rw (free, nonzero) (ap (λ c. (none, c)) same)
      ]

  -- A step that does not end the loop, and a pass over two cells made of two.
  pass_on :
      (alloc_cells left i : ℕ) (run run' : CellRun)
      → cell_step beyond alloc_cells i run ≡ (none, run')
      → cells_pass beyond alloc_cells (suc left) i run
        ≡ cells_pass beyond alloc_cells left (i + 1) run'
  unfolding cells_pass
  pass_on alloc_cells left i run run' e =
      ap
        (λ (r : Option ℕ × CellRun). elim r.0 [
          | some idx ↦ (some idx, r.1)
          | none ↦ cells_pass beyond alloc_cells left (i + 1) r.1
        ])
        e

  pass_two :
      (alloc_cells : ℕ) (run run' run'' : CellRun)
      → cell_step beyond alloc_cells 0 run ≡ (none, run')
      → cell_step beyond alloc_cells 1 run' ≡ (none, run'')
      → cells_pass beyond alloc_cells 2 0 run ≡ (none, run'')
  unfolding cells_pass
  pass_two alloc_cells run run' run'' e e' =
      pass_on alloc_cells 1 0 run run' e ∙ pass_on alloc_cells 0 1 run' run'' e'

  round_on :
      (alloc_cells retries : ℕ) (run run' : CellRun)
      → cells_pass beyond alloc_cells 2 0 run ≡ (none, run')
      → cells_rounds beyond alloc_cells 2 (suc retries) run
        ≡ cells_rounds beyond alloc_cells 2 retries run'
  unfolding cells_rounds
  round_on alloc_cells retries run run' e =
      ap
        (λ (r : Option ℕ × CellRun). elim r.0 [
          | some idx ↦ (some idx, r.1)
          | none ↦ cells_rounds beyond alloc_cells 2 retries r.1
        ])
        e

  abbrev two_cells : ℕ → ℕ → Option ℕ → ℕ → CellRun
  two_cells a b first count = record {
    bitmap = a ∷ b ∷ [];
    first_cell = first;
    allocated_cells = count;
  }

  module _ (cell alloc_cells : ℕ) (used : cell ≢ 0) (bound : cell < 2 ^ 32)
      (two : 2 ≤ alloc_cells) where
    first_round :
        cells_pass beyond alloc_cells 2 0 (two_cells 0 cell none 0) ≡ (none, two_cells 0 0 none 0)
    unfolding cell_step
    first_round =
        pass_two alloc_cells _ (two_cells mp_bitmap_busy cell (some 0) 0) _
          (ap (after_cell alloc_cells 0 (two_cells 0 cell none 0)) free_cell)
          (ap (after_cell alloc_cells 1 (two_cells mp_bitmap_busy cell (some 0) 0))
            (used_cell cell used bound))

    second_round :
        cells_pass beyond alloc_cells 2 0 (two_cells 0 0 none 0)
        ≡ (none, two_cells mp_bitmap_busy mp_bitmap_busy (some 0) 1)
    unfolding cell_step
    second_round =
        pass_two alloc_cells _ (two_cells mp_bitmap_busy 0 (some 0) 0) _
          (ap (after_cell alloc_cells 0 (two_cells 0 0 none 0)) free_cell)
          (ap (after_cell alloc_cells 1 (two_cells mp_bitmap_busy 0 (some 0) 0)) free_cell
            ∙ rw (==_of_ne 1 alloc_cells (omega arith)) refl)

    third_round :
        cells_pass beyond alloc_cells 2 0 (two_cells mp_bitmap_busy mp_bitmap_busy (some 0) 1)
        ≡ (none, two_cells 0 mp_bitmap_busy none 0)
    unfolding cell_step
    third_round =
        pass_two alloc_cells _ (two_cells 0 mp_bitmap_busy none 0) _
          (ap (after_cell alloc_cells 0 (two_cells mp_bitmap_busy mp_bitmap_busy (some 0) 1))
            busy_cell)
          (ap (after_cell alloc_cells 1 (two_cells 0 mp_bitmap_busy none 0)) busy_cell)

    -- mp_bitmap_alloc_cells hurts a neighbour: asked for two cells or more in a bitmap of two whose
    -- second is in use and whose first is free, it finds nothing, and leaves the second cell, which
    -- it does not own, entirely taken, so that the items that were free in it are lost.
    pub mp_bitmap_alloc_cells_neighbour :
        mp_bitmap_alloc_cells beyond 64 alloc_cells (0 ∷ cell ∷ [])
        ≡ (none, 0 ∷ mp_bitmap_busy ∷ [])
    unfolding mp_bitmap_alloc_cells
    mp_bitmap_alloc_cells_neighbour =
        let start = two_cells 0 cell none 0 in
        let second = two_cells 0 0 none 0 in
        let third = two_cells mp_bitmap_busy mp_bitmap_busy (some 0) 1 in
        let last = two_cells 0 mp_bitmap_busy none 0 in
        ap (λ (r : Option ℕ × CellRun). (r.0, r.1.bitmap))
          (round_on alloc_cells 2 start second first_round
            ∙ (round_on alloc_cells 1 second third second_round
                ∙ round_on alloc_cells 0 third last third_round))
