-- ===== src/MemPool/Bitmap/Cell.antt =====
-- `mp_bitmap_cell_alloc`: what is found is free, and nothing else is taken.
use Prim.Native.Nat.{bit_and, bit_or}
use v_perf_generator.Common.{
  subst, subst, ℕ, ap, ℕ, ◌+◌, ◌-◌, ◌*◌, ◌%◌, ◌^◌, ◌≤◌, ◌<◌, ◌≡◌, ◌⊎◌, sym, ◌∙◌, arith, ◌==◌,
  if◌then◌else◌, false, Bool-cases, Option-cases, inl, inr, some, none, Option, ==_iff,
}
use v_perf_generator.Common.Bits.{
  bit, bit-bit_or, bit_zero, bit_ones, bit_le, bit_and_ones, bit_or_lt,
}
use v_perf_generator.MemPool.Bitmap.{
  mp_reg_mask, mp_bitmap_find_one, mp_bitmap_find_region, find_items, within, mp_bitmap_cell_alloc,
  mp_bitmap_bits, mp_bitmap_busy,
}
use v_perf_generator.MemPool.Bitmap.FindOne.{first_zero, bit-first_zero, mp_bitmap_find_one_lem}
use v_perf_generator.MemPool.Bitmap.Region.{
  inside, bit-mask, bit-mp_reg_mask, bit_of_apart, mp_bitmap_find_region-some,
}

-- Of item `i`: a mask has its bit exactly for the `num` items from `b` on, which are free.
abbrev Items : ℕ → ℕ → ℕ → ℕ → ℕ → Type 0
Items cell num b mask i =
    (bit mask i ≡ (if inside b num i then 1 else 0)) × ((inside b num i ≡ false) ⊎ (bit cell i ≡ 0))

module _ (beyond cell i : ℕ) (free : cell < 2 ^ 32 - 1) where
  one_item : (b : ℕ) → b ≡ mp_bitmap_find_one cell → b + 1 ≤ 32 → Items cell 1 b (2 ^ b % 2 ^ 32) i
  one_item b e le =
      let place : b ≡ first_zero 32 cell = e ∙ mp_bitmap_find_one_lem cell free in
      let clear : bit cell b ≡ 0 = rw place (bit-first_zero 32 cell free) in
      let once : (2 ^ 1 - 1) * 2 ^ b ≡ 2 ^ b = omega arith in
      (
        ap (λ x. bit (x % 2 ^ 32) i) (sym once) ∙ bit-mask 1 b i (omega arith),
        elim (Bool-cases (inside b 1 i)) [
          | inl here ↦ let same : i ≡ b = ground arith in inr (rw same clear)
          | inr other ↦ inl other
        ],
      )

  whole_cell : cell ≡ 0 → i < 32 → Items cell 32 0 mp_bitmap_busy i
  whole_cell e lt = (bit_ones 32 i ∙ ground arith, inr (rw e (bit_zero i)))

  region-Items :
      (num b : ℕ)
      → num < 32
      → b + num ≤ 32
      → mp_bitmap_find_region beyond cell num ≡ some b
      → Items cell num b (mp_reg_mask beyond num b) i
  region-Items num b lt le e =
      let mask = bit-mp_reg_mask beyond num b i lt (omega arith) in
      (
        mask,
        elim (Bool-cases (inside b num i)) [
          | inl here ↦
              let one : bit (mp_reg_mask beyond num b) i ≡ 1 = ground (arith, mask) in
              inr (
                bit_of_apart cell (mp_reg_mask beyond num b) i
                  (mp_bitmap_find_region-some beyond cell num b e).1 one)
          | inr other ↦ inl other
        ],
      )

  find_items-Items :
      (num b mask : ℕ)
      → num ≤ 32
      → i < 32
      → find_items beyond cell num ≡ (some b, mask)
      → b + num ≤ 32
      → Items cell num b mask i
  unfolding find_items
  find_items-Items num b mask small lt e le =
      let region = mp_bitmap_find_region beyond cell num in
      elim (Bool-cases (num == 1)) [
        | inl one ↦
            let e' = rw one at e in
            let is_one : 1 ≡ num = sym ((==_iff num 1).0 one) in
            let at_b : b ≡ mp_bitmap_find_one cell = ground (arith, e') in
            let the_mask : 2 ^ b % 2 ^ 32 ≡ mask = rw at_b (ap (λ p. p.1) e') in
            subst (λ n. Items cell n b mask i) is_one
              (subst (λ m. Items cell 1 b m i) the_mask (one_item b at_b (omega arith)))
        | inr several ↦ elim (Bool-cases (num == mp_bitmap_bits)) [
          | inl all ↦
              let e' = rw (several, all) at e in
              let is_all : 32 ≡ num = sym ((==_iff num 32).0 all) in
              elim (Bool-cases (cell == 0)) [
                | inl clear ↦
                    let e'' = rw clear at e' in
                    let at_b : 0 ≡ b = ground (arith, e'') in
                    let the_mask : mp_bitmap_busy ≡ mask = ap (λ p. p.1) e'' in
                    subst (λ n. Items cell n b mask i) is_all
                      (subst (λ m. Items cell 32 b m i) the_mask
                        (subst (λ x. Items cell 32 x mp_bitmap_busy i) at_b
                          (whole_cell ((==_iff cell 0).0 clear) lt)))
                | inr used ↦ absurd (ground (arith, ap (λ p. p.0) (rw used at e')))
              ]
          | inr part ↦
              let e' = rw (several, part) at e in
              let found : region ≡ some b = ap (λ p. p.0) e' in
              let the_mask : mp_reg_mask beyond num b ≡ mask = rw found at (ap (λ p. p.1) e') in
              subst (λ m. Items cell num b m i) the_mask
                (region-Items num b (ground arith) le found)
        ]
      ]

mask_lt : (beyond cell num : ℕ) → (find_items beyond cell num).1 < 2 ^ 32
unfolding find_items mp_reg_mask
mask_lt beyond cell num = elim (Option-cases (mp_bitmap_find_region beyond cell num)) [
  | inl nothing ↦ ground (arith, nothing)
  | inr (b, found) ↦ ground (arith, found)
]

-- The outcome for a cell and its item `i`: nothing is taken and the cell is as it was; or `num`
-- items from the index on, which lie below `max_items`, were free and are in use, and every other
-- item is as it was.
abbrev pub CellAllocated : ℕ → ℕ → ℕ → ℕ → Option ℕ × ℕ → Type 0
CellAllocated num max_items cell i (none, cell') = cell' ≡ cell
CellAllocated num max_items cell i (some b, cell') =
    (b + num ≤ max_items)
    × ((inside b num i ≡ false) ⊎ (bit cell i ≡ 0))
    × (bit cell' i ≡ (if inside b num i then 1 else bit cell i))
    × (cell' < 2 ^ 32)

within-some :
    (num max_items b : ℕ) (o : Option ℕ)
    → within num max_items o ≡ some b
    → (o ≡ some b) × (b + num ≤ max_items)
unfolding within
within-some num max_items b none e = absurd (cc)
within-some num max_items b (some x) e = ground arith

module _ (beyond cell num max_items i : ℕ) where
  taken :
      (b : ℕ)
      → cell < 2 ^ 32 - 1
      → num ≤ 32
      → max_items ≤ 32
      → i < 32
      → within num max_items (find_items beyond cell num).0 ≡ some b
      → CellAllocated num max_items cell i
          (some b, bit_and mp_bitmap_busy (bit_or cell (find_items beyond cell num).1))
  taken b free small few lt e =
      let mask = (find_items beyond cell num).1 in
      let found = within-some num max_items b (find_items beyond cell num).0 e in
      let both : find_items beyond cell num ≡ (some b, mask) = λ j. (found.0 j, mask) in
      let items =
        find_items-Items beyond cell i free num b mask small lt both (omega (arith, found.1)) in
      let fits = bit_or_lt 32 cell mask (omega arith) (mask_lt beyond cell num) in
      let new : bit_and mp_bitmap_busy (bit_or cell mask) ≡ bit_or cell mask =
        bit_and_ones 32 (bit_or cell mask) fits in
      (
        found.1,
        items.1,
        ap (λ x. bit x i) new ∙ ground (arith, bit-bit_or cell mask i, items, bit_le cell i),
        omega (arith, new, fits),
      )

  -- An allocation of up to 32 items in a cell that no other thread uses meanwhile: it fails and
  -- leaves the cell as it was; or it takes `num` items that were free and lie below `max_items`,
  -- whatever C makes of a shift by 32, and changes no other item. This holds of each item `i`.
  pub mp_bitmap_cell_alloc-CellAllocated :
      cell < 2 ^ 32
      → num ≤ 32
      → max_items ≤ 32
      → i < 32
      → CellAllocated num max_items cell i
          (mp_bitmap_cell_alloc beyond cell mp_bitmap_busy num max_items)
  unfolding mp_bitmap_cell_alloc
  mp_bitmap_cell_alloc-CellAllocated bound small few lt =
      elim (Bool-cases (cell == mp_bitmap_busy)) [
        | inl busy ↦ rw busy (sym ((==_iff cell mp_bitmap_busy).0 busy))
        | inr free ↦ elim (Option-cases (within num max_items (find_items beyond cell num).0)) [
          | inl nothing ↦ rw (free, nothing) (bit_and_ones 32 cell bound)
          | inr (b, found) ↦ rw (free, found) (taken b (ground (arith, free)) small few lt found)
        ]
      ]
