-- ===== src/MemPool/Bitmap/Free.antt =====
-- `mp_bitmap_free`, and what it undoes.
use Prim.Native.Nat.{bit_and}
use v_perf_generator.Common.{
  subst, subst, ℕ, get_or-set_ne, ap, ℕ, zero, suc, ◌+◌, ◌-◌, ◌*◌, ◌/◌, ◌%◌, ◌^◌, ◌≤◌, ◌<◌, ◌≡◌,
  refl, sym, ◌∙◌, arith, ◌==◌, if◌then◌else◌, Bool-cases, inl, inr, some, ==_iff, List, [], ◌∷◌,
  All, get_or, set, length, get_or-set_self, get_or-set_ne,
}
use v_perf_generator.Common.Bits.{
  bit_and_comm, bit, bit-bit_and, bit_complement, bit_le, bit_and_ones,
}
use v_perf_generator.MemPool.Bitmap.{mp_reg_mask, mp_bitmap_busy, mp_bitmap_free, mp_bitmap_alloc}
use v_perf_generator.MemPool.Bitmap.Region.{inside, bit-mp_reg_mask}
use v_perf_generator.MemPool.Bitmap.Cells.{
  item, quiet, BitmapAllocated, mp_bitmap_alloc-BitmapAllocated,
}

mp_reg_mask_lt : (beyond num b : ℕ) → mp_reg_mask beyond num b < 2 ^ 32
unfolding mp_reg_mask
mp_reg_mask_lt beyond num b = omega arith

module _ (beyond cell num b0 b : ℕ) where
  cleared :
      num < 32
      → b0 + num ≤ 32
      → b < 32
      → bit (bit_and cell (mp_bitmap_busy - mp_reg_mask beyond num b0)) b
        ≡ (if inside b0 num b then 0 else bit cell b)
  cleared small fits lt = ground (
    arith,
    bit-bit_and cell (mp_bitmap_busy - mp_reg_mask beyond num b0) b,
    bit_complement 32 (mp_reg_mask beyond num b0) b (mp_reg_mask_lt beyond num b0) lt,
    bit-mp_reg_mask beyond num b0 b small (omega arith),
    bit_le cell b,
  )

set_self : (cells : List ℕ) (i : ℕ) → set cells i (get_or cells i 0) ≡ cells
set_self [] i = refl
set_self (c ∷ cells) zero = refl
set_self (c ∷ cells) (suc i) = ap (λ l. c ∷ l) (set_self cells i)

get_or_beyond : (cells : List ℕ) (i : ℕ) → length cells ≤ i → get_or cells i 0 ≡ 0
get_or_beyond [] i h = refl
get_or_beyond (c ∷ cells) zero h = absurd (omega arith)
get_or_beyond (c ∷ cells) (suc i) h = get_or_beyond cells i (omega arith)

-- Freeing up to 31 items that lie in one cell of a bitmap clears their bits and leaves every other
-- item as it was. The statement is about item `b` of cell `j`.
pub item-mp_bitmap_free :
    (beyond num idx : ℕ) (cells : List ℕ) (j b : ℕ)
    → num < 32
    → idx % 32 + num ≤ 32
    → idx / 32 < length cells
    → b < 32
    → item (mp_bitmap_free beyond cells num idx) j b
      ≡ (if inside idx num (j * 32 + b) then 0 else item cells j b)
unfolding mp_bitmap_free
item-mp_bitmap_free beyond num idx cells j b small fits inside_bitmap lt =
    elim (Bool-cases (idx / 32 == j)) [
      | inl here ↦
          let same : j ≡ idx / 32 = sym ((==_iff (idx / 32) j).0 here) in
          rw (same, get_or-set_self cells (idx / 32) _ 0 inside_bitmap)
            (cleared beyond (get_or cells (idx / 32) 0) num (idx % 32) b small fits lt
              ∙ ground arith)
      | inr other ↦ rw (get_or-set_ne cells (idx / 32) j _ 0 (ground (arith, other))) (ground arith)
    ]

All-get_or :
    (n : ℕ) (cells : List ℕ) (i : ℕ) → 0 < n → All (λ c. c < n) cells → get_or cells i 0 < n
All-get_or n [] i pos a = pos
All-get_or n (c ∷ cells) zero pos a = a.0
All-get_or n (c ∷ cells) (suc i) pos a = All-get_or n cells i pos a.1

-- Where `1 << 32` is 1, as the shift of x86 makes it, mp_bitmap_free of the 32 items of a whole cell
-- clears none of them: the bitmap stays as it was, whichever item it is called with.
pub mp_bitmap_free_page :
    (cells : List ℕ) (idx : ℕ) → All (λ c. c < 2 ^ 32) cells → mp_bitmap_free 1 cells 32 idx ≡ cells
unfolding mp_bitmap_free mp_reg_mask
mp_bitmap_free_page cells idx bound =
    let i = idx / 32 in
    let c = get_or cells i 0 in
    let no_mask : (0 * 2 ^ (idx % 32)) % 2 ^ 32 ≡ 0 = grind arith in
    let same : bit_and mp_bitmap_busy c ≡ c =
      bit_and_ones 32 c (All-get_or (2 ^ 32) cells i (omega arith) bound) in
    rw no_mask (ap (λ x. set cells i x) (bit_and_comm c mp_bitmap_busy ∙ same) ∙ set_self cells i)

module _ (beyond num num_items idx : ℕ) (cells cells' : List ℕ) (j b : ℕ) where
  -- What mp_bitmap_alloc has taken, up to 31 items, mp_bitmap_free gives back: afterwards every
  -- item `b` of every cell `j` is as it was before both.
  pub mp_bitmap_free-mp_bitmap_alloc :
      1 ≤ num
      → num < 32
      → All (λ c. c < 2 ^ 32) cells
      → (num_items + 31) / 32 ≡ length cells
      → b < 32
      → mp_bitmap_alloc beyond quiet num_items num cells ≡ (some idx, cells')
      → item (mp_bitmap_free beyond cells' num idx) j b ≡ item cells j b
  mp_bitmap_free-mp_bitmap_alloc some_items small bound e lt got =
      let done : BitmapAllocated num num_items cells j b (some idx, cells') =
        subst (λ r. BitmapAllocated num num_items cells j b r) got
          (mp_bitmap_alloc-BitmapAllocated beyond num num_items cells j b (omega arith) bound e
            lt) in
      ground (
        arith,
        done,
        item-mp_bitmap_free beyond num idx cells' j b small done.1
            (omega (arith, done.0, done.2, e)) lt,
      )
