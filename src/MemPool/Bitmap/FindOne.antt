-- ===== src/MemPool/Bitmap/FindOne.antt =====
-- `mp_bitmap_find_one` and `mp_bitmap_bitcount`: the arithmetic on digits, and what it computes.
use Prim.Native.Nat.{bit_and}
use native.Mathlib.Nat.{pow-succ'}
use v_perf_generator.Common.{
  ℕ, inr, ==_iff, ℕ, zero, suc, ◌+◌, ◌-◌, ◌/◌, ◌%◌, ◌^◌, ◌<◌, ◌≡◌, refl, arith, ◌==◌, ◌&&◌,
  if◌then◌else◌, Bool, true, Bool-cases, inl, inr,
}
use v_perf_generator.Common.Bits.{bit, bit_and_half, bit_and_mod}
use v_perf_generator.MemPool.Bitmap.{mp_bitmap_bitcount, mp_bitmap_find_one}

-- The place of the lowest zero of `n` digits.
unfoldable pub first_zero : ℕ → ℕ → ℕ
first_zero zero u = 0
first_zero (suc n) u = let rest = first_zero n (u / 2) in if u % 2 == 0 then 0 else suc rest

pub bit-first_zero : (n u : ℕ) → u < 2 ^ n - 1 → bit u (first_zero n u) ≡ 0
unfolding first_zero bit
bit-first_zero zero u h = absurd (omega arith)
bit-first_zero (suc n) u h = elim (Bool-cases (u % 2 == 0)) [
  | inl even ↦ rw even ((==_iff (u % 2) 0).0 even)
  | inr odd ↦ rw odd (bit-first_zero n (u / 2) (ground (arith, pow-succ' 2 n)))
]

pub first_zero_lt : (n u : ℕ) → u < 2 ^ n - 1 → first_zero n u < n
unfolding first_zero
first_zero_lt zero u h = absurd (omega arith)
first_zero_lt (suc n) u h = ground (arith, first_zero_lt n (u / 2), pow-succ' 2 n)

-- A number shares no digit with its complement.
complement : (n u : ℕ) → u < 2 ^ n → bit_and (2 ^ n - 1 - u) u ≡ 0
complement zero u h = let none : u ≡ 0 = omega arith in rw none refl
complement (suc n) u h =
    let half : (2 ^ suc n - 1 - u) / 2 ≡ 2 ^ n - 1 - u / 2 = omega (arith, pow-succ' 2 n) in
    let rest : bit_and ((2 ^ suc n - 1 - u) / 2) (u / 2) ≡ 0 =
      rw half (complement n (u / 2) (omega (arith, pow-succ' 2 n))) in
    omega (
      arith,
      bit_and_half (2 ^ suc n - 1 - u) u,
      bit_and_mod (2 ^ suc n - 1 - u) u,
      rest,
      pow-succ' 2 n,
    )

-- The lowest zero alone.
lowest_zero : (n u : ℕ) → u < 2 ^ n - 1 → bit_and (2 ^ n - 1 - u) (u + 1) ≡ 2 ^ first_zero n u
unfolding first_zero
lowest_zero zero u h = absurd (omega arith)
lowest_zero (suc n) u h =
    let half : (2 ^ suc n - 1 - u) / 2 ≡ 2 ^ n - 1 - u / 2 = omega (arith, pow-succ' 2 n) in
    elim (Bool-cases (u % 2 == 0)) [
      | inl even ↦
          let is_even : u % 2 ≡ 0 = (==_iff (u % 2) 0).0 even in
          let half' : (u + 1) / 2 ≡ u / 2 = omega (arith, is_even) in
          let rest : bit_and ((2 ^ suc n - 1 - u) / 2) ((u + 1) / 2) ≡ 0 =
            rw (half, half') (complement n (u / 2) (omega (arith, pow-succ' 2 n))) in
          rw even (
            omega (
              arith,
              is_even,
              rest,
              bit_and_half (2 ^ suc n - 1 - u) (u + 1),
              bit_and_mod (2 ^ suc n - 1 - u) (u + 1),
              pow-succ' 2 n,
            ))
      | inr odd ↦
          let is_odd : u % 2 ≡ 1 = ground arith in
          let half' : (u + 1) / 2 ≡ u / 2 + 1 = omega (arith, is_odd) in
          let rest : bit_and ((2 ^ suc n - 1 - u) / 2) ((u + 1) / 2) ≡ 2 ^ first_zero n (u / 2) =
            rw (half, half') (lowest_zero n (u / 2) (omega (arith, is_odd, pow-succ' 2 n))) in
          rw odd (
            omega (
              arith,
              is_odd,
              rest,
              pow-succ' 2 (first_zero n (u / 2)),
              bit_and_half (2 ^ suc n - 1 - u) (u + 1),
              bit_and_mod (2 ^ suc n - 1 - u) (u + 1),
              pow-succ' 2 n,
            ))
    ]

-- The first zero does not depend on how many digits there are beyond it.
first_zero_digits : (n m u : ℕ) → u < 2 ^ n - 1 → u < 2 ^ m - 1 → first_zero n u ≡ first_zero m u
unfolding first_zero
first_zero_digits zero m u h g = absurd (omega arith)
first_zero_digits (suc n) zero u h g = absurd (omega arith)
first_zero_digits (suc n) (suc m) u h g =
    ground (arith, first_zero_digits n m (u / 2), pow-succ' 2 n, pow-succ' 2 m)

-- Every value of a small range, by evaluation.
all_below : ℕ → (ℕ → Bool) → Bool
all_below zero p = true
all_below (suc n) p = p n && all_below n p

true_of_all_below : (n : ℕ) (p : ℕ → Bool) (x : ℕ) → all_below n p ≡ true → x < n → p x ≡ true
unfolding all_below
true_of_all_below zero p x h lt = absurd (omega arith)
true_of_all_below (suc n) p x h lt = ground (arith, true_of_all_below n p x)

count_table : all_below 32 (λ j. mp_bitmap_bitcount ((2 ^ j + (2 ^ 64 - 1)) % 2 ^ 64) == j) ≡ true
unfolding all_below mp_bitmap_bitcount
count_table = refl

count_ones : (j : ℕ) → j < 32 → mp_bitmap_bitcount ((2 ^ j + (2 ^ 64 - 1)) % 2 ^ 64) ≡ j
count_ones j h = (==_iff _ j).0 (true_of_all_below 32 _ j count_table h)

-- On every cell that is not busy, the arithmetic of mp_bitmap_find_one and mp_bitmap_bitcount
-- computes the place of the lowest zero among the 32 digits, found by going through them.
pub mp_bitmap_find_one_lem : (u : ℕ) → u < 2 ^ 32 - 1 → mp_bitmap_find_one u ≡ first_zero 32 u
unfolding mp_bitmap_find_one
mp_bitmap_find_one_lem u h =
    let minus : (2 ^ 64 - (2 ^ 64 - 1 - u)) % 2 ^ 64 ≡ u + 1 = omega arith in
    let lowest = lowest_zero 64 u (omega arith) in
    let place = first_zero_digits 64 32 u (omega arith) h in
    rw (minus, lowest, place) (count_ones (first_zero 32 u) (first_zero_lt 32 u h))
