-- ===== src/Common/Bits.antt =====
-- The binary digits of native numbers, and those of `bit_and`, `bit_or` and runs of ones.
use Prim.Native.Nat.{min, max, bit_and, bit_or, digits, bit_and-bitwise, bit_or-bitwise}
use native.Mathlib.Nat.{pow-le-pow_right, pow-succ', one-le-pow}
use v_perf_generator.Common.{
  sym, sym, ap, ℕ, ℕ, zero, suc, ◌+◌, ◌-◌, ◌*◌, ◌/◌, ◌%◌, ◌^◌, ◌≤◌, ◌<◌, ◌≡◌, refl, ◌∙◌, arith, ltb,
  leb, if◌then◌else◌,
}

-- The digit of weight `2 ^ i`.
unfoldable pub bit : ℕ → ℕ → ℕ
bit x zero = x % 2
bit x (suc i) = bit (x / 2) i

-- An operation on digits: `rest` is what the second number gives once the first has run out, and a
-- count of digits that is large enough does not matter.
module _ (rest : ℕ → ℕ) (op : ℕ → ℕ → ℕ) where
  run_out : (count b : ℕ) → digits rest op count 0 b ≡ rest b
  run_out zero b = refl
  run_out (suc count) b = refl

  enough_digits :
      (b a few many : ℕ) → a ≤ many → a ≤ few → digits rest op many a b ≡ digits rest op few a b
  enough_digits b zero few many h g = run_out many b ∙ sym (run_out few b)
  enough_digits b (suc a) zero many h g = absurd (omega (arith, g))
  enough_digits b (suc a) (suc few) zero h g = absurd (omega (arith, h))
  enough_digits b (suc a) (suc few) (suc many) h g =
      let higher =
        enough_digits (b / 2) (suc a / 2) few many (omega (arith, h)) (omega (arith, g)) in
      ap (λ (t : ℕ). t * 2 + op (suc a % 2) (b % 2)) higher

  lowest_digit :
      ((b : ℕ) → rest b ≡ rest (b / 2) * 2 + op 0 (b % 2))
      → (a b : ℕ)
      → digits rest op a a b ≡ digits rest op (a / 2) (a / 2) (b / 2) * 2 + op (a % 2) (b % 2)
  lowest_digit law zero b = law b
  lowest_digit law (suc a) b =
      let higher = enough_digits (b / 2) (suc a / 2) (suc a / 2) a (omega arith) (omega arith) in
      ap (λ (t : ℕ). t * 2 + op (suc a % 2) (b % 2)) higher

bit_and_digit : (a b : ℕ) → bit_and a b ≡ bit_and (a / 2) (b / 2) * 2 + min (a % 2) (b % 2)
bit_and_digit a b = omega (
  arith,
  lowest_digit (λ t. 0) min (λ t. omega arith) a b,
  bit_and-bitwise a b,
  bit_and-bitwise (a / 2) (b / 2),
)

bit_or_digit : (a b : ℕ) → bit_or a b ≡ bit_or (a / 2) (b / 2) * 2 + max (a % 2) (b % 2)
bit_or_digit a b = omega (
  arith,
  lowest_digit (λ t. t) max (λ t. omega arith) a b,
  bit_or-bitwise a b,
  bit_or-bitwise (a / 2) (b / 2),
)

pub bit-bit_and : (a b i : ℕ) → bit (bit_and a b) i ≡ min (bit a i) (bit b i)
unfolding bit
bit-bit_and a b zero = omega (arith, bit_and_digit a b)
bit-bit_and a b (suc i) =
    let half : bit_and a b / 2 ≡ bit_and (a / 2) (b / 2) = omega (arith, bit_and_digit a b) in
    rw half (bit-bit_and (a / 2) (b / 2) i)

pub bit-bit_or : (a b i : ℕ) → bit (bit_or a b) i ≡ max (bit a i) (bit b i)
unfolding bit
bit-bit_or a b zero = omega (arith, bit_or_digit a b)
bit-bit_or a b (suc i) =
    let half : bit_or a b / 2 ≡ bit_or (a / 2) (b / 2) = omega (arith, bit_or_digit a b) in
    rw half (bit-bit_or (a / 2) (b / 2) i)

pub bit_and_half : (a b : ℕ) → bit_and a b / 2 ≡ bit_and (a / 2) (b / 2)
bit_and_half a b = omega (arith, bit_and_digit a b)

pub bit_and_mod : (a b : ℕ) → bit_and a b % 2 ≡ min (a % 2) (b % 2)
bit_and_mod a b = omega (arith, bit_and_digit a b)

pub bit_zero : (i : ℕ) → bit 0 i ≡ 0
unfolding bit
bit_zero zero = refl
bit_zero (suc i) = bit_zero i

pub bit_le : (x i : ℕ) → bit x i ≤ 1
unfolding bit
bit_le x zero = omega arith
bit_le x (suc i) = bit_le (x / 2) i

-- Numbers with the same digits below `n`, and none above, are the same.
pub eq_of_bits : (n a b : ℕ) → a < 2 ^ n → b < 2 ^ n → ((i : ℕ) → i < n → bit a i ≡ bit b i) → a ≡ b
unfolding bit
eq_of_bits zero a b p q same = omega arith
eq_of_bits (suc n) a b p q same =
    let half : a / 2 ≡ b / 2 =
      eq_of_bits n (a / 2) (b / 2) (omega (arith, pow-succ' 2 n)) (omega (arith, pow-succ' 2 n))
        (λ i h. same (suc i) (omega arith)) in
    let low : a % 2 ≡ b % 2 = same 0 (omega arith) in omega (arith, half, low)

-- `n` ones, with `b` zeros below.
pub bit_ones : (n i : ℕ) → bit (2 ^ n - 1) i ≡ (if ltb i n then 1 else 0)
unfolding bit
bit_ones zero i = ground (arith, bit_zero i)
bit_ones (suc n) zero = ground (arith, pow-succ' 2 n, one-le-pow n 2)
bit_ones (suc n) (suc i) =
    let half : (2 ^ suc n - 1) / 2 ≡ 2 ^ n - 1 = omega (arith, pow-succ' 2 n, one-le-pow n 2) in
    rw half (bit_ones n i ∙ ground arith)

shifted_once : (x b : ℕ) → x * 2 ^ suc b ≡ 2 * (x * 2 ^ b)
shifted_once x b = rw (pow-succ' 2 b) (grind arith)

pub bit_shifted : (x b i : ℕ) → bit (x * 2 ^ b) i ≡ (if leb b i then bit x (i - b) else 0)
unfolding bit
bit_shifted x zero i = ground arith
bit_shifted x (suc b) zero = rw (shifted_once x b) (ground arith)
bit_shifted x (suc b) (suc i) =
    let half : x * 2 ^ suc b / 2 ≡ x * 2 ^ b = omega (arith, shifted_once x b) in
    rw half (bit_shifted x b i ∙ ground arith)

pub bit_and_ones : (n x : ℕ) → x < 2 ^ n → bit_and (2 ^ n - 1) x ≡ x
bit_and_ones zero x h = let none : x ≡ 0 = omega arith in rw none refl
bit_and_ones (suc n) x h =
    let half : (2 ^ suc n - 1) / 2 ≡ 2 ^ n - 1 = omega (arith, pow-succ' 2 n, one-le-pow n 2) in
    let rest : bit_and ((2 ^ suc n - 1) / 2) (x / 2) ≡ x / 2 =
      rw half (bit_and_ones n (x / 2) (omega (arith, pow-succ' 2 n))) in
    omega (arith, bit_and_digit (2 ^ suc n - 1) x, rest, pow-succ' 2 n, one-le-pow n 2)

pub bit_or_lt : (n a b : ℕ) → a < 2 ^ n → b < 2 ^ n → bit_or a b < 2 ^ n
bit_or_lt zero a b p q =
    let left : a ≡ 0 = omega arith in
    let right : b ≡ 0 = omega arith in rw (left, right) (omega arith)
bit_or_lt (suc n) a b p q =
    let half =
      bit_or_lt n (a / 2) (b / 2) (omega (arith, pow-succ' 2 n)) (omega (arith, pow-succ' 2 n)) in
    omega (arith, bit_or_digit a b, half, pow-succ' 2 n)

-- `n` ones with `b` zeros below fit into `k` digits.
pub shifted_ones_lt : (n b k : ℕ) → n + b ≤ k → (2 ^ n - 1) * 2 ^ b < 2 ^ k
shifted_ones_lt n zero k h =
    let le : n ≤ k = omega arith in
    let up : 2 ^ n ≤ 2 ^ k = pow-le-pow_right (omega arith) le in omega (arith, up, one-le-pow n 2)
shifted_ones_lt n (suc b) zero h = absurd (omega arith)
shifted_ones_lt n (suc b) (suc k) h =
    omega (arith, shifted_once (2 ^ n - 1) b, pow-succ' 2 k, shifted_ones_lt n b k (omega arith))

pub bit_complement : (n x i : ℕ) → x < 2 ^ n → i < n → bit (2 ^ n - 1 - x) i ≡ 1 - bit x i
unfolding bit
bit_complement zero x i h lt = absurd (omega arith)
bit_complement (suc n) x zero h lt = omega (arith, pow-succ' 2 n)
bit_complement (suc n) x (suc i) h lt =
    let half : (2 ^ suc n - 1 - x) / 2 ≡ 2 ^ n - 1 - x / 2 = omega (arith, pow-succ' 2 n) in
    rw half (bit_complement n (x / 2) i (omega (arith, pow-succ' 2 n)) (omega arith))

bit_and_comm_fuel : (n a b : ℕ) → a ≤ n → b ≤ n → bit_and a b ≡ bit_and b a
bit_and_comm_fuel zero a b p q =
    let left : a ≡ 0 = omega arith in let right : b ≡ 0 = omega arith in rw (left, right) refl
bit_and_comm_fuel (suc n) a b p q = omega (
  arith,
  bit_and_digit a b,
  bit_and_digit b a,
  bit_and_comm_fuel n (a / 2) (b / 2) (omega arith) (omega arith),
)

pub bit_and_comm : (a b : ℕ) → bit_and a b ≡ bit_and b a
bit_and_comm a b = bit_and_comm_fuel (a + b) a b (omega arith) (omega arith)
