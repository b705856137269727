-- ===== src/MemPool/Bitmap/Region.antt =====
-- The regions that `mp_bitmap_find_region` finds, and their masks.
use Prim.Native.Nat.{bit_and}
use native.Mathlib.Nat.{one-le-pow, mod-eq_of_lt}
use v_perf_generator.Common.{
  ℕ, ap, ℕ, zero, suc, ◌+◌, ◌-◌, ◌*◌, ◌%◌, ◌^◌, ◌≤◌, ◌<◌, ◌≡◌, arith, ltb, leb, ◌&&◌, if◌then◌else◌,
  Bool, some,
}
use v_perf_generator.Common.Bits.{
  bit, bit-bit_and, bit_zero, bit_ones, bit_shifted, bit_le, shifted_ones_lt,
}
use v_perf_generator.MemPool.Bitmap.{
  mp_reg_mask, mp_bitmap_find_one, mp_bitmap_find_region, find_region_from, mp_bitmap_bits,
}

-- Is item `i` one of the `num` from `b` on?
abbrev pub inside : ℕ → ℕ → ℕ → Bool
inside b num i = leb b i && ltb i (b + num)

pub bit-mask :
    (num b i : ℕ)
    → num + b ≤ 32
    → bit (((2 ^ num - 1) * 2 ^ b) % 2 ^ 32) i ≡ (if inside b num i then 1 else 0)
bit-mask num b i h =
    let fits : ((2 ^ num - 1) * 2 ^ b) % 2 ^ 32 ≡ (2 ^ num - 1) * 2 ^ b =
      mod-eq_of_lt (shifted_ones_lt num b 32 h) in
    rw fits (ground (arith, bit_shifted (2 ^ num - 1) b i, bit_ones num (i - b)))

mask_of_lt :
    (beyond num b : ℕ) → num < 32 → mp_reg_mask beyond num b ≡ ((2 ^ num - 1) * 2 ^ b) % 2 ^ 32
unfolding mp_reg_mask
mask_of_lt beyond num b h = ground (arith, one-le-pow num 2)

pub bit-mp_reg_mask :
    (beyond num b i : ℕ)
    → num < 32
    → num + b ≤ 32
    → bit (mp_reg_mask beyond num b) i ≡ (if inside b num i then 1 else 0)
bit-mp_reg_mask beyond num b i h le = rw (mask_of_lt beyond num b h) (bit-mask num b i le)

-- A cell that shares no bit with a mask has zeros there.
pub bit_of_apart : (u mask i : ℕ) → bit_and u mask ≡ 0 → bit mask i ≡ 1 → bit u i ≡ 0
bit_of_apart u mask i apart one =
    omega (arith, bit-bit_and u mask i, ap (λ x. bit x i) apart, bit_zero i, bit_le u i)

find_region_from-some :
    (beyond fuel i u num b : ℕ)
    → find_region_from beyond fuel i u num ≡ some b
    → (b ≡ mp_bitmap_find_one u) × (bit_and u (mp_reg_mask beyond num b) ≡ 0)
unfolding find_region_from
find_region_from-some beyond zero i u num b e = absurd (cc)
find_region_from-some beyond (suc fuel) i u num b e =
    ground (arith, find_region_from-some beyond fuel (i + mp_bitmap_find_one u + 1) u num b)

pub mp_bitmap_find_region-some :
    (beyond u num b : ℕ)
    → mp_bitmap_find_region beyond u num ≡ some b
    → (b ≡ mp_bitmap_find_one u) × (bit_and u (mp_reg_mask beyond num b) ≡ 0)
unfolding mp_bitmap_find_region
mp_bitmap_find_region-some beyond u num b e =
    find_region_from-some beyond mp_bitmap_bits 0 u num b e
