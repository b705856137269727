-- ===== src/ThreadPool/Distribute/Totals.antt =====
-- The distribution neither loses nor invents requests: lib/libtsload/src/threadpool.c.
use v_perf_generator.ThreadPool.Distribute.{
  Libc, Draw, hit, exhausted, attach, regenerate, draw, distribute_requests,
}
use v_perf_generator.Common.{
  ◌≤◌, ◌≢◌, ◌≡◌, ◌∷◌, ◌∙◌, ℕ, zero, suc, subst, some, set, replicate, length-set, length-replicate,
  length, inr, inl, get_or, arith, [], List, Bool-cases, All, ==_iff, ◌==◌, ◌<◌, ◌+◌, ◌*◌, ◌%◌,
}
use native.Mathlib.Nat.{mod-lt, le_refl}

unfoldable pub sum : List ℕ → ℕ
sum [] = 0
sum (x ∷ xs) = x + sum xs

pub sum-replicate : (n v : ℕ) → sum (replicate n v) ≡ n * v
unfolding sum
sum-replicate zero v = omega arith
sum-replicate (suc n) v = grind (arith, sum-replicate n v)

sum-set : (xs : List ℕ) (i v : ℕ) → i < length xs → sum (set xs i (get_or xs i 0 + v)) ≡ sum xs + v
unfolding sum
sum-set [] i v h = absurd (omega arith)
sum-set (x ∷ xs) zero v h = omega arith
sum-set (x ∷ xs) (suc i) v h = omega (arith, sum-set xs i v (omega arith))

AtLeast-set :
    (def : ℕ) (xs : List ℕ) (i v : ℕ)
    → All (λ x. def ≤ x) xs
    → All (λ x. def ≤ x) (set xs i (get_or xs i 0 + v))
AtLeast-set def [] i v h = tt
AtLeast-set def (x ∷ xs) zero v h = (omega arith, h.1)
AtLeast-set def (x ∷ xs) (suc i) v h = (h.0, AtLeast-set def xs i v h.1)

pub AtLeast-replicate : (n def : ℕ) → All (λ x. def ≤ x) (replicate n def)
AtLeast-replicate zero def = tt
AtLeast-replicate (suc n) def = (le_refl def, AtLeast-replicate n def)

-- What is left to hand out, what has been handed out, and what every worker has.
record Holds (len def total : ℕ) (d : Draw) : Type 0 where
  size : length d.array ≡ len
  all_there : sum d.array + d.num ≡ total
  base : All (λ x. def ≤ x) d.array

module _ (libc : Libc) (len def total : ℕ) (some_worker : 0 < len) where
  attach-Holds :
      (d : Draw) → d.num ≢ 0 → Holds len def total d → Holds len def total (attach libc len d)
  unfolding attach
  attach-Holds d n h = elim (Bool-cases (hit libc len d)) [
    | inl got ↦ rw got (record {
      size = length-set d.array i _ ∙ h.size;
      all_there = omega (
        arith,
        sum-set d.array i 1 (omega (arith, mod-lt d.bit some_worker, h.size)),
        h.all_there,
      );
      base = AtLeast-set def d.array i 1 h.base;
    })
    | inr missed ↦ rw missed h
  ]
    where
      i : ℕ
      i = d.bit % len

  regenerate-Holds :
      (d : Draw) → Holds len def total d → Holds len def total (regenerate libc len d)
  unfolding regenerate
  regenerate-Holds d h = elim (Bool-cases (exhausted libc len d)) [
    | inl e ↦ rw e (record { size = h.size; all_there = h.all_there; base = h.base })
    | inr e ↦ rw e (record { size = h.size; all_there = h.all_there; base = h.base })
  ]

  draw-Holds :
      (fuel : ℕ) (d : Draw) (out : List ℕ)
      → Holds len def total d
      → draw libc len fuel d ≡ some out
      → (length out ≡ len) × (sum out ≡ total) × All (λ x. def ≤ x) out
  unfolding draw
  draw-Holds zero d out h e = cc
  draw-Holds (suc fuel) d out h e = elim (Bool-cases (d.num == 0)) [
    | inl done ↦
        let o : d.array ≡ out = ground arith in
        subst (λ xs. (length xs ≡ len) × (sum xs ≡ total) × All (λ x. def ≤ x) xs) o
          (h.size, omega (arith, h.all_there, (==_iff d.num 0).0 done), h.base)
    | inr more ↦
        draw-Holds fuel (regenerate libc len (attach libc len d)) out
          (regenerate-Holds (attach libc len d) (attach-Holds d (ground arith) h)) (ground arith)
  ]

-- Whatever `rand` returns, when the loop ends every one of the `len` workers has at least `def`
-- requests, and all of them together have `len * def + num`.
pub distribute_requests-total :
    (libc : Libc) (len fuel def num : ℕ) (out : List ℕ)
    → 0 < len
    → distribute_requests libc len fuel def num ≡ some out
    → (length out ≡ len) × (sum out ≡ len * def + num) × All (λ x. def ≤ x) out
unfolding distribute_requests
distribute_requests-total libc len fuel def num out h e =
    draw-Holds libc len def (len * def + num) h fuel _ out
      (record {
        size = length-replicate len def;
        all_there = omega (arith, sum-replicate len def);
        base = AtLeast-replicate len def;
      })
      e
