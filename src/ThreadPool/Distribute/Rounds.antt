-- ===== src/ThreadPool/Distribute/Rounds.antt =====
-- Who gets the extra requests, and when the loop ends: lib/libtsload/src/threadpool.c.
use v_perf_generator.Common.Int.{pos, ◌==ℤ◌, ltb_ℤ}
use v_perf_generator.ThreadPool.Distribute.{
  Libc, Draw, attach, regenerate, draw, distribute_requests,
}
use v_perf_generator.Common.{
  ◌∙◌, sym, inr, inl, Bool-cases, ◌==◌, ◌≤◌, none, ◌-◌, ◌+◌, ◌≤◌, ◌≢◌, some, arith, ==_of_ne, ◌%◌,
  ◌≢◌, ◌≡◌, ◌∷◌, ℕ, zero, true, suc, set, replicate, refl, get_or, false, ap, List, ◌<◌, ◌++◌, ◌+◌,
}
use native.Mathlib.Nat.{mod-eq_of_lt}

module _ {ℓ} {A : Type ℓ} where
  replicate-shift :
      (k : ℕ) (a : A) (ys : List A) → replicate k a ++ (a ∷ ys) ≡ replicate (suc k) a ++ ys
  replicate-shift zero a ys = refl
  replicate-shift (suc k) a ys = ap (◌∷◌ a) (replicate-shift k a ys)

bump-middle :
    (k a b : ℕ) (ys : List ℕ)
    → (get_or (replicate k a ++ (b ∷ ys)) k 0 ≡ b)
      × (set (replicate k a ++ (b ∷ ys)) k (b + 1) ≡ replicate k a ++ ((b + 1) ∷ ys))
bump-middle zero a b ys = (refl, refl)
bump-middle (suc k) a b ys = ((bump-middle k a b ys).0, ap (◌∷◌ a) (bump-middle k a b ys).1)

-- After `k` rounds, with `n` requests left: the first `k` workers have one more than `def`.
abbrev handed : ℕ → ℕ → ℕ → ℕ → ℕ → Draw
handed def value k n m = record {
  num = n;
  bit = k;
  calls = 1;
  rand_value = value;
  array = replicate k (def + 1) ++ replicate m def;
}

module _ (libc : Libc) (len : ℕ) where
  -- `1 << bit` is neither zero nor as large as RAND_MAX.
  abbrev pub Plain : ℕ → Type 0
  Plain b = ((libc.shl b ==ℤ pos 0) ≡ false) × (ltb_ℤ (libc.shl b) (pos libc.rand_max) ≡ true)

  round :
      (def value k n m : ℕ)
      → value ≢ 0
      → Plain k
      → k < len
      → regenerate libc len (attach libc len (handed def value k (suc n) (suc m)))
        ≡ handed def value (suc k) n m
  unfolding attach regenerate
  round def value k n m v p lt =
      let e : k % len ≡ k = mod-eq_of_lt lt in
      rw
        (
          e,
          ==_of_ne value 0 v,
          p.0,
          (bump-middle k (def + 1) def (replicate m def)).0,
          (bump-middle k (def + 1) def (replicate m def)).1,
          replicate-shift k (def + 1) (replicate m def),
          p.1,
        )
        (ground arith)

  draw-rounds :
      (def value n k m t w fuel : ℕ)
      → value ≢ 0
      → ((b : ℕ) → b < t → Plain b)
      → t ≤ len
      → t ≡ k + n
      → w ≡ n + m
      → n < fuel
      → draw libc len fuel (handed def value k n w)
        ≡ some (replicate t (def + 1) ++ replicate m def)
  unfolding draw
  draw-rounds def value n k m t w zero v p h et ew hf = absurd (omega arith)
  draw-rounds def value zero k m t w (suc fuel) v p h et ew hf =
      let t' : t ≡ k = omega arith in let w' : w ≡ m = omega arith in rw (t', w')
  draw-rounds def value (suc n) k m t zero (suc fuel) v p h et ew hf = absurd (omega arith)
  draw-rounds def value (suc n) k m t (suc w) (suc fuel) v p h et ew hf =
      rw
        (
          ==_of_ne (suc n) 0 (omega arith),
          round def value k n w v (p k (omega arith)) (omega arith),
        )
        (draw-rounds def value n (suc k) m t w fuel v p h (omega arith) (omega arith) (omega arith))

  -- The extra requests are not spread at random: once the first value of `rand` is not 0, the first
  -- `num` workers have one request more than `def` and the others have `def`, as long as the bits up
  -- to `num` are not exhausted. One round for each extra request is enough.
  pub distribute_requests-first :
      (fuel def num : ℕ)
      → libc.rand 0 ≢ 0
      → ((b : ℕ) → b < num → Plain b)
      → num ≤ len
      → num < fuel
      → distribute_requests libc len fuel def num
        ≡ some (replicate num (def + 1) ++ replicate (len - num) def)
  unfolding distribute_requests
  distribute_requests-first fuel def num v p h hf =
      draw-rounds def (libc.rand 0) num 0 (len - num) num len fuel v p h (omega arith) (omega arith)
        hf

  miss-keeps :
      (d : Draw)
      → ltb_ℤ (libc.shl d.bit) (pos libc.rand_max) ≡ true
      → d.rand_value ≡ 0
      → let d' = regenerate libc len (attach libc len d) in (d'.rand_value ≡ 0) × (d'.num ≡ d.num)
  unfolding attach regenerate
  miss-keeps d p v = ground arith

  hit-keeps :
      (d : Draw)
      → ((k : ℕ) → libc.rand k ≢ 0)
      → (libc.shl d.bit ==ℤ pos 0) ≡ false
      → d.rand_value ≢ 0
      → let d' = regenerate libc len (attach libc len d) in
        (d'.rand_value ≢ 0) × (d'.num ≡ d.num - 1)
  unfolding attach regenerate
  hit-keeps d r p v = ground (arith, r d.calls)

  draw_stuck :
      (fuel : ℕ) (d : Draw)
      → ((b : ℕ) → ltb_ℤ (libc.shl b) (pos libc.rand_max) ≡ true)
      → d.rand_value ≡ 0
      → d.num ≢ 0
      → draw libc len fuel d ≡ none
  unfolding draw
  draw_stuck zero d p v n = refl
  draw_stuck (suc fuel) d p v n =
      let (v', n') = miss-keeps d (p d.bit) v in
      rw (==_of_ne d.num 0 n) (draw_stuck fuel _ p v' (λ e. n (sym n' ∙ e)))

  -- Where no `1 << bit` reaches RAND_MAX, as with a 32-bit `int` and RAND_MAX = 2^31 - 1, and the
  -- first value of `rand` is 0, the loop never ends if there are extra requests.
  pub distribute_requests_stuck :
      (fuel def num : ℕ)
      → ((b : ℕ) → ltb_ℤ (libc.shl b) (pos libc.rand_max) ≡ true)
      → libc.rand 0 ≡ 0
      → num ≢ 0
      → distribute_requests libc len fuel def num ≡ none
  unfolding distribute_requests
  distribute_requests_stuck fuel def num p v n = draw_stuck fuel _ p v n

  draw_ends :
      (fuel : ℕ) (d : Draw)
      → ((k : ℕ) → libc.rand k ≢ 0)
      → ((b : ℕ) → (libc.shl b ==ℤ pos 0) ≡ false)
      → d.rand_value ≢ 0
      → d.num < fuel
      → (out : List ℕ) × (draw libc len fuel d ≡ some out)
  unfolding draw
  draw_ends zero d r p v n = absurd (omega arith)
  draw_ends (suc fuel) d r p v n = elim (Bool-cases (d.num == 0)) [
    | inl done ↦ (d.array, rw done)
    | inr more ↦
        let (v', n') = hit-keeps d r (p d.bit) v in rw more (draw_ends fuel _ r p v' (ground arith))
  ]

  -- If no value of `rand` and no `1 << bit` is 0, the loop ends after one round for each extra
  -- request.
  pub distribute_requests_ends :
      (fuel def num : ℕ)
      → ((k : ℕ) → libc.rand k ≢ 0)
      → ((b : ℕ) → (libc.shl b ==ℤ pos 0) ≡ false)
      → num < fuel
      → (out : List ℕ) × (distribute_requests libc len fuel def num ≡ some out)
  unfolding distribute_requests
  distribute_requests_ends fuel def num r p h = draw_ends fuel _ r p (r 0) h
