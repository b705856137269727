-- ===== src/Quantum/Names.antt =====
-- The workloads of a pool by their names, in a quantum: lib/libtsload/src/worker.c.
use v_perf_generator.Quantum.{fill_steps}
use v_perf_generator.ThreadPool.Members.{Listed}
use v_perf_generator.Common.{
  ◌≤◌, ◌≤◌, ◌≢◌, ◌≡◌, ◌∷◌, ◌∙◌, ℕ, sym, suc, some, refl, length, inr, inl, arith, ap, [], Option,
  List, Bool-cases,
}
use v_perf_generator.ThreadPool.{unlink}
use v_perf_generator.Common.Bytes.{str_eq_iff, str_eq}

-- No name stands in the list twice.
abbrev pub Apart : List (List ℕ) → Type 0
Apart [] = Unit {0}
Apart (n ∷ ns) = (¬ Listed n ns) × Apart ns

-- The step array starts with these workloads.
abbrev pub Starts : List (List ℕ) → List (Option (List ℕ)) → Type 0
Starts [] step = Unit {0}
Starts (n ∷ ns) [] = ⊥
Starts (n ∷ ns) (e ∷ step) = (e ≡ some n) × Starts ns step

pub Listed-unlink :
    (m n : List ℕ) (ns : List (List ℕ)) → m ≢ n → Listed n ns → Listed n (unlink m ns)
unfolding unlink
Listed-unlink m n [] h l = absurd l
Listed-unlink m n (k ∷ ks) h (inl e) = elim (Bool-cases (str_eq k m)) [
  | inl same ↦ absurd (h (sym ((str_eq_iff k m).0 same) ∙ e))
  | inr other ↦ rw other (inl e)
]
Listed-unlink m n (k ∷ ks) h (inr l) = elim (Bool-cases (str_eq k m)) [
  | inl same ↦ rw same l
  | inr other ↦ rw other (inr (Listed-unlink m n ks h l))
]

pub unlink-Listed : (m n : List ℕ) (ns : List (List ℕ)) → Listed n (unlink m ns) → Listed n ns
unfolding unlink
unlink-Listed m n [] l = absurd l
unlink-Listed m n (k ∷ ks) l = elim (Bool-cases (str_eq k m)) [
  | inl same ↦ inr (rw same at l)
  | inr other ↦ elim (rw other at l) [ inl e ↦ inl e | inr l' ↦ inr (unlink-Listed m n ks l') ]
]

pub unlink-Apart : (m : List ℕ) (ns : List (List ℕ)) → Apart ns → Apart (unlink m ns)
unfolding unlink
unlink-Apart m [] a = tt
unlink-Apart m (k ∷ ks) a = elim (Bool-cases (str_eq k m)) [
  | inl same ↦ rw same a.1
  | inr other ↦ rw other ((λ l. a.0 (unlink-Listed m k ks l)), unlink-Apart m ks a.1)
]

pub fill_steps-Starts :
    (step : List (Option (List ℕ))) (ns : List (List ℕ))
    → length ns ≤ length step
    → (step' : List (Option (List ℕ))) × (fill_steps step ns ≡ some step')
      × Starts ns step'
      × (length step' ≡ length step)
unfolding fill_steps
fill_steps-Starts step [] h = (step, refl, tt, refl)
fill_steps-Starts [] (n ∷ ns) h = absurd (omega arith)
fill_steps-Starts (e ∷ step) (n ∷ ns) h =
    let (step', got, s, l) = fill_steps-Starts step ns (omega arith) in
    (some n ∷ step', rw (fill_steps, got) refl, (refl, s), ap suc l)
