-- ===== src/Common/Bytes.antt =====
-- NUL-terminated strings as the lists of their bytes before the NUL, and `strcmp(a, b) == 0`.
use v_perf_generator.Common.{
  ◌≡◌, ◌∷◌, ◌↔◌, true, subst, refl, false, arith, [], List, Bool, ==_self, ◌==◌, ◌&&◌, ℕ,
}

unfoldable pub str_eq : List ℕ → List ℕ → Bool
str_eq [] [] = true
str_eq [] (y ∷ ys) = false
str_eq (x ∷ xs) [] = false
str_eq (x ∷ xs) (y ∷ ys) = x == y && str_eq xs ys

pub str_eq_self : (s : List ℕ) → str_eq s s ≡ true
unfolding str_eq
str_eq_self [] = refl
str_eq_self (x ∷ s) = rw (==_self x, str_eq_self s)

pub eq_of_str_eq : (s t : List ℕ) → str_eq s t ≡ true → s ≡ t
unfolding str_eq
eq_of_str_eq [] [] h = refl
eq_of_str_eq [] (y ∷ ys) h = cc
eq_of_str_eq (x ∷ xs) [] h = cc
eq_of_str_eq (x ∷ xs) (y ∷ ys) h = ground (arith, eq_of_str_eq xs ys)

pub str_eq_iff : (s t : List ℕ) → (str_eq s t ≡ true) ↔ (s ≡ t)
str_eq_iff s t = (eq_of_str_eq s t, λ e. subst (λ u. str_eq s u ≡ true) e (str_eq_self s))
