-- ===== src/Common/Memory.antt =====
-- Memory as a function of the address, and the singly linked chains in it.
use v_perf_generator.Common.{
  ◌≢◌, ◌≡◌, ◌∷◌, sym, some, refl, none, if◌then◌else◌, [], Option, List, All, ==_self, ==_of_ne,
  ◌==◌, ◌++◌, ℕ,
}

-- A pointer is an address, or `none` for NULL.
abbrev pub Pointer : Type 0
Pointer = Option ℕ

abbrev pub update {ℓ} : {A : Type ℓ} → (ℕ → A) → ℕ → A → ℕ → A
update f a v b = if a == b then v else f b

-- The objects of a chain, from a pointer to its NULL.
abbrev pub Chain : (ℕ → Pointer) → Pointer → List ℕ → Type 0
Chain next p [] = p ≡ none
Chain next p (x ∷ xs) = (p ≡ some x) × Chain next (next x) xs

abbrev pub Fresh : ℕ → List ℕ → Type 0
Fresh a = All (λ x. x ≢ a)

abbrev pub Distinct : List ℕ → Type 0
Distinct [] = Unit {0}
Distinct (x ∷ xs) = Fresh x xs × Distinct xs

-- The last of a non-empty list.
abbrev pub last : ℕ → List ℕ → ℕ
last x [] = x
last x (y ∷ ys) = last y ys

-- A write to an object outside a chain leaves the chain alone.
pub Chain-update :
    (next : ℕ → Pointer) (a : ℕ) (v p : Pointer) (xs : List ℕ)
    → Fresh a xs
    → Chain next p xs
    → Chain (update next a v) p xs
Chain-update next a v p [] f c = c
Chain-update next a v p (x ∷ xs) f c =
    (c.0, rw (==_of_ne a x (λ e. f.0 (sym e))) (Chain-update next a v (next x) xs f.1 c.1))

pub Fresh-append : (a : ℕ) (xs ys : List ℕ) → Fresh a xs → Fresh a ys → Fresh a (xs ++ ys)
Fresh-append a [] ys f g = g
Fresh-append a (x ∷ xs) ys f g = (f.0, Fresh-append a xs ys f.1 g)

pub Distinct-append : (xs : List ℕ) (a : ℕ) → Distinct xs → Fresh a xs → Distinct (xs ++ (a ∷ []))
Distinct-append [] a d f = (tt, tt)
Distinct-append (x ∷ xs) a d f =
    (Fresh-append x xs (a ∷ []) d.0 ((λ e. f.0 (sym e)), tt), Distinct-append xs a d.1 f.1)

-- The last object of a chain is in it.
pub Fresh-last : (a x : ℕ) (xs : List ℕ) → Fresh a (x ∷ xs) → last x xs ≢ a
Fresh-last a x [] f = f.0
Fresh-last a x (y ∷ ys) f = Fresh-last a y ys f.1

-- A write to the last object's link puts another object, whose own link is NULL, behind it.
pub Chain-link :
    (next : ℕ → Pointer) (a x : ℕ) (p : Pointer) (xs : List ℕ)
    → next a ≡ none
    → Fresh a (x ∷ xs)
    → Distinct (x ∷ xs)
    → Chain next p (x ∷ xs)
    → Chain (update next (last x xs) (some a)) p (x ∷ (xs ++ (a ∷ [])))
Chain-link next a x p [] n f d c = (c.0, (rw (==_self x) refl, rw (==_of_ne x a f.0) n))
Chain-link next a x p (y ∷ ys) n f d c = (
  c.0,
  rw (==_of_ne (last y ys) x (Fresh-last x y ys d.0))
      (Chain-link next a y (next x) ys n f.1 d.1 c.1),
)
