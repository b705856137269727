-- ===== src/CircularList/Ring.antt =====
-- When the links hold a list: a ring from the head through its nodes, both ways.
use v_perf_generator.CircularList.{Links, with_next, with_prev}
use v_perf_generator.Common.{==_of_ne, ==_of_ne, ℕ, ℕ, ◌≡◌, ◌≢◌, List, [], ◌∷◌, ◌++◌, sym, ==_of_ne}
use v_perf_generator.Common.Memory.{last, Fresh, Distinct}

-- From `a` through `xs` to `b`, each link with its way back.
abbrev pub Linked : Links → ℕ → List ℕ → ℕ → Type 0
Linked l a [] b = (l.next a ≡ b) × (l.prev b ≡ a)
Linked l a (x ∷ xs) b = (l.next a ≡ x) × (l.prev x ≡ a) × Linked l x xs b

-- The list of a head: its nodes are distinct, and no one is the head.
pub record Ring (l : Links) (head : ℕ) (xs : List ℕ) : Type 0 where
  pub linked : Linked l head xs head
  pub distinct : Distinct xs
  pub fresh : Fresh head xs

-- Writes to a node outside.
pub Linked-with_next :
    (l : Links) (n v a b : ℕ) (xs : List ℕ)
    → n ≢ a
    → Fresh n xs
    → Linked l a xs b
    → Linked (with_next l n v) a xs b
Linked-with_next l n v a b [] ne f (out, back) = (rw (==_of_ne n a ne) out, back)
Linked-with_next l n v a b (x ∷ xs) ne f (out, back, rest) =
    (rw (==_of_ne n a ne) out, back, Linked-with_next l n v x b xs (λ e. f.0 (sym e)) f.1 rest)

pub Linked-with_prev :
    (l : Links) (n v a b : ℕ) (xs : List ℕ)
    → n ≢ b
    → Fresh n xs
    → Linked l a xs b
    → Linked (with_prev l n v) a xs b
Linked-with_prev l n v a b [] ne f (out, back) = (out, rw (==_of_ne n b ne) back)
Linked-with_prev l n v a b (x ∷ xs) ne f (out, back, rest) =
    (out, rw (==_of_ne n x (λ e. f.0 (sym e))) back, Linked-with_prev l n v x b xs ne f.1 rest)

-- A list in two parts, and put together.
pub Linked-append :
    (l : Links) (a y b : ℕ) (xs ys : List ℕ)
    → Linked l a (xs ++ (y ∷ ys)) b
    → Linked l a xs y × Linked l y ys b
Linked-append l a y b [] ys (out, back, rest) = ((out, back), rest)
Linked-append l a y b (x ∷ xs) ys (out, back, rest) =
    let (left, right) = Linked-append l x y b xs ys rest in ((out, back, left), right)

pub append-Linked :
    (l : Links) (a y b : ℕ) (xs ys : List ℕ)
    → Linked l a xs y
    → Linked l y ys b
    → Linked l a (xs ++ (y ∷ ys)) b
append-Linked l a y b [] ys (out, back) right = (out, back, right)
append-Linked l a y b (x ∷ xs) ys (out, back, rest) right =
    (out, back, append-Linked l x y b xs ys rest right)

-- The node before the end.
pub prev-last : (l : Links) (a b : ℕ) (xs : List ℕ) → Linked l a xs b → l.prev b ≡ last a xs
prev-last l a b [] (out, back) = back
prev-last l a b (x ∷ xs) (out, back, rest) = prev-last l x b xs rest

pub Fresh_of_append : (a : ℕ) (xs ys : List ℕ) → Fresh a (xs ++ ys) → Fresh a xs × Fresh a ys
Fresh_of_append a [] ys f = (tt, f)
Fresh_of_append a (x ∷ xs) ys (ne, f) =
    let (left, right) = Fresh_of_append a xs ys f in ((ne, left), right)

pub Distinct-of_append :
    (e : ℕ) (xs ys : List ℕ)
    → Distinct (xs ++ (e ∷ ys))
    → Distinct xs × Fresh e xs × Distinct ys × Fresh e ys
Distinct-of_append e [] ys (f, d) = (tt, tt, d, f)
Distinct-of_append e (x ∷ xs) ys (f, d) =
    let (dx, fx, dy, fy) = Distinct-of_append e xs ys d in
    let (left, (ne, right)) = Fresh_of_append x xs (e ∷ ys) f in
    ((left, dx), ((λ eq. ne (sym eq)), fx), dy, fy)
