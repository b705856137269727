-- ===== src/MemPool/FreeTree/BestFit.antt =====
-- What `mp_heap_btree_find_delete` finds: a smallest fragment that is large enough.
use native.Mathlib.Decide.{dec_lt}
use v_perf_generator.Common.{
  lt→ltb, lt→ltb, if◌then◌else◌, Option, Bool, subst, ◌∙◌, ℕ, ◌≤◌, ◌<◌, ◌+◌, ◌≡◌, List, [], ◌∷◌,
  ◌++◌, arith, some, none, ◌⊎◌, inl, inr, refl, append_assoc, append-nil, ltb, ltb→lt, Bool-cases,
  true, false, sym, ◌∙◌,
}
use v_perf_generator.MemPool.FreeTree.{
  Fragment, Tree, leaf, node, Direction, mp_hh_l, mp_hh_r, Best, better, find_best,
  mp_heap_btree_find_delete, mp_heap_btree_delete,
}
use v_perf_generator.MemPool.FreeTree.Weight.{
  fragment_at, Weight, weight, weight-mp_heap_btree_delete,
}
use v_perf_generator.MemPool.FreeTree.Order.{
  Each, Each-imp, AtMost, AtLeast, IsOrdered, mp_heap_btree_delete-IsOrdered,
}

-- `best` is a smallest of the fragments of `t` with `units` units and more.
abbrev pub Fits : ℕ → Fragment → Tree → Type 0
Fits units best t =
    (units ≤ best.hh_size) × Each (λ x. (x.hh_size < units) ⊎ (best.hh_size ≤ x.hh_size)) t

TooSmall : ℕ → Tree → Type 0
TooSmall units = Each (λ x. x.hh_size < units)

-- What the loop reaches in a subtree at `path`, from `b`: nothing there is large enough, or the
-- result is a best fit at a path that goes on from `path`.
abbrev Found : ℕ → Tree → List Direction → Best → Best → Type 0
Found units t path b b' =
    ((b' ≡ b) × Each (λ x. x.hh_size < units) t)
    ⊎ ((q : List Direction) × (b'.b_path ≡ path ++ q)
        × (fragment_at t q ≡ some b'.best)
        × Fits units b'.best t)

-- What the loop knows of its best so far: it is too small; or it is at least as large as a header
-- that it meets next, and also as what it meets on the right, where it can go there.
abbrev Bounds : ℕ → Best → Tree → Type 0
Bounds units b leaf = Unit
Bounds units b (node l h r) =
    (b.best.hh_size < units)
    ⊎ ((h.hh_size ≤ b.best.hh_size) × ((units ≤ h.hh_size) ⊎ AtMost b.best.hh_size r))

module _ (units : ℕ) (best : Fragment) where
  Each-of_AtLeast :
      (t : Tree) (n : ℕ)
      → best.hh_size ≤ n
      → AtLeast n t
      → Each (λ x. (x.hh_size < units) ⊎ (best.hh_size ≤ x.hh_size)) t
  Each-of_AtLeast t n le a = Each-imp (λ x e. inr (omega (arith, le))) t a

  Each-of_small :
      (t : Tree)
      → Each (λ x. x.hh_size < units) t
      → Each (λ x. (x.hh_size < units) ⊎ (best.hh_size ≤ x.hh_size)) t
  Each-of_small t a = Each-imp (λ x e. inl e) t a

  Each-of_eq :
      (t : Tree)
      → best.hh_size ≡ units
      → Each (λ x. (x.hh_size < units) ⊎ (best.hh_size ≤ x.hh_size)) t
  Each-of_eq leaf e = tt
  Each-of_eq (node l h r) e = (Each-of_eq l e, ground arith, Each-of_eq r e)

  small_of_AtMost : (t : Tree) (n : ℕ) → n < units → AtMost n t → Each (λ x. x.hh_size < units) t
  small_of_AtMost t n lt a = Each-imp (λ x e. omega (arith, lt)) t a

Each-fragment_at :
    (P : Fragment → Type 0) (t : Tree) (q : List Direction) (h : Fragment)
    → Each P t
    → fragment_at t q ≡ some h
    → P h
unfolding fragment_at
Each-fragment_at P leaf q h a at = absurd (cc)
Each-fragment_at P (node l g r) [] h a at = ground arith
Each-fragment_at P (node l g r) (mp_hh_l ∷ q) h a at = Each-fragment_at P l q h a.0 at
Each-fragment_at P (node l g r) (mp_hh_r ∷ q) h a at = Each-fragment_at P r q h a.2 at

better_of_le :
    (units : ℕ) (h best : Fragment)
    → units ≤ h.hh_size
    → (best.hh_size < units) ⊎ (h.hh_size ≤ best.hh_size)
    → better units h best ≡ true
unfolding better
better_of_le units h best le e = ground arith

better_of_lt : (units : ℕ) (h best : Fragment) → h.hh_size < units → better units h best ≡ false
unfolding better
better_of_lt units h best lt = ground arith

module _ (l : Tree) (h : Fragment) (r : Tree) (units : ℕ) (path : List Direction) where
  -- At a header that is large enough: the search in its left subtree starts from it.
  Found-left :
      (b b' : Best)
      → units ≤ h.hh_size
      → IsOrdered (node l h r)
      → Found units l (path ++ (mp_hh_l ∷ [])) (record { best = h; b_path = path }) b'
      → Found units (node l h r) path b b'
  unfolding fragment_at
  Found-left b b' le o (inl (same, small)) = inr (
    [],
    rw same (sym (append-nil path)),
    rw same refl,
    subst (λ (x : Best). Fits units x.best (node l h r)) (sym same)
        (
          le,
          (
            Each-of_small units h l small,
            inr (omega arith),
            Each-of_AtLeast units h r h.hh_size (omega arith) o.1,
          ),
        ),
  )
  Found-left b b' le o (inr (q, at_path, at, (fit, each))) =
      let low = Each-fragment_at (λ x. x.hh_size ≤ h.hh_size) l q b'.best o.0 at in
      inr (
        mp_hh_l ∷ q,
        at_path ∙ append_assoc path (mp_hh_l ∷ []) q,
        at,
        (fit, (each, inr low, Each-of_AtLeast units b'.best r h.hh_size low o.1)),
      )

  -- At a header that is too small: the search goes on in its right subtree.
  Found-right :
      (b b' : Best)
      → h.hh_size < units
      → IsOrdered (node l h r)
      → Found units r (path ++ (mp_hh_r ∷ [])) b b'
      → Found units (node l h r) path b b'
  unfolding fragment_at
  Found-right b b' lt o (inl (same, small)) =
      inl (same, (small_of_AtMost units h l h.hh_size lt o.0, lt, small))
  Found-right b b' lt o (inr (q, at_path, at, (fit, each))) = inr (
    mp_hh_r ∷ q,
    at_path ∙ append_assoc path (mp_hh_r ∷ []) q,
    at,
    (
      fit,
      (Each-of_small units b'.best l (small_of_AtMost units h l h.hh_size lt o.0), inl lt, each),
    ),
  )

Bounds-of_AtMost : (units : ℕ) (b : Best) (t : Tree) → AtMost b.best.hh_size t → Bounds units b t
Bounds-of_AtMost units b leaf a = tt
Bounds-of_AtMost units b (node l h r) a = inr (a.1, inr a.2)

Bounds-of_small : (units : ℕ) (b : Best) (t : Tree) → b.best.hh_size < units → Bounds units b t
Bounds-of_small units b leaf lt = tt
Bounds-of_small units b (node l h r) lt = inl lt

Bounds-left :
    (units : ℕ) (b : Best) (l : Tree) (h : Fragment) (r : Tree)
    → Bounds units b (node l h r)
    → (b.best.hh_size < units) ⊎ (h.hh_size ≤ b.best.hh_size)
Bounds-left units b l h r (inl lt) = inl lt
Bounds-left units b l h r (inr a) = inr a.0

Bounds-right :
    (units : ℕ) (b : Best) (l : Tree) (h : Fragment) (r : Tree)
    → h.hh_size < units
    → Bounds units b (node l h r)
    → Bounds units b r
Bounds-right units b l h r small (inl lt) = Bounds-of_small units b r lt
Bounds-right units b l h r small (inr (le, inl enough)) = absurd (omega arith)
Bounds-right units b l h r small (inr (le, inr a)) = Bounds-of_AtMost units b r a

Bounds-root :
    (units : ℕ) (l : Tree) (h : Fragment) (r : Tree)
    → Bounds units (record { best = h; b_path = [] }) (node l h r)
Bounds-root units l h r = elim (dec_lt h.hh_size units) [
  | yes lt ↦ inl lt
  | no enough ↦ inr (omega arith, inl (omega arith))
]

find_best-Found :
    (t : Tree) (units : ℕ) (path : List Direction) (b : Best)
    → IsOrdered t
    → Bounds units b t
    → Found units t path b (find_best t units path b)
unfolding find_best fragment_at
find_best-Found leaf units path b o bound = inl (refl, tt)
find_best-Found (node l h r) units path b o bound =
    let here : Best = record { best = h; b_path = path } in
    let below = Bounds-left units b l h r bound in
    elim (Bool-cases (ltb units h.hh_size)) [
      | inl more ↦
          let lt = ltb→lt units h.hh_size more in
          let step : find_best l units (path ++ (mp_hh_l ∷ [])) here
              ≡ find_best (node l h r) units path b =
            rw (more, better_of_le units h b.best (omega arith) below) refl in
          subst (λ x. Found units (node l h r) path b x) step
            (Found-left l h r units path b _ (omega arith) o (
              find_best-Found l units (path ++ (mp_hh_l ∷ [])) here o.2
                (Bounds-of_AtMost units here l o.0)))
      | inr enough ↦ elim (Bool-cases (ltb h.hh_size units)) [
        | inl less ↦
            let lt = ltb→lt h.hh_size units less in
            let step : find_best r units (path ++ (mp_hh_r ∷ [])) b
                ≡ find_best (node l h r) units path b =
              rw (enough, less, better_of_lt units h b.best lt) refl in
            subst (λ x. Found units (node l h r) path b x) step
              (Found-right l h r units path b _ lt o (
                find_best-Found r units (path ++ (mp_hh_r ∷ [])) b o.3
                  (Bounds-right units b l h r lt bound)))
        | inr exact ↦
            let same : h.hh_size ≡ units = ground arith in
            let step : here ≡ find_best (node l h r) units path b =
              rw (enough, exact, better_of_le units h b.best (omega arith) below) refl in
            subst (λ x. Found units (node l h r) path b x) step
              (inr (
                [],
                sym (append-nil path),
                refl,
                (
                  omega arith,
                  (Each-of_eq units h l same, inr (omega arith), Each-of_eq units h r same),
                ),
              ))
      ]
    ]

-- The outcome of `mp_heap_btree_find_delete` on `t`: NULL and only fragments that are too small, or
-- a best fit, and in the tree that is left the others in order.
abbrev pub BestFit : Weight → ℕ → Tree → Option (Fragment × Tree) → Type 0
BestFit w units t none = Each (λ x. x.hh_size < units) t
BestFit w units t (some (h, rest)) =
    Fits units h t × IsOrdered rest × (weight w t ≡ w h + weight w rest)

BestFit-of_Found :
    (w : Weight) (units : ℕ) (t : Tree) (h : Fragment) (b : Best)
    → IsOrdered t
    → fragment_at t [] ≡ some h
    → Found units t [] (record { best = h; b_path = [] }) b
    → BestFit w units t
        (if ltb b.best.hh_size units then none else some (b.best, mp_heap_btree_delete t b.b_path))
BestFit-of_Found w units t h b o root (inl (same, small)) =
    let tiny : h.hh_size < units = Each-fragment_at (λ x. x.hh_size < units) t [] h small root in
    subst
      (λ (x : Best).
        BestFit w units t (
          if ltb x.best.hh_size units
          then none
          else some (x.best, mp_heap_btree_delete t x.b_path)))
      (sym same) (rw (lt→ltb h.hh_size units tiny) small)
BestFit-of_Found w units t h b o root (inr (q, at_path, at, fits)) =
    let enough : ltb b.best.hh_size units ≡ false = ground (arith, fits.0) in
    let here : fragment_at t b.b_path ≡ some b.best = rw at_path at in
    subst
      (λ (x : Bool).
        BestFit w units t (if x then none else some (b.best, mp_heap_btree_delete t b.b_path)))
      (sym enough)
      (
        fits,
        mp_heap_btree_delete-IsOrdered t b.b_path o,
        weight-mp_heap_btree_delete w t b.b_path b.best here,
      )

-- On a free tree that is ordered by size, mp_heap_btree_find_delete returns NULL exactly when every
-- fragment is too small; otherwise it returns a fragment that is large enough and no larger than
-- any other that is, and leaves an ordered tree with all the other fragments: every weight of
-- fragments adds up to that of the result and of the tree that is left.
pub mp_heap_btree_find_delete-BestFit :
    (w : Weight) (units : ℕ) (t : Tree)
    → IsOrdered t
    → BestFit w units t (mp_heap_btree_find_delete t units)
unfolding mp_heap_btree_find_delete fragment_at
mp_heap_btree_find_delete-BestFit w units leaf o = tt
mp_heap_btree_find_delete-BestFit w units (node l h r) o =
    let start : Best = record { best = h; b_path = [] } in
    BestFit-of_Found w units (node l h r) h (find_best (node l h r) units [] start) o refl
      (find_best-Found (node l h r) units [] start o (Bounds-root units l h r))
