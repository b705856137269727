-- ===== src/CircularList/Splice.antt =====
-- Two lists joined into one.
use v_perf_generator.CircularList.{
  splice_ends, Links, with_next, with_prev, list_splice, splice_between, list_empty,
}
use v_perf_generator.CircularList.Ring.{
  Linked, Ring, Linked-with_next, Linked-with_prev, append-Linked, prev-last,
}
use v_perf_generator.Common.{
  true, false, append-nil, ◌==◌, ℕ, ℕ, ◌≡◌, ◌≢◌, List, [], ◌∷◌, ◌++◌, All, sym, arith, ==_of_ne,
  ==_self, subst, ap, append-nil,
}
use v_perf_generator.Common.Memory.{last, Fresh-last, Fresh, Distinct, Fresh-append}

-- No node is in both lists.
abbrev pub Apart : List ℕ → List ℕ → Type 0
Apart xs ys = All (λ x. Fresh x ys) xs

Apart-last : (x : ℕ) (xs ys : List ℕ) → Apart (x ∷ xs) ys → Fresh (last x xs) ys
Apart-last x [] ys a = a.0
Apart-last x (y ∷ xs) ys a = Apart-last y xs ys a.1

Distinct-of_Apart : (xs ys : List ℕ) → Distinct xs → Distinct ys → Apart xs ys → Distinct (xs ++ ys)
Distinct-of_Apart [] ys d e a = e
Distinct-of_Apart (x ∷ xs) ys d e a =
    (Fresh-append x xs ys d.0 a.0, Distinct-of_Apart xs ys d.1 e a.1)

Fresh_of_Apart : (y : ℕ) (xs zs : List ℕ) → Apart xs (y ∷ zs) → Fresh y xs
Fresh_of_Apart y [] zs a = tt
Fresh_of_Apart y (x ∷ xs) zs a = ((λ e. a.0.0 (sym e)), Fresh_of_Apart y xs zs a.1)

-- The first node gets another node before it.
new_start :
    (l : Links) (old a x e : ℕ) (xs : List ℕ)
    → Linked l old (x ∷ xs) e
    → x ≢ e
    → Fresh a (x ∷ xs)
    → Fresh x xs
    → Linked (with_next (with_prev l x a) a x) a (x ∷ xs) e
new_start l old a x e xs (out, back, rest) xe af xf = (
  ground arith,
  ground arith,
  Linked-with_next (with_prev l x a) a x x e xs (λ eq. af.0 (sym eq)) af.1
      (Linked-with_prev l x a x e xs xe xf rest),
)

-- The last node gets another node behind it.
new_end :
    (l : Links) (a old b : ℕ) (xs : List ℕ)
    → Linked l a xs old
    → Fresh a xs
    → Fresh b xs
    → Distinct xs
    → Linked (with_prev (with_next l (last a xs) b) b (last a xs)) a xs b
new_end l a old b [] (out, back) af bf d = (ground arith, ground arith)
new_end l a old b (x ∷ xs) (out, back, rest) af bf d =
    let other = Fresh-last a x xs af in
    let behind = bf.0 in (ground arith, ground arith, new_end l x old b xs rest d.0 bf.1 d.1)

module _ (l : Links) (list a b x : ℕ) (xs : List ℕ) (spliced : Linked l list (x ∷ xs) list)
    (fresh : Fresh list (x ∷ xs)) (a_out : Fresh a (x ∷ xs)) (b_out : Fresh b (x ∷ xs))
    (distinct : Distinct (x ∷ xs)) where
  -- Both ends of the list that is put between `a` and `behind`.
  ends :
      (behind : ℕ)
      → Fresh behind (x ∷ xs)
      → Linked (splice_ends l x (last x xs) a behind) a (x ∷ xs) behind
  unfolding splice_ends
  ends behind out =
      new_end (with_next (with_prev l x a) a x) a list behind (x ∷ xs)
        (new_start l list a x list xs spliced fresh.0 a_out distinct.0) a_out out distinct

  -- The nodes behind it.
  rest_of :
      (y : ℕ) (zs : List ℕ)
      → Linked l y zs b
      → a ≢ y
      → Fresh a zs
      → y ≢ b
      → Fresh y zs
      → Apart (x ∷ xs) (y ∷ zs)
      → Linked (splice_ends l x (last x xs) a y) y zs b
  unfolding splice_ends
  rest_of y zs rest ay af yb yf ap =
      let z = last x xs in
      let z_out = Apart-last x xs (y ∷ zs) ap in
      Linked-with_prev _ y z y b zs yb yf (
        Linked-with_next _ z y y b zs (λ e. z_out.0 (sym e)) z_out.1
          (Linked-with_next _ a x y b zs ay af (Linked-with_prev l x a y b zs b_out.0 ap.0.1 rest)))

  joined_at :
      (ys : List ℕ)
      → Linked l a ys b
      → Apart (x ∷ xs) ys
      → Fresh a ys
      → Fresh b ys
      → Distinct ys
      → Linked (splice_ends l x (last x xs) a (l.next a)) a (x ∷ (xs ++ ys)) b
  joined_at [] (out, back) ap af bf d =
      subst (λ z. Linked (splice_ends l x (last x xs) a z) a (x ∷ (xs ++ [])) b) (sym out)
        (subst (λ ns. Linked (splice_ends l x (last x xs) a b) a (x ∷ ns) b) (sym (append-nil xs))
          (ends b b_out))
  joined_at (y ∷ zs) (out, back, rest) ap af bf d =
      subst (λ z. Linked (splice_ends l x (last x xs) a z) a (x ∷ (xs ++ (y ∷ zs))) b) (sym out)
        (append-Linked (splice_ends l x (last x xs) a y) a y b (x ∷ xs) zs
          (ends y (Fresh_of_Apart y (x ∷ xs) zs ap))
          (rest_of y zs rest (λ e. af.0 (sym e)) af.1 bf.0 d.0 ap))

  joined :
      (ys : List ℕ)
      → Linked l a ys b
      → Apart (x ∷ xs) ys
      → Fresh a ys
      → Fresh b ys
      → Distinct ys
      → Linked (splice_between l list a (l.next a)) a (x ∷ (xs ++ ys)) b
  unfolding splice_between
  joined ys linked ap af bf d =
      subst (λ f. Linked (splice_ends l f (l.prev list) a (l.next a)) a (x ∷ (xs ++ ys)) b)
        (sym spliced.0)
        (subst (λ z. Linked (splice_ends l x z a (l.next a)) a (x ∷ (xs ++ ys)) b)
          (sym (prev-last l list list (x ∷ xs) spliced)) (joined_at ys linked ap af bf d))

-- list_splice onto the head of a list puts the nodes of the other list, when there are any, in front
-- of its own, in their order, as long as the two share no node and no head.
pub list_splice-Ring :
    (l : Links) (list head : ℕ) (xs ys : List ℕ)
    → Ring l list xs
    → Ring l head ys
    → Fresh head xs
    → Apart xs ys
    → Ring (list_splice l list head) head (xs ++ ys)
unfolding list_splice list_empty
list_splice-Ring l list head [] ys spliced target out apart =
    let empty : (l.next list == list) ≡ true = rw spliced.linked.0 (==_self list) in rw empty target
list_splice-Ring l list head (x ∷ xs) ys spliced target out apart =
    let some_node : (l.next list == list) ≡ false =
      rw spliced.linked.0 (==_of_ne x list spliced.fresh.0) in
    rw some_node (record {
      linked =
          joined l list head head x xs spliced.linked spliced.fresh out out spliced.distinct ys
            target.linked apart target.fresh target.fresh target.distinct;
      distinct = Distinct-of_Apart (x ∷ xs) ys spliced.distinct target.distinct apart;
      fresh = Fresh-append head (x ∷ xs) ys out target.fresh;
    })
