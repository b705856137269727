-- ===== src/CircularList/Join.antt =====
-- What `join` takes out.
use v_perf_generator.CircularList.{Links, with_prev, join, del_entry}
use v_perf_generator.CircularList.Ring.{
  Linked, Linked-with_next, Linked-with_prev, Linked-append, prev-last, Fresh_of_append,
}
use v_perf_generator.Common.{subst, ℕ, ℕ, ◌≡◌, ◌≢◌, List, [], ◌∷◌, ◌++◌, sym, arith, subst}
use v_perf_generator.Common.Memory.{last, Fresh-last, Fresh, Distinct}

-- Deletion of the entry between two parts.
join_first :
    (l : Links) (a e b : ℕ) (ys : List ℕ)
    → Linked l a (e ∷ ys) b
    → e ≢ b
    → Fresh a ys
    → Fresh b ys
    → Distinct ys
    → Linked (join l a (l.next e)) a ys b
unfolding join
join_first l a e b [] (out, back, (out', back')) eb af bf d = rw out' (ground arith, ground arith)
join_first l a e b (y ∷ ys) (out, back, (out', back', rest)) eb af bf d =
    let there =
      Linked-with_next (with_prev l y a) a y y b ys (λ eq. af.0 (sym eq)) af.1
        (Linked-with_prev l y a y b ys bf.0 d.0 rest) in
    subst (λ z. Linked (join l a z) a (y ∷ ys) b) (sym out') (ground arith, ground arith, there)

next_apart :
    (l : Links) (e b x : ℕ) (ys : List ℕ) → x ≢ b → Fresh x ys → Linked l e ys b → x ≢ l.next e
next_apart l e b x [] xb f (out, back) = rw out xb
next_apart l e b x (y ∷ ys) xb f (out, back, rest) = rw out (λ eq. f.0 (sym eq))

join_keeps :
    (l : Links) (before behind a x : ℕ)
    → before ≢ a
    → x ≢ behind
    → (l.next a ≡ x) × (l.prev x ≡ a)
    → ((join l before behind).next a ≡ x) × ((join l before behind).prev x ≡ a)
unfolding join
join_keeps l before behind a x ba xb (out, back) = (ground arith, ground arith)

join-Linked :
    (l : Links) (a e b : ℕ) (xs ys : List ℕ)
    → Linked l a (xs ++ (e ∷ ys)) b
    → e ≢ b
    → Fresh a (xs ++ (e ∷ ys))
    → Fresh b (xs ++ (e ∷ ys))
    → Distinct (xs ++ (e ∷ ys))
    → Linked (join l (last a xs) (l.next e)) a (xs ++ ys) b
join-Linked l a e b [] ys linked eb af bf d = join_first l a e b ys linked eb af.1 bf.1 d.1
join-Linked l a e b (x ∷ xs) ys (out, back, rest) eb af bf d =
    let (left, right) = Linked-append l x e b xs ys rest in
    let (fx, fe) = Fresh_of_append x xs (e ∷ ys) d.0 in
    let (fa, fe') = Fresh_of_append a xs (e ∷ ys) af.1 in
    let kept =
      join_keeps l (last x xs) (l.next e) a x (Fresh-last a x xs (af.0, fa))
        (next_apart l e b x ys bf.0 fe.1 right) (out, back) in
    (kept.0, kept.1, join-Linked l x e b xs ys rest eb d.0 bf.1 d.1)

pub del_entry-Linked :
    (l : Links) (a e b : ℕ) (xs ys : List ℕ)
    → Linked l a (xs ++ (e ∷ ys)) b
    → e ≢ b
    → Fresh a (xs ++ (e ∷ ys))
    → Fresh b (xs ++ (e ∷ ys))
    → Distinct (xs ++ (e ∷ ys))
    → Linked (del_entry l e) a (xs ++ ys) b
unfolding del_entry
del_entry-Linked l a e b xs ys linked eb af bf d =
    let (left, right) = Linked-append l a e b xs ys linked in
    subst (λ z. Linked (join l z (l.next e)) a (xs ++ ys) b) (sym (prev-last l a e xs left))
      (join-Linked l a e b xs ys linked eb af bf d)
