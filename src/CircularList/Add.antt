-- ===== src/CircularList/Add.antt =====
-- Where `add_between` puts a node.
use v_perf_generator.CircularList.{Links, add_between}
use v_perf_generator.CircularList.Ring.{Linked, Linked-with_next, Linked-with_prev, append-Linked}
use v_perf_generator.Common.{subst, subst, ℕ, ℕ, ◌≡◌, ◌≢◌, List, [], ◌∷◌, ◌++◌, sym, arith, subst}
use v_perf_generator.Common.Memory.{last, Fresh-last, Fresh, Distinct}

-- A new node between two parts.
add_between-Linked :
    (l : Links) (node a b : ℕ)
    → l.next a ≡ b
    → l.prev b ≡ a
    → node ≢ a
    → node ≢ b
    → Linked (add_between l node a b) a (node ∷ []) b
unfolding add_between
add_between-Linked l node a b out back na nb =
    (ground arith, ground arith, (ground arith, ground arith))

-- A part that the writes spare: it starts elsewhere than at `before` and ends elsewhere than at
-- `behind`.
add_between-frame :
    (l : Links) (node before behind a b : ℕ) (xs : List ℕ)
    → node ≢ a
    → node ≢ b
    → Fresh node xs
    → before ≢ a
    → Fresh before xs
    → behind ≢ b
    → Fresh behind xs
    → Linked l a xs b
    → Linked (add_between l node before behind) a xs b
unfolding add_between
add_between-frame l node before behind a b xs na nb nf ba bf eb ef linked =
    Linked-with_next _ before node a b xs ba bf (
      Linked-with_prev _ node before a b xs nb nf (
        Linked-with_next _ node behind a b xs na nf
          (Linked-with_prev _ behind node a b xs eb ef linked)))

-- The node stands first.
pub add_first :
    (l : Links) (node a b : ℕ) (xs : List ℕ)
    → Linked l a xs b
    → node ≢ a
    → node ≢ b
    → Fresh node xs
    → Fresh a xs
    → Fresh b xs
    → Distinct xs
    → Linked (add_between l node a (l.next a)) a (node ∷ xs) b
add_first l node a b [] (out, back) na nb nf af bf d =
    rw out (add_between-Linked l node a b out back na nb)
add_first l node a b (x ∷ xs) (out, back, rest) na nb nf af bf d =
    let here = add_between-Linked l node a x out back na (λ e. nf.0 (sym e)) in
    let there =
      add_between-frame l node a x x b xs (λ e. nf.0 (sym e)) nb nf.1 (λ e. af.0 (sym e)) af.1 bf.0
        d.0 rest in
    subst (λ z. Linked (add_between l node a z) a (node ∷ x ∷ xs) b) (sym out)
      (append-Linked (add_between l node a x) a x b (node ∷ []) xs here there)

add_last_next :
    (l : Links) (node before b a x : ℕ)
    → node ≢ a
    → before ≢ a
    → l.next a ≡ x
    → (add_between l node before b).next a ≡ x
unfolding add_between
add_last_next l node before b a x na ba out = ground arith

add_last_prev :
    (l : Links) (node before b a x : ℕ)
    → x ≢ b
    → x ≢ node
    → l.prev x ≡ a
    → (add_between l node before b).prev x ≡ a
unfolding add_between
add_last_prev l node before b a x xb xn back = ground arith

-- The node stands last.
pub add_last :
    (l : Links) (node a b : ℕ) (xs : List ℕ)
    → Linked l a xs b
    → node ≢ a
    → node ≢ b
    → Fresh node xs
    → Fresh a xs
    → Fresh b xs
    → Distinct xs
    → Linked (add_between l node (last a xs) b) a (xs ++ (node ∷ [])) b
add_last l node a b [] (out, back) na nb nf af bf d = add_between-Linked l node a b out back na nb
add_last l node a b (x ∷ xs) (out, back, rest) na nb nf af bf d =
    let keep = add_last l node x b xs rest (λ e. nf.0 (sym e)) nb nf.1 d.0 bf.1 d.1 in
    let other = Fresh-last a x xs af in
    let behind = bf.0 in
    let apart = nf.0 in
    (
      add_last_next l node (last x xs) b a x na other out,
      add_last_prev l node (last x xs) b a x behind apart back,
      keep,
    )
