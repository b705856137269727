-- ===== src/CircularList/Change.antt =====
-- Additions and deletions keep the ring and do to the list what their names say.
use v_perf_generator.CircularList.{
  Links, add_between, list_add, list_add_tail, del_entry, list_del, list_move_tail,
  list_rotate_left, list_empty, list_poison1, list_poison2,
}
use v_perf_generator.CircularList.Add.{add_first, add_last}
use v_perf_generator.CircularList.Join.{del_entry-Linked}
use v_perf_generator.CircularList.Ring.{
  Linked, Ring, Linked-with_next, Linked-with_prev, prev-last, Fresh_of_append,
}
use v_perf_generator.Common.{
  true, false, ◌==◌, ℕ, ℕ, ◌≡◌, ◌≢◌, List, [], ◌∷◌, ◌++◌, sym, ==_of_ne, ==_self, subst,
}
use v_perf_generator.Common.Memory.{Fresh, Distinct, Fresh-append, Distinct-append}

-- The nodes that are left when one is taken out.
Distinct-without :
    (e : ℕ) (xs ys : List ℕ) → Distinct (xs ++ (e ∷ ys)) → Distinct (xs ++ ys) × Fresh e (xs ++ ys)
Distinct-without e [] ys d = (d.1, d.0)
Distinct-without e (x ∷ xs) ys d =
    let (rest, apart) = Distinct-without e xs ys d.1 in
    let (fx, fe) = Fresh_of_append x xs (e ∷ ys) d.0 in
    ((Fresh-append x xs ys fx fe.1, rest), ((λ eq. fe.0 (sym eq)), apart))

Fresh-without : (a e : ℕ) (xs ys : List ℕ) → Fresh a (xs ++ (e ∷ ys)) → Fresh a (xs ++ ys) × (e ≢ a)
Fresh-without a e xs ys f =
    let (left, right) = Fresh_of_append a xs (e ∷ ys) f in
    (Fresh-append a xs ys left right.1, right.0)

pub del_entry-Ring :
    (l : Links) (head e : ℕ) (xs ys : List ℕ)
    → Ring l head (xs ++ (e ∷ ys))
    → Ring (del_entry l e) head (xs ++ ys)
del_entry-Ring l head e xs ys ring =
    let (apart, ne) = Fresh-without head e xs ys ring.fresh in
    record {
      linked =
          del_entry-Linked l head e head xs ys ring.linked ne ring.fresh ring.fresh ring.distinct;
      distinct = (Distinct-without e xs ys ring.distinct).0;
      fresh = apart;
    }

-- list_del of an entry of a list takes it out of the list and leaves the others in their order,
-- linked both ways.
pub list_del-Ring :
    (l : Links) (head e : ℕ) (xs ys : List ℕ)
    → Ring l head (xs ++ (e ∷ ys))
    → Ring (list_del l e) head (xs ++ ys)
unfolding list_del
list_del-Ring l head e xs ys ring =
    let rest = del_entry-Ring l head e xs ys ring in
    let ne = (Fresh-without head e xs ys ring.fresh).1 in
    let out = (Distinct-without e xs ys ring.distinct).1 in
    record {
      linked =
          Linked-with_prev _ e list_poison2 head head (xs ++ ys) ne out
            (Linked-with_next _ e list_poison1 head head (xs ++ ys) ne out rest.linked);
      distinct = rest.distinct;
      fresh = rest.fresh;
    }

pub list_add-Ring :
    (l : Links) (node head : ℕ) (xs : List ℕ)
    → Ring l head xs
    → node ≢ head
    → Fresh node xs
    → Ring (list_add l node head) head (node ∷ xs)
unfolding list_add
list_add-Ring l node head xs ring ne out = record {
  linked = add_first l node head head xs ring.linked ne ne out ring.fresh ring.fresh ring.distinct;
  distinct = (out, ring.distinct);
  fresh = (ne, ring.fresh);
}

pub list_add_tail-Ring :
    (l : Links) (node head : ℕ) (xs : List ℕ)
    → Ring l head xs
    → node ≢ head
    → Fresh node xs
    → Ring (list_add_tail l node head) head (xs ++ (node ∷ []))
unfolding list_add_tail
list_add_tail-Ring l node head xs ring ne out = record {
  linked =
      subst (λ z. Linked (add_between l node z head) head (xs ++ (node ∷ [])) head)
        (sym (prev-last l head head xs ring.linked))
        (add_last l node head head xs ring.linked ne ne out ring.fresh ring.fresh ring.distinct);
  distinct = Distinct-append xs node ring.distinct out;
  fresh = Fresh-append head xs (node ∷ []) ring.fresh (ne, tt);
}

pub list_move_tail-Ring :
    (l : Links) (e head : ℕ) (xs ys : List ℕ)
    → Ring l head (xs ++ (e ∷ ys))
    → Ring (list_move_tail l e head) head ((xs ++ ys) ++ (e ∷ []))
unfolding list_move_tail
list_move_tail-Ring l e head xs ys ring =
    list_add_tail-Ring (del_entry l e) e head (xs ++ ys) (del_entry-Ring l head e xs ys ring)
      (Fresh-without head e xs ys ring.fresh).1 (Distinct-without e xs ys ring.distinct).1

abbrev pub rotated : List ℕ → List ℕ
rotated [] = []
rotated (x ∷ xs) = xs ++ (x ∷ [])

-- list_rotate_left leaves an empty list as it is, and brings the first node of another one to its
-- end; the list stays linked both ways.
pub list_rotate_left-Ring :
    (l : Links) (head : ℕ) (xs : List ℕ)
    → Ring l head xs
    → Ring (list_rotate_left l head) head (rotated xs)
unfolding list_rotate_left list_empty
list_rotate_left-Ring l head [] ring =
    let empty : (l.next head == head) ≡ true = rw ring.linked.0 (==_self head) in rw empty ring
list_rotate_left-Ring l head (x ∷ xs) ring =
    let some_node : (l.next head == head) ≡ false =
      rw ring.linked.0 (==_of_ne x head ring.fresh.0) in
    let moved = list_move_tail-Ring l x head [] xs ring in rw (some_node, ring.linked.0) moved
