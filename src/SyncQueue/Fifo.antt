-- ===== src/SyncQueue/Fifo.antt =====
-- A queue is the list of its objects, oldest first: lib/libtscommon/src/syncqueue.c.
use mathlib.Core.List.{map-append}
use v_perf_generator.SyncQueue.{
  squeue_link, ptr_eq, is_null, SQueue, Popped, pop_waits, pop_object, squeue_pop, squeue_push,
}
use v_perf_generator.Common.{
  ◌≡◌, ◌∙◌, sym, not, if◌then◌else◌, false, ap, ==_self, ==_of_ne, ◌++◌, ◌&&◌, ◌≡◌, ◌∷◌, ℕ, some,
  refl, none, map, [], List, ◌++◌,
}
use v_perf_generator.Common.Memory.{
  Distinct-append, Chain-update, Fresh-last, Chain-link, update, last, Distinct, Pointer, Fresh,
  Chain,
}

-- `sq_tail` is set only from the second element on.
abbrev pub tail_of : List ℕ → Pointer
tail_of [] = none
tail_of (x ∷ []) = none
tail_of (x ∷ y ∷ ys) = some (last y ys)

-- The elements of a queue.
pub record Linked (sq : SQueue) (els : List ℕ) : Type 0 where
  pub chain : Chain sq.s_next sq.sq_head els
  pub distinct : Distinct els
  pub tail : sq.sq_tail ≡ tail_of els

-- Its objects.
abbrev pub Queued : SQueue → List ℕ → List ℕ → Type 0
Queued sq els objects = Linked sq els × (map sq.s_data els ≡ objects)

map-update : (f : ℕ → ℕ) (a v : ℕ) (xs : List ℕ) → Fresh a xs → map (update f a v) xs ≡ map f xs
map-update f a v [] h = refl
map-update f a v (x ∷ xs) h =
    rw (==_of_ne a x (λ e. h.0 (sym e))) (ap (◌∷◌ (f x)) (map-update f a v xs h.1))

last-append : (x a : ℕ) (xs : List ℕ) → last x (xs ++ (a ∷ [])) ≡ a
last-append x a [] = refl
last-append x a (y ∷ ys) = last-append y a ys

data-append :
    (f : ℕ → ℕ) (a v : ℕ) (xs os : List ℕ)
    → Fresh a xs
    → map f xs ≡ os
    → map (update f a v) (xs ++ (a ∷ [])) ≡ os ++ (v ∷ [])
data-append f a v xs os h e =
    map-append (update f a v) xs (a ∷ []) ∙ rw (map-update f a v xs h, ==_self a, e)

-- A new element, with NULL behind it, in the memory of a queue.
abbrev entered : SQueue → ℕ → ℕ → SQueue
entered sq el object = record sq {
  s_next = update sq.s_next el none;
  s_data = update sq.s_data el object;
}

link-Linked :
    (sq : SQueue) (el object : ℕ) (els : List ℕ)
    → Linked sq els
    → Fresh el els
    → Linked (squeue_link (entered sq el object) el sq.sq_head sq.sq_tail).0 (els ++ (el ∷ []))
      × ((squeue_link (entered sq el object) el sq.sq_head sq.sq_tail).0.s_data
          ≡ update sq.s_data el object)
      × ((squeue_link (entered sq el object) el sq.sq_head sq.sq_tail).1 ≡ is_null sq.sq_head)
      × ((is_null sq.sq_head && not (is_null sq.sq_tail)) ≡ false)
unfolding squeue_link
link-Linked sq el object [] l f =
    rw (l.chain, l.tail)
      (
        record { chain = (refl, rw (==_self el) refl); distinct = (tt, tt); tail = refl },
        refl,
        refl,
        refl,
      )
link-Linked sq el object (x ∷ []) l f =
    rw (l.chain.0, l.tail)
      (
        record {
          chain =
              Chain-link (update sq.s_next el none) el x _ [] (rw (==_self el) refl) f l.distinct
                (Chain-update sq.s_next el none _ (x ∷ []) f (refl, l.chain.1));
          distinct = Distinct-append (x ∷ []) el l.distinct f;
          tail = refl;
        },
        refl,
        refl,
        refl,
      )
link-Linked sq el object (x ∷ y ∷ ys) l f =
    rw (l.chain.0, l.tail)
      (
        record {
          chain =
              Chain-link (update sq.s_next el none) el x _ (y ∷ ys) (rw (==_self el) refl) f
                l.distinct (Chain-update sq.s_next el none _ (x ∷ y ∷ ys) f (refl, l.chain.1));
          distinct = Distinct-append (x ∷ y ∷ ys) el l.distinct f;
          tail = ap some (sym (last-append y el ys));
        },
        refl,
        refl,
        refl,
      )

-- `squeue_push` puts its object behind the others, in any memory where the new element is not one of
-- the queue; it notifies the event exactly if the queue was empty, and its assertion holds.
pub push-Queued :
    (sq : SQueue) (els objects : List ℕ) (el object : ℕ)
    → Queued sq els objects
    → Fresh el els
    → (sq' : SQueue) × (squeue_push sq el object ≡ some (sq', is_null sq.sq_head))
      × Queued sq' (els ++ (el ∷ [])) (objects ++ (object ∷ []))
unfolding squeue_push
push-Queued sq els objects el object (l, d) f =
    let (l', data_, told, safe) = link-Linked sq el object els l f in
    (
      (squeue_link (entered sq el object) el sq.sq_head sq.sq_tail).0,
      rw (safe, ← told),
      (l', rw data_ (data-append sq.s_data el object els objects f d)),
    )

pop-Linked :
    (sq : SQueue) (x : ℕ) (els : List ℕ)
    → Linked sq (x ∷ els)
    → Linked
        (record sq {
          sq_head = sq.s_next x;
          sq_tail = if ptr_eq sq.sq_tail (sq.s_next x) then none else sq.sq_tail;
        })
        els
pop-Linked sq x [] l = record {
  chain = l.chain.1;
  distinct = tt;
  tail = rw (l.tail, l.chain.1) refl;
}
pop-Linked sq x (y ∷ []) l = record {
  chain = l.chain.1;
  distinct = l.distinct.1;
  tail = rw (l.tail, l.chain.1.0, ==_self y) refl;
}
pop-Linked sq x (y ∷ z ∷ zs) l = record {
  chain = l.chain.1;
  distinct = l.distinct.1;
  tail = rw (l.tail, l.chain.1.0, ==_of_ne (last z zs) y (Fresh-last y z zs l.distinct.1.0)) refl;
}

-- What `squeue_pop` must do with a list of objects.
abbrev pub Pops : List ℕ → Popped → Type 0
Pops [] p = p ≡ pop_waits
Pops (o ∷ objects) p =
    (sq' : SQueue) × (els' : List ℕ) × (p ≡ pop_object o sq') × Queued sq' els' objects

-- `squeue_pop` hands out the oldest object and leaves the others, and waits exactly if there is none.
pub pop-Queued :
    (sq : SQueue) (els objects : List ℕ) → Queued sq els objects → Pops objects (squeue_pop sq)
unfolding squeue_pop
pop-Queued sq [] [] (l, d) = rw (l.chain, squeue_pop) refl
pop-Queued sq [] (o ∷ objects) (l, d) = cc
pop-Queued sq (x ∷ els) [] (l, d) = cc
pop-Queued sq (x ∷ els) (o ∷ objects) (l, d) =
    let first : sq.s_data x ≡ o = cc in
    let others : map sq.s_data els ≡ objects = cc in
    (
      record sq {
        sq_head = sq.s_next x;
        sq_tail = if ptr_eq sq.sq_tail (sq.s_next x) then none else sq.sq_tail;
      },
      els,
      rw (l.chain.0, first, squeue_pop) refl,
      (pop-Linked sq x els l, others),
    )
