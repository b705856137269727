-- ===== src/SyncQueue/Destroy.antt =====
-- What `squeue_destroy` of lib/libtscommon/src/syncqueue.c frees.
use v_perf_generator.SyncQueue.{SQueue, squeue_pop, free_until, squeue_destroy}
use v_perf_generator.SyncQueue.Fifo.{pop-Queued, Pops, Linked, Queued}
use v_perf_generator.Common.{
  ◌≤◌, ap, ◌<◌, ◌≤◌, ◌≡◌, ◌∷◌, ℕ, zero, true, sym, suc, some, refl, map, length, arith, [], List,
  ==_self, ==_of_ne, ◌<◌,
}
use v_perf_generator.Common.Memory.{Fresh-last, last, Distinct, Chain, Pointer}

abbrev pub but_last : ℕ → List ℕ → List ℕ
but_last o [] = []
but_last o (p ∷ os) = o ∷ but_last p os

-- One object is freed; of several the last is not.
abbrev pub freed_of : List ℕ → List ℕ
freed_of [] = []
freed_of (o ∷ []) = o ∷ []
freed_of (o ∷ p ∷ os) = but_last o (p ∷ os)

free_to_tail :
    (sq : SQueue) (fuel x : ℕ) (ptr : Pointer) (xs : List ℕ)
    → Chain sq.s_next ptr (x ∷ xs)
    → Distinct (x ∷ xs)
    → sq.sq_tail ≡ some (last x xs)
    → length (x ∷ xs) ≤ fuel
    → free_until fuel sq ptr ≡ some (but_last (sq.s_data x) (map sq.s_data xs))
unfolding free_until
free_to_tail sq zero x ptr xs c d t h = absurd (omega arith)
free_to_tail sq (suc fuel) x ptr [] c d t h = rw (c.0, t, ==_self x, free_until) refl
free_to_tail sq (suc fuel) x ptr (y ∷ ys) c d t h =
    rw
      (
        c.0,
        t,
        ==_of_ne x (last y ys) (λ e. Fresh-last x y ys d.0 (sym e)),
        free_to_tail sq fuel y (sq.s_next x) ys c.1 d.1 t (omega arith),
        free_until,
      )
      refl

map-length : (f : ℕ → ℕ) (xs : List ℕ) → length (map f xs) ≡ length xs
map-length f [] = refl
map-length f (x ∷ xs) = ap suc (map-length f xs)

freed :
    (sq : SQueue) (els : List ℕ) (fuel : ℕ)
    → Linked sq els
    → length els < fuel
    → free_until fuel sq sq.sq_head ≡ some (freed_of (map sq.s_data els))
unfolding free_until
freed sq els zero l h = absurd (omega arith)
freed sq [] (suc fuel) l h = rw (l.chain, l.tail, free_until) refl
freed sq (x ∷ []) (suc zero) l h = absurd (omega arith)
freed sq (x ∷ []) (suc (suc fuel)) l h = rw (l.chain.0, l.tail, l.chain.1, l.tail, free_until) refl
freed sq (x ∷ y ∷ ys) (suc fuel) l h =
    free_to_tail sq (suc fuel) x sq.sq_head (y ∷ ys) l.chain l.distinct l.tail (omega arith)

-- `squeue_destroy` frees a lone object; of several objects it frees all in order but the last one,
-- which it leaks. It only marks the queue: the head stays, so a `squeue_pop` that does not wait hands
-- out the first object again, although that has been freed.
pub destroy-Queued :
    (sq : SQueue) (els objects : List ℕ) (fuel : ℕ)
    → Queued sq els objects
    → length els < fuel
    → (squeue_destroy fuel sq ≡ some (freed_of objects, record sq { sq_is_destroyed = true }))
      × Pops objects (squeue_pop (record sq { sq_is_destroyed = true }))
unfolding squeue_destroy
destroy-Queued sq els objects fuel (l, d) h = (
  rw (freed sq els fuel l h, d, squeue_destroy) refl,
  pop-Queued (record sq { sq_is_destroyed = true }) els objects
      (record { chain = l.chain; distinct = l.distinct; tail = l.tail }, d),
)
