-- ===== src/SyncQueue/Wakeup.antt =====
-- Consumers that wait for a queue: lib/libtscommon/src/syncqueue.c under interleaving.
use v_perf_generator.SyncQueue.{
  ptr_eq, is_null, SQueue, pop_object, pop_waits, squeue_pop, squeue_push,
}
use v_perf_generator.Common.{
  ◌≢◌, refl, if◌then◌else◌, ==_self, ◌≢◌, ◌≡◌, zero, suc, All, ◌≡◌, ◌∷◌, ℕ, true, some, set, none,
  get_elem?, false, arith, [], List, Bool, All,
}
use v_perf_generator.Common.Memory.{update, Pointer}

-- A consumer runs, or waits for `sq_event` inside `squeue_pop`.
pub data Consumer : Type 0 where
  consumer_ready consumer_waiting : Consumer

pub record System : Type 0 where
  pub queue : SQueue
  pub consumers : List Consumer

-- One call of `squeue_push`, whose notification wakes some waiting consumer, if there is one; the
-- locked part of `squeue_pop` in some consumer that runs; or a wake-up for no reason.
pub data Step : System → System → Type 0 where
  push_wakes :
      (s : System) (q : SQueue) (el object i : ℕ)
      → squeue_push s.queue el object ≡ some (q, true)
      → get_elem? s.consumers i ≡ some consumer_waiting
      → Step s (record { queue = q; consumers = set s.consumers i consumer_ready })
  push_unheard :
      (s : System) (q : SQueue) (el object : ℕ)
      → squeue_push s.queue el object ≡ some (q, true)
      → All (λ c. c ≡ consumer_ready) s.consumers
      → Step s (record { queue = q; consumers = s.consumers })
  push_silent :
      (s : System) (q : SQueue) (el object : ℕ)
      → squeue_push s.queue el object ≡ some (q, false)
      → Step s (record { queue = q; consumers = s.consumers })
  pops :
      (s : System) (q : SQueue) (object i : ℕ)
      → get_elem? s.consumers i ≡ some consumer_ready
      → squeue_pop s.queue ≡ pop_object object q
      → Step s (record { queue = q; consumers = s.consumers })
  waits :
      (s : System) (i : ℕ)
      → get_elem? s.consumers i ≡ some consumer_ready
      → squeue_pop s.queue ≡ pop_waits
      → Step s (record { queue = s.queue; consumers = set s.consumers i consumer_waiting })
  wakes :
      (s : System) (i : ℕ)
      → get_elem? s.consumers i ≡ some consumer_waiting
      → Step s (record { queue = s.queue; consumers = set s.consumers i consumer_ready })

pub data Reach (s : System) : System → Type 0 where
  here : Reach s s
  next : {t u : System} → Reach s t → Step t u → Reach s u

-- One consumer, that does not wait while the queue holds an object.
abbrev pub Served : Pointer → List Consumer → Type 0
Served head [] = ⊥
Served head (consumer_ready ∷ []) = Unit {0}
Served head (consumer_waiting ∷ []) = head ≡ none
Served head (c ∷ d ∷ cs) = ⊥

push_flag :
    (q q' : SQueue) (el object : ℕ) (told : Bool)
    → squeue_push q el object ≡ some (q', told)
    → told ≡ is_null q.sq_head
unfolding squeue_push
push_flag q q' el object told e = ground arith

pop_waits_empty : (q : SQueue) → squeue_pop q ≡ pop_waits → q.sq_head ≡ none
unfolding squeue_pop
pop_waits_empty q e = ground arith

-- A consumer that is woken, or that no one has to wake, may find any queue.
wake-Served :
    (head head' : Pointer) (cs : List Consumer) (i : ℕ) (c : Consumer)
    → Served head cs
    → get_elem? cs i ≡ some c
    → Served head' (set cs i consumer_ready)
wake-Served head head' [] i c h e = h
wake-Served head head' (consumer_ready ∷ []) zero c h e = tt
wake-Served head head' (consumer_waiting ∷ []) zero c h e = tt
wake-Served head head' (d ∷ []) (suc i) c h e = cc
wake-Served head head' (c ∷ d ∷ cs) i _ h e = absurd h

wait-Served :
    (head : Pointer) (cs : List Consumer) (i : ℕ)
    → head ≡ none
    → Served head cs
    → Served head (set cs i consumer_waiting)
wait-Served head [] i e h = h
wait-Served head (d ∷ []) zero e h = e
wait-Served head (d ∷ []) (suc i) e h = h
wait-Served head (c ∷ d ∷ cs) i e h = absurd h

ready-Served :
    (head head' : Pointer) (cs : List Consumer)
    → All (λ c. c ≡ consumer_ready) cs
    → Served head cs
    → Served head' cs
ready-Served head head' [] r h = h
ready-Served head head' (consumer_ready ∷ []) r h = tt
ready-Served head head' (consumer_waiting ∷ []) r h = absurd (cc r.0)
ready-Served head head' (c ∷ d ∷ cs) r h = absurd h

-- While the queue is not empty the consumer runs.
busy-Served :
    (head head' : Pointer) (cs : List Consumer) → head ≢ none → Served head cs → Served head' cs
busy-Served head head' [] n h = h
busy-Served head head' (consumer_ready ∷ []) n h = tt
busy-Served head head' (consumer_waiting ∷ []) n h = absurd (n h)
busy-Served head head' (c ∷ d ∷ cs) n h = absurd h

pop_object_head :
    (q q' : SQueue) (object : ℕ) → squeue_pop q ≡ pop_object object q' → q.sq_head ≢ none
unfolding squeue_pop
pop_object_head q q' object e = ground arith

Step-Served :
    {s t : System}
    → Step s t
    → Served s.queue.sq_head s.consumers
    → Served t.queue.sq_head t.consumers
Step-Served (push_wakes s q el object i e w) h =
    wake-Served s.queue.sq_head q.sq_head s.consumers i _ h w
Step-Served (push_unheard s q el object e r) h =
    ready-Served s.queue.sq_head q.sq_head s.consumers r h
Step-Served (push_silent s q el object e) h =
    busy-Served s.queue.sq_head q.sq_head s.consumers
      (λ n. ground (arith, push_flag s.queue q el object false e)) h
Step-Served (pops s q object i r e) h =
    busy-Served s.queue.sq_head q.sq_head s.consumers (pop_object_head s.queue q object e) h
Step-Served (waits s i r e) h =
    wait-Served s.queue.sq_head s.consumers i (pop_waits_empty s.queue e) h
Step-Served (wakes s i w) h = wake-Served s.queue.sq_head s.queue.sq_head s.consumers i _ h w

-- With one consumer no wake-up is lost: however pushes, pops, waits and wake-ups interleave, the
-- consumer never waits while the queue holds an object, if it did not at first.
pub Reach-Served :
    {s t : System}
    → Served s.queue.sq_head s.consumers
    → Reach s t
    → Served t.queue.sq_head t.consumers
Reach-Served h here = h
Reach-Served h (next r step) = Step-Served step (Reach-Served h r)

abbrev pushed_once : SQueue → ℕ → ℕ → SQueue
pushed_once q e o = record q {
  sq_head = some e;
  s_next = update q.s_next e none;
  s_data = update q.s_data e o;
}

abbrev pushed_twice : SQueue → ℕ → ℕ → ℕ → ℕ → SQueue
pushed_twice q e1 e2 o1 o2 =
    let q1 = pushed_once q e1 o1 in
    record q1 {
      sq_tail = some e2;
      s_next = update (update q1.s_next e2 none) e1 (some e2);
      s_data = update q1.s_data e2 o2;
    }

-- With two consumers a wake-up can be lost: from any empty queue where both wait, two pushes of
-- different elements wake one of them only, and when it has taken the first object the other one
-- still waits for the second, which is in the queue.
pub lost_wakeup :
    (q : SQueue) (e1 e2 o1 o2 : ℕ)
    → q.sq_head ≡ none
    → q.sq_tail ≡ none
    → e1 ≢ e2
    → (t : System) × Reach
        (record { queue = q; consumers = consumer_waiting ∷ consumer_waiting ∷ [] })
        t
      × (t.consumers ≡ consumer_ready ∷ consumer_waiting ∷ [])
      × (t.queue.sq_head ≡ some e2)
unfolding squeue_push squeue_pop
lost_wakeup q e1 e2 o1 o2 h t n =
    let q2 = pushed_twice q e1 e2 o1 o2 in
    let q3 = record q2 {
      sq_head = q2.s_next e1;
      sq_tail = if ptr_eq q2.sq_tail (q2.s_next e1) then none else q2.sq_tail;
    } in
    (
      record { queue = q3; consumers = consumer_ready ∷ consumer_waiting ∷ [] },
      next
          (next
            (next here
              (push_wakes _ (pushed_once q e1 o1) e1 o1 0 (rw (h, t, squeue_push) refl) refl))
            (push_silent _ q2 e2 o2 (rw (t, squeue_push) refl)))
          (pops _ q3 (q2.s_data e1) 0 refl refl),
      refl,
      rw (==_self e1) refl,
    )
