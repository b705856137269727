-- ===== src/SyncQueue/Tests.antt =====
-- Examples for lib/libtscommon/src/syncqueue.c: a queue of the objects 50 and 60 in the elements 1
-- and 2.
use v_perf_generator.SyncQueue.{SQueue, squeue_push, squeue_pop, is_null}
use v_perf_generator.SyncQueue.Fifo.{Queued, push-Queued, Pops, pop-Queued}
use v_perf_generator.SyncQueue.Wakeup.{
  System, Reach, here, next, push_wakes, waits, consumer_ready, consumer_waiting, Served,
  Reach-Served,
}
use v_perf_generator.Common.Memory.{update}
use v_perf_generator.Common.{
  ℕ, if◌then◌else◌, false, ◌==◌, ℕ, List, [], ◌∷◌, none, some, refl, arith, ◌≡◌,
}

abbrev empty : SQueue
empty = record {
  sq_head = none;
  sq_tail = none;
  s_next = λ a. none;
  s_data = λ a. 0;
  sq_is_destroyed = false;
}

abbrev two : SQueue
two = record {
  sq_head = some 1;
  sq_tail = some 2;
  s_next = λ a. if a == 1 then some 2 else none;
  s_data = λ a. if a == 1 then 50 else 60;
  sq_is_destroyed = false;
}

abbrev elements : List ℕ
elements = 1 ∷ 2 ∷ []

abbrev objects : List ℕ
objects = 50 ∷ 60 ∷ []

two-Queued : Queued two elements objects
two-Queued = (
  record { chain = (refl, (refl, refl)); distinct = ((omega arith, tt), (tt, tt)); tail = refl },
  refl,
)

push-Queued_example :
    (sq' : SQueue) × (squeue_push two 7 70 ≡ some (sq', is_null two.sq_head))
    × Queued sq' (1 ∷ 2 ∷ 7 ∷ []) (50 ∷ 60 ∷ 70 ∷ [])
push-Queued_example =
    push-Queued two elements objects 7 70 two-Queued (omega arith, (omega arith, tt))

pop-Queued_example : Pops objects (squeue_pop two)
pop-Queued_example = pop-Queued two elements objects two-Queued

abbrev idle : System
idle = record { queue = empty; consumers = consumer_ready ∷ [] }

abbrev asleep : System
asleep = record { queue = empty; consumers = consumer_waiting ∷ [] }

abbrev one : SQueue
one = record empty {
  sq_head = some 1;
  s_next = update empty.s_next 1 none;
  s_data = update empty.s_data 1 50;
}

abbrev woken : System
woken = record { queue = one; consumers = consumer_ready ∷ [] }

idle-Reach : Reach idle woken
unfolding squeue_push squeue_pop
idle-Reach = next (next here (waits idle 0 refl refl)) (push_wakes asleep one 1 50 0 refl refl)

Reach-Served_example : Served woken.queue.sq_head woken.consumers
Reach-Served_example = Reach-Served {s = idle} {t = woken} tt idle-Reach
