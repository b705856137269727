-- ===== src/SyncQueue.antt =====
-- lib/libtscommon/src/syncqueue.c: the queues between threads. Elements are addresses in a memory
-- of `s_next` and `s_data`; each function's part under `sq_mutex` is one step.
pub mod Fifo
pub mod Destroy
pub mod Wakeup
mod Tests
use v_perf_generator.Common.Memory.{Pointer, update}
use v_perf_generator.Common.{
  ◌∷◌, ◌∷◌, ℕ, zero, true, suc, some, not, none, if◌then◌else◌, false, [], Option, List, Bool, ◌==◌,
  ◌&&◌,
}

pub record SQueue : Type 0 where
  pub sq_head : Pointer
  pub sq_tail : Pointer
  pub s_next : ℕ → Pointer
  pub s_data : ℕ → ℕ
  pub sq_is_destroyed : Bool

abbrev pub ptr_eq : Pointer → Pointer → Bool
ptr_eq none none = true
ptr_eq none (some b) = false
ptr_eq (some a) none = false
ptr_eq (some a) (some b) = a == b

abbrev pub is_null : Pointer → Bool
is_null none = true
is_null (some a) = false

unfoldable pub squeue_init : SQueue → SQueue
squeue_init sq = record sq { sq_head = none; sq_tail = none; sq_is_destroyed = false }

-- Where the locked part of `squeue_pop` leads: to a wait for the event, or to an object. `el` is
-- then freed.
pub data Popped : Type 0 where
  pop_waits : Popped
  pop_object : ℕ → SQueue → Popped

squeue_pop_el : SQueue → Pointer → Popped
squeue_pop_el sq none = pop_waits
squeue_pop_el sq (some el) =
    let head = sq.s_next el in
    let tail = if ptr_eq sq.sq_tail head then none else sq.sq_tail in
    pop_object (sq.s_data el) (record sq { sq_head = head; sq_tail = tail })

unfoldable pub squeue_pop : SQueue → Popped
unfolding squeue_pop_el
squeue_pop sq = squeue_pop_el sq sq.sq_head

-- After the wait: `none` is the answer NULL, and otherwise the locked part runs again.
unfoldable pub squeue_retry : SQueue → Option Popped
unfolding squeue_pop
squeue_retry sq = if sq.sq_is_destroyed then none else some (squeue_pop sq)

squeue_link : SQueue → ℕ → Pointer → Pointer → SQueue × Bool
squeue_link sq el none tail = (record sq { sq_head = some el }, true)
squeue_link sq el (some head) none =
    (record sq { sq_tail = some el; s_next = update sq.s_next head (some el) }, false)
squeue_link sq el (some head) (some tail) =
    (record sq { s_next = update sq.s_next tail (some el); sq_tail = some el }, false)

-- `el` is what `mp_malloc` returns. The flag says that the event is notified; `none` is a failed
-- assertion.
unfoldable pub squeue_push : SQueue → ℕ → ℕ → Option (SQueue × Bool)
unfolding squeue_link
squeue_push sq el object =
    let sq' = record sq {
      s_next = update sq.s_next el none;
      s_data = update sq.s_data el object;
    } in
    if is_null sq.sq_head && not (is_null sq.sq_tail)
    then none
    else some (squeue_link sq' el sq.sq_head sq.sq_tail)

-- The loop of `squeue_destroy`: the objects that it hands to `el_free`, in order. `none` when the
-- fuel runs out, or where the loop follows NULL.
free_until : ℕ → SQueue → Pointer → Option (List ℕ)
free_until zero sq el = none
free_until (suc fuel) sq none = if is_null sq.sq_tail then some [] else none
free_until (suc fuel) sq (some el) = elim (ptr_eq (some el) sq.sq_tail) [
  | true ↦ some []
  | false ↦ elim (free_until fuel sq (sq.s_next el)) [
    | none ↦ none
    | some freed ↦ some (sq.s_data el ∷ freed)
  ]
]

unfoldable pub squeue_destroy : ℕ → SQueue → Option (List ℕ × SQueue)
unfolding free_until
squeue_destroy fuel sq = elim (free_until fuel sq sq.sq_head) [
  | none ↦ none
  | some freed ↦ some (freed, record sq { sq_is_destroyed = true })
]
