-- ===== src/Workload/Backlog/Runs.antt =====
-- Any sequence of calls on a workload's step queue, lib/libtsload/src/workload.c, against the
-- backlog.
use v_perf_generator.Workload.Backlog.{
  Backlog, none_yet, provide, advance, after, backlog, IsValid, provide_refines,
}
use v_perf_generator.Workload.{
  wl_step_q_size, step_off, StepResult, Workload, wl_create, wl_provide_step, wl_advance_step,
}
use v_perf_generator.Common.{
  ◌∷◌, refl, [], List, [], inr, ◌-◌, suc, inl, ◌%◌, leb, ◌≤◌, length-set, length, Bool-cases, ℕ,
  arith, Option, ◌≡◌, List,
}
use v_perf_generator.Common.Int.{pos, ltb_ℤ, ◌-ℤ◌, neg_part, ◌+ℤ◌, ℤ}

advance_test :
    (c l : ℤ) → neg_part c ≤ 1 → neg_part l ≤ 1 → ltb_ℤ l (c +ℤ pos 1) ≡ leb (after l) (after c)
unfolding ◌+ℤ◌
advance_test c l h k = ground arith

after_next : (c : ℤ) → neg_part c ≤ 1 → after (c +ℤ pos 1) ≡ suc (after c)
unfolding ◌+ℤ◌
after_next c h = ground arith

step_off_next : (c : ℤ) → neg_part c ≤ 1 → step_off (c +ℤ pos 1) ≡ after c % wl_step_q_size
unfolding ◌+ℤ◌
step_off_next c h = ground arith

-- `wl_advance_step` hands out the oldest step of the backlog, and counts an overrun when there is
-- none.
pub advance_refines :
    (wl : Workload)
    → IsValid wl
    → let (r, wl') = wl_advance_step wl in (r, backlog wl') ≡ advance (backlog wl)
unfolding wl_advance_step advance
advance_refines wl v =
    rw (advance_test wl.wl_current_step wl.wl_last_step v.current_low v.last_low)
      (elim (Bool-cases (leb l c)) [
        | inl over ↦
            let e : l - c ≡ 0 = ground arith in
            let e' : l - suc c ≡ 0 = ground arith in
            let o : suc c - l ≡ suc (c - l) = ground arith in
            rw (over, after_next wl.wl_current_step v.current_low, e, e', o)
        | inr more ↦
            let e : l - c ≡ suc (l - suc c) = ground arith in
            let o : c - l ≡ 0 = ground arith in
            let o' : suc c - l ≡ 0 = ground arith in
            rw (
              more,
              after_next wl.wl_current_step v.current_low,
              step_off_next wl.wl_current_step v.current_low,
              e,
              o,
              o',
            )
      ])
  where
    c : ℕ
    c = after wl.wl_current_step

    l : ℕ
    l = after wl.wl_last_step

pub provide-IsValid :
    (wl : Workload) (id : ℤ) (n : ℕ) → IsValid wl → IsValid (wl_provide_step wl id n).1
unfolding wl_provide_step ◌+ℤ◌ ◌-ℤ◌
provide-IsValid wl id n v = ground (arith, length-set wl.wl_rqs_per_step (step_off id) n)

pub advance-IsValid : (wl : Workload) → IsValid wl → IsValid (wl_advance_step wl).1
unfolding wl_advance_step ◌+ℤ◌
advance-IsValid wl v = ground arith

pub data StepCall : Type 0 where
  provides : ℤ → ℕ → StepCall
  advances : StepCall

pub data Answer : Type 0 where
  provided : StepResult → Answer
  advanced : Option ℕ → Answer

-- The answers to the calls, as the code gives them in their order.
unfoldable pub run : Workload → List StepCall → List Answer
run wl [] = []
run wl (provides id n ∷ calls) =
    let (r, wl') = wl_provide_step wl id n in provided r ∷ run wl' calls
run wl (advances ∷ calls) = let (r, wl') = wl_advance_step wl in advanced r ∷ run wl' calls

pub run_backlog : Backlog → List StepCall → List Answer
run_backlog b [] = []
run_backlog b (provides id n ∷ calls) =
    let (r, b') = provide b id n in provided r ∷ run_backlog b' calls
run_backlog b (advances ∷ calls) = let (r, b') = advance b in advanced r ∷ run_backlog b' calls

run_refines :
    (wl : Workload) (calls : List StepCall)
    → IsValid wl
    → run wl calls ≡ run_backlog (backlog wl) calls
unfolding run run_backlog
run_refines wl [] v = refl
run_refines wl (provides id n ∷ calls) v = rw (
  run_refines (wl_provide_step wl id n).1 calls (provide-IsValid wl id n v),
  ← provide_refines wl id n v,
)
run_refines wl (advances ∷ calls) v =
    rw (run_refines (wl_advance_step wl).1 calls (advance-IsValid wl v), ← advance_refines wl v)

-- A new workload answers any sequence of provided and advanced steps, by whatever ids, as a queue of
-- at most WLSTEPQSIZE steps that starts empty and expects id 0, whatever its 16 slots held, but for
-- one case: when it has been advanced past its last step, as many of the next steps as it was
-- advanced too far are accepted with WL_STEP_OK and are never handed out.
pub run_create :
    (name : List ℕ) (tp : Option (List ℕ)) (slots : List ℕ) (calls : List StepCall)
    → length slots ≡ wl_step_q_size
    → run (wl_create name tp slots) calls ≡ run_backlog none_yet calls
unfolding wl_create
run_create name tp slots calls h =
    run_refines (wl_create name tp slots) calls
      (record { slots = h; current_low = omega arith; last_low = omega arith; fits = omega arith })
