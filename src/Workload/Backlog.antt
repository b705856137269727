-- ===== src/Workload/Backlog.antt =====
-- What the step queue of a workload promises, and that lib/libtsload/src/workload.c keeps it.
pub mod Runs
use v_perf_generator.Common.{
  inr, inl, ==_of_ne, ◌≢◌, Bool-cases, ℕ, zero, suc, ◌+◌, ◌-◌, ◌%◌, ◌≤◌, ◌<◌, ◌≡◌, refl, ap, not,
  Option, none, some, List, [], ◌∷◌, ◌++◌, arith, ◌==◌, if◌then◌else◌, length, get_or, set,
  get_or-set_self, get_or-set_ne,
}
use v_perf_generator.Common.Int.{◌+ℤ◌, ℤ, pos, negsuc, neg_part, ◌-ℤ◌, ◌==ℤ◌}
use v_perf_generator.Workload.{
  wl_provide_step, Workload, StepResult, step_ok, step_queue_full, step_invalid, wl_step_q_size,
}
use native.Mathlib.Decide.{dec_le}

-- The steps accepted and not yet started, oldest first; the id that the next one must have; and by
-- how many steps the workload has run past its input.
pub record Backlog : Type 0 where
  pub pending : List ℕ
  pub next_id : ℕ
  pub overrun : ℕ

abbrev pub none_yet : Backlog
none_yet = record { pending = []; next_id = 0; overrun = 0 }

-- A step that comes after the workload ran past it is accepted and dropped.
pub accept : Backlog → ℕ → Backlog
accept b n =
    if b.overrun == 0
    then record b { pending = b.pending ++ (n ∷ []); next_id = suc b.next_id }
    else record b { next_id = suc b.next_id; overrun = b.overrun - 1 }

pub provide : Backlog → ℤ → ℕ → StepResult × Backlog
unfolding accept
provide b id n =
    if length b.pending == wl_step_q_size
    then (step_queue_full, b)
    else if not (id ==ℤ pos b.next_id)
    then (step_invalid, b)
    else (step_ok, accept b n)

abbrev pub advance_with : List ℕ → Backlog → Option ℕ × Backlog
advance_with [] b = (none, record b { overrun = suc b.overrun })
advance_with (n ∷ rest) b = (some n, record b { pending = rest })

unfoldable pub advance : Backlog → Option ℕ × Backlog
advance b = advance_with b.pending b

-- The id after a step id, 0 for all below zero.
abbrev pub after : ℤ → ℕ
after (pos n) = suc n
after (negsuc n) = 0

abbrev pub window : List ℕ → ℕ → ℕ → List ℕ
window slots c zero = []
window slots c (suc n) = get_or slots (c % wl_step_q_size) 0 ∷ window slots (suc c) n

abbrev pub backlog : Workload → Backlog
backlog wl =
    let c = after wl.wl_current_step in
    let l = after wl.wl_last_step in
    record { pending = window wl.wl_rqs_per_step c (l - c); next_id = l; overrun = c - l }

pub record IsValid (wl : Workload) : Type 0 where
  pub slots : length wl.wl_rqs_per_step ≡ wl_step_q_size
  pub current_low : neg_part wl.wl_current_step ≤ 1
  pub last_low : neg_part wl.wl_last_step ≤ 1
  pub fits : after wl.wl_last_step ≤ after wl.wl_current_step + wl_step_q_size

length-window : (slots : List ℕ) (c n : ℕ) → length (window slots c n) ≡ n
length-window slots c zero = refl
length-window slots c (suc n) = ap suc (length-window slots (suc c) n)

-- A write just behind the window extends it.
window-set :
    (slots : List ℕ) (c n v i : ℕ)
    → length slots ≡ wl_step_q_size
    → n < wl_step_q_size
    → i ≡ (c + n) % wl_step_q_size
    → window (set slots i v) c (suc n) ≡ window slots c n ++ (v ∷ [])
window-set slots c zero v i hs hn e =
    let e' : i ≡ c % wl_step_q_size = omega arith in
    rw (e', get_or-set_self slots (c % wl_step_q_size) v 0 (omega arith))
window-set slots c (suc n) v i hs hn e =
    rw (get_or-set_ne slots i (c % wl_step_q_size) v 0 (omega arith)) (
      ap (◌∷◌ (get_or slots (c % wl_step_q_size) 0))
        (window-set slots (suc c) n v i hs (omega arith) (omega arith)))

provide_full :
    (l c : ℤ)
    → neg_part c ≤ 1
    → neg_part l ≤ 1
    → after l ≤ after c + 16
    → (l -ℤ c ==ℤ pos 16) ≡ (after l - after c == 16)
unfolding ◌-ℤ◌
provide_full l c h k f = ground arith

provide_next : (id l : ℤ) → neg_part l ≤ 1 → (id ==ℤ l +ℤ pos 1) ≡ (id ==ℤ pos (after l))
unfolding ◌+ℤ◌
provide_next id l h = ground arith

-- The step that is written extends the window, or only makes up for an overrun.
provide_accept :
    (wl : Workload) (n : ℕ)
    → IsValid wl
    → after wl.wl_last_step - after wl.wl_current_step ≢ 16
    → let l = after wl.wl_last_step in
      backlog (record wl {
        wl_last_step = pos l;
        wl_rqs_per_step = set wl.wl_rqs_per_step (l % wl_step_q_size) n;
      })
      ≡ accept (backlog wl) n
unfolding accept
provide_accept wl n v h = elim (dec_le c l) [
  | yes le ↦
      let e : suc l - c ≡ suc (l - c) = omega arith in
      let o : c - l ≡ 0 = omega arith in
      let o' : c - suc l ≡ 0 = omega arith in
      rw (
        e,
        o,
        o',
        window-set wl.wl_rqs_per_step c (l - c) n (l % wl_step_q_size) v.slots (omega arith)
            (omega arith),
      )
  | no gt ↦
      let e : suc l - c ≡ 0 = omega arith in
      let e' : l - c ≡ 0 = omega arith in
      let o : c - suc l ≡ c - l - 1 = omega arith in rw (e, e', o, ==_of_ne (c - l) 0 (omega arith))
]
  where
    c : ℕ
    c = after wl.wl_current_step

    l : ℕ
    l = after wl.wl_last_step

-- `wl_provide_step` answers and changes the backlog as `provide` does, also when the step queue is
-- full, when the id is not the next one, and after an overrun.
pub provide_refines :
    (wl : Workload) (id : ℤ) (n : ℕ)
    → IsValid wl
    → let (r, wl') = wl_provide_step wl id n in (r, backlog wl') ≡ provide (backlog wl) id n
unfolding wl_provide_step provide
provide_refines wl id n v =
    rw
      (
        provide_full wl.wl_last_step wl.wl_current_step v.current_low v.last_low v.fits,
        provide_next id wl.wl_last_step v.last_low,
        length-window,
      )
      (elim (Bool-cases (l - c == 16)) [
        | inl full ↦ rw full
        | inr room ↦ rw room (elim (Bool-cases (id ==ℤ pos l)) [
          | inl next ↦
              let e : id ≡ pos l = ground arith in
              rw (next, e) (ap (λ b. (step_ok, b)) (provide_accept wl n v (ground arith)))
          | inr other ↦ rw other
        ])
      ])
  where
    c : ℕ
    c = after wl.wl_current_step

    l : ℕ
    l = after wl.wl_last_step
