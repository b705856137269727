-- ===== src/TsInit.antt =====
-- lib/libtscommon/src/tsinit.c: the start and the end of the subsystems.
mod Tests
use v_perf_generator.Common.{
  ℕ, zero, suc, if◌then◌else◌, Bool, true, false, some, none, Option, List, [], ◌∷◌, ◌++◌, map, ◌≡◌,
  refl, All, ap, Bool-cases, inl, inr,
}
use v_perf_generator.Common.Int.{ℤ, pos, negsuc}

pub data SubsystemState : Type 0 where
  ss_uninitialized ss_ok ss_error : SubsystemState

unfoldable pub is_zero : ℤ → Bool
is_zero (pos zero) = true
is_zero (pos (suc n)) = false
is_zero (negsuc n) = false

-- `init_code` is what `s_init` returns.
pub record Subsystem : Type 0 where
  pub s_name : ℕ
  pub s_state : SubsystemState
  pub s_error_code : ℤ
  pub init_code : ℤ

-- The subsystems, those whose `s_init` and `s_fini` have been called, in order, and the code that
-- the process exits with.
pub record Started : Type 0 where
  pub subsystems : List Subsystem
  pub initialized : List ℕ
  pub exited : Option ℤ

-- `SUBSYSTEM`
unfoldable pub subsystem : ℕ × ℤ → Subsystem
subsystem (name, code) = record {
  s_name = name;
  s_state = ss_uninitialized;
  s_error_code = pos 0;
  init_code = code;
}

-- The loop of `ts_init`.
unfoldable pub init_from : List Subsystem → Started
init_from [] = record { subsystems = []; initialized = []; exited = none }
init_from (s ∷ rest) =
    let later = init_from rest in
    if is_zero s.init_code
    then record {
      subsystems = record s { s_error_code = s.init_code } ∷ later.subsystems;
      initialized = s.s_name ∷ later.initialized;
      exited = later.exited;
    }
    else record {
      subsystems = record s { s_state = ss_error } ∷ rest;
      initialized = s.s_name ∷ [];
      exited = some s.init_code;
    }

-- `platform_ok` is that `plat_init` succeeds.
unfoldable pub ts_init : Bool → List Subsystem → Started
unfolding init_from
ts_init platform_ok subsystems =
    if platform_ok
    then init_from subsystems
    else record { subsystems = subsystems; initialized = []; exited = some (negsuc 0) }

unfoldable pub is_ss_ok : SubsystemState → Bool
is_ss_ok ss_uninitialized = false
is_ss_ok ss_ok = true
is_ss_ok ss_error = false

-- The subsystems whose `s_fini` is called: from the last to the first.
unfoldable pub ts_finish : List Subsystem → List ℕ
unfolding is_ss_ok
ts_finish [] = []
ts_finish (s ∷ rest) =
    let later = ts_finish rest in if is_ss_ok s.s_state then later ++ (s.s_name ∷ []) else later

-- The declared subsystems up to the first whose initialisation fails, which is the last to be called.
unfoldable pub up_to_failure : List (ℕ × ℤ) → List ℕ
up_to_failure [] = []
up_to_failure ((name, code) ∷ rest) =
    let later = up_to_failure rest in if is_zero code then name ∷ later else name ∷ []

unfoldable pub first_failure : List (ℕ × ℤ) → Option ℤ
first_failure [] = none
first_failure ((name, code) ∷ rest) =
    let later = first_failure rest in if is_zero code then later else some code

finish_declared : (declared : List (ℕ × ℤ)) → ts_finish (map subsystem declared) ≡ []
unfolding ts_finish subsystem is_ss_ok
finish_declared [] = refl
finish_declared ((name, code) ∷ rest) = finish_declared rest

finish_init_from :
    (declared : List (ℕ × ℤ)) → ts_finish (init_from (map subsystem declared)).subsystems ≡ []
unfolding ts_finish subsystem is_ss_ok init_from
finish_init_from [] = refl
finish_init_from ((name, code) ∷ rest) = elim (Bool-cases (is_zero code)) [
  | inl ok ↦ rw ok (finish_init_from rest)
  | inr failed ↦ rw failed (finish_declared rest)
]

init_from-called :
    (declared : List (ℕ × ℤ))
    → (init_from (map subsystem declared)).initialized ≡ up_to_failure declared
unfolding init_from up_to_failure subsystem
init_from-called [] = refl
init_from-called ((name, code) ∷ rest) = elim (Bool-cases (is_zero code)) [
  | inl ok ↦ rw ok (ap (λ l. name ∷ l) (init_from-called rest))
  | inr failed ↦ rw failed refl
]

init_from-exited :
    (declared : List (ℕ × ℤ)) → (init_from (map subsystem declared)).exited ≡ first_failure declared
unfolding init_from first_failure subsystem
init_from-exited [] = refl
init_from-exited ((name, code) ∷ rest) = elim (Bool-cases (is_zero code)) [
  | inl ok ↦ rw ok (init_from-exited rest)
  | inr failed ↦ rw failed refl
]

-- The subsystems that are declared with SUBSYSTEM are initialised in order up to the first whose
-- s_init fails, whose code the process exits with; but at the end ts_finish calls the s_fini of none
-- of them, since ts_init leaves each in the state SS_UNINITIALIZED or SS_ERROR.
pub ts_finish-ts_init :
    (declared : List (ℕ × ℤ))
    → ((ts_init true (map subsystem declared)).initialized ≡ up_to_failure declared)
      × ((ts_init true (map subsystem declared)).exited ≡ first_failure declared)
      × (ts_finish (ts_init true (map subsystem declared)).subsystems ≡ [])
unfolding ts_init
ts_finish-ts_init declared =
    (init_from-called declared, init_from-exited declared, finish_init_from declared)
