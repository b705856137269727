-- ===== src/Steps.antt =====
-- cmd/run-tsload/src/steps.c: the steps of a workload from a file, a line with a number of requests
-- for each step. A file is its bytes that are not yet read and its end-of-file mark, in the C locale.
pub mod Lines
mod Tests
use v_perf_generator.Common.{
  ◌∷◌, ◌||◌, zero, true, suc, some, not, none, length, leb, if◌then◌else◌, false, ◌^◌, [], Option,
  Bool, ◌==◌, ◌-◌, ◌+◌, ◌*◌, ◌&&◌, ◌%◌, ℕ, List,
}

abbrev pub is_space : ℕ → Bool
is_space c = c == 32 || (leb 9 c && leb c 13)

abbrev pub is_digit : ℕ → Bool
is_digit c = leb 48 c && leb c 57

-- The loop of `step_parse_line`: the bytes before the first space; `none` is STEP_ERROR.
pub digits_of : List ℕ → Option (List ℕ)
digits_of [] = some []
digits_of (c ∷ cs) =
    let rest = digits_of cs in
    if is_space c
    then some []
    else if not (is_digit c)
    then none
    else elim rest [ none ↦ none | some ds ↦ some (c ∷ ds) ]

-- `atol` of digits, of which the buffer holds too few for an overflow.
abbrev pub atol_from : ℕ → List ℕ → ℕ
atol_from acc [] = acc
atol_from acc (c ∷ cs) = atol_from (acc * 10 + (c - 48)) cs

pub step_parse_line : List ℕ → Option ℕ
unfolding digits_of
step_parse_line line = elim (digits_of line) [ none ↦ none | some ds ↦ some (atol_from 0 ds) ]

-- `fgets` with room for `n` bytes: the bytes read, those left, and whether it met the end.
abbrev pub fgets : ℕ → List ℕ → List ℕ × List ℕ × Bool
fgets zero rest = ([], rest, false)
fgets (suc n) [] = ([], [], true)
fgets (suc n) (c ∷ cs) =
    let (line, rest, met) = fgets n cs in
    if c == 10 then (c ∷ [], cs, false) else (c ∷ line, rest, met)

pub record StepsFile : Type 0 where
  pub unread : List ℕ
  pub feof : Bool
  pub sf_step_id : ℕ
  pub sf_error : Bool

-- STEP_OK with the step and its requests, STEP_NO_RQS, and STEP_ERROR.
pub data StepAnswer : Type 0 where
  got_step : ℕ → ℕ → StepAnswer
  step_no_rqs step_error : StepAnswer

-- `fgets` leaves the buffer as it was where it reads nothing; `junk` is the string that it held. The
-- number is stored as an `unsigned`.
unfoldable pub step_get_step : List ℕ → StepsFile → StepAnswer × StepsFile
unfolding step_parse_line
step_get_step junk sf =
    let (line, rest, met) = fgets 15 sf.unread in
    let step_str = if length line == 0 then junk else line in
    let sf' = record sf { unread = rest; feof = met } in
    if sf.sf_error || sf.feof
    then (step_no_rqs, record sf { sf_error = true })
    else elim (step_parse_line step_str) [
      | none ↦ (step_error, record sf' { sf_error = true })
      | some num_rqs ↦
          (got_step sf.sf_step_id (num_rqs % 2 ^ 32), record sf' { sf_step_id = suc sf.sf_step_id })
    ]
