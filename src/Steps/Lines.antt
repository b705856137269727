-- ===== src/Steps/Lines.antt =====
-- The steps of a file of numbers: cmd/run-tsload/src/steps.c.
use v_perf_generator.Steps.{
  is_digit, digits_of, atol_from, step_parse_line, fgets, StepsFile, StepAnswer, got_step,
  step_no_rqs, step_get_step,
}
use v_perf_generator.Common.{
  replicate, ap, ap, ◌≤◌, ◌+◌, ◌≤◌, ◌≡◌, ◌∷◌, ℕ, zero, true, suc, some, refl, length, false, arith,
  ◌^◌, [], List, All, ◌==◌, ◌<◌, ◌++◌, ◌%◌, ◌∙◌, ◌||◌, replicate,
}

-- A number of at most 14 digits.
abbrev pub Number : List ℕ → Type 0
Number ds = All (λ c. is_digit c ≡ true) ds × (length ds ≤ 14)

-- The text of lines.
abbrev pub text : List (List ℕ) → List ℕ
text [] = []
text (ds ∷ lines) = ds ++ (10 ∷ text lines)

digits_of-line :
    (ds : List ℕ) → All (λ c. is_digit c ≡ true) ds → digits_of (ds ++ (10 ∷ [])) ≡ some ds
unfolding digits_of
digits_of-line [] h = refl
digits_of-line (c ∷ cs) h = ground (arith, digits_of-line cs h.1)

fgets-line :
    (n : ℕ) (ds rest : List ℕ)
    → All (λ c. is_digit c ≡ true) ds
    → length ds < n
    → fgets n (ds ++ (10 ∷ rest)) ≡ (ds ++ (10 ∷ []), rest, false)
fgets-line zero ds rest h l = absurd (omega arith)
fgets-line (suc n) [] rest h l = refl
fgets-line (suc n) (c ∷ cs) rest h l =
    let ih = fgets-line n cs rest h.1 (omega arith) in
    let e : (c == 10) ≡ false = ground (arith, h.0) in rw (ih, e) refl

-- The calls that a file answers: the answers and the file after them.
abbrev pub read_all : List ℕ → ℕ → StepsFile → List StepAnswer × StepsFile
read_all junk zero sf = ([], sf)
read_all junk (suc n) sf =
    let (answer, sf') = step_get_step junk sf in
    let (answers, sf'') = read_all junk n sf' in (answer ∷ answers, sf'')

-- The steps of lines, by their numbers.
abbrev pub steps_of : ℕ → List (List ℕ) → List StepAnswer
steps_of id [] = []
steps_of id (ds ∷ lines) = got_step id (atol_from 0 ds % 2 ^ 32) ∷ steps_of (suc id) lines

abbrev pub opened : List ℕ → ℕ → StepsFile
opened unread id = record { unread = unread; feof = false; sf_step_id = id; sf_error = false }

line-length : (ds : List ℕ) → (length (ds ++ (10 ∷ [])) == 0) ≡ false
line-length [] = refl
line-length (d ∷ ds) = ground arith

get_step-line :
    (junk ds rest : List ℕ) (id : ℕ)
    → Number ds
    → step_get_step junk (opened (ds ++ (10 ∷ rest)) id)
      ≡ (got_step id (atol_from 0 ds % 2 ^ 32), opened rest (suc id))
unfolding step_get_step step_parse_line
get_step-line junk ds rest id (h, l) =
    let f = fgets-line 15 ds rest h (omega arith) in
    rw
      (
        step_get_step,
        ap (λ p. p.0) f,
        line-length ds,
        step_parse_line,
        digits_of-line ds h,
        ap (λ p. p.1) f,
        ap (λ p. p.2) f,
      )
      refl

-- The lines of a file, in as many calls.
read_all-lines :
    (junk : List ℕ) (lines : List (List ℕ)) (id : ℕ)
    → All Number lines
    → read_all junk (length lines) (opened (text lines) id)
      ≡ (steps_of id lines, opened [] (id + length lines))
read_all-lines junk [] id h = let e : id ≡ id + 0 = omega arith in ap (λ k. ([], opened [] k)) e
read_all-lines junk (ds ∷ lines) id h =
    let first = get_step-line junk ds (text lines) id h.0 in
    let rest = read_all-lines junk lines (suc id) h.1 in
    let e : suc id + length lines ≡ id + suc (length lines) = omega arith in
    rw (ap (λ p. p.0) first, ap (λ p. p.1) first, ap (λ p. p.0) rest, ap (λ p. p.1) rest, e) refl

-- One call more reads nothing, and gives a step of what the buffer held before.
get_step_extra :
    (junk : List ℕ) (id n : ℕ)
    → step_parse_line junk ≡ some n
    → step_get_step junk (opened [] id) ≡ (
      got_step id (n % 2 ^ 32),
      record { unread = []; feof = true; sf_step_id = suc id; sf_error = false },
    )
unfolding step_get_step
get_step_extra junk id n h = rw (step_get_step, h) refl

read_all-append :
    (junk : List ℕ) (m n : ℕ) (sf : StepsFile)
    → (read_all junk (m + n) sf).0
      ≡ (read_all junk m sf).0 ++ (read_all junk n (read_all junk m sf).1).0
read_all-append junk zero n sf = let e : 0 + n ≡ n = omega arith in rw e refl
read_all-append junk (suc m) n sf =
    let e : suc m + n ≡ suc (m + n) = omega arith in
    rw e (
      ap (λ (l : List StepAnswer). (step_get_step junk sf).0 ∷ l)
        (read_all-append junk m n (step_get_step junk sf).1))

-- A file that has ended gives no more steps.
read_all_ended :
    (junk : List ℕ) (n : ℕ) (sf : StepsFile)
    → (sf.sf_error || sf.feof) ≡ true
    → (read_all junk n sf).0 ≡ replicate n step_no_rqs
unfolding step_get_step
read_all_ended junk zero sf e = refl
read_all_ended junk (suc n) sf e =
    rw (step_get_step, e)
      (ap (λ (l : List StepAnswer). step_no_rqs ∷ l)
        (read_all_ended junk n (record sf { sf_error = true }) refl))

-- A file of lines with numbers of at most 14 digits, each with its newline, gives one step for each
-- line, in order, with the number of the line modulo 2^32, but then one step more, with the number
-- that the buffer held before it was read into, where that is a number; after that, and however often
-- it is called again, there are no more steps.
pub read_all-text :
    (junk : List ℕ) (lines : List (List ℕ)) (id n more : ℕ)
    → All Number lines
    → step_parse_line junk ≡ some n
    → (read_all junk (length lines + suc more) (opened (text lines) id)).0
      ≡ steps_of id lines
        ++ (got_step (id + length lines) (n % 2 ^ 32) ∷ replicate more step_no_rqs)
read_all-text junk lines id n more numbers parsed =
    let ran = read_all-lines junk lines id numbers in
    let extra = get_step_extra junk (id + length lines) n parsed in
    read_all-append junk (length lines) (suc more) (opened (text lines) id)
    ∙ ap (λ (p : List StepAnswer × StepsFile). p.0 ++ (read_all junk (suc more) p.1).0) ran
    ∙ ap (λ (p : StepAnswer × StepsFile). steps_of id lines ++ (p.0 ∷ (read_all junk more p.1).0))
        extra
    ∙ ap
        (λ (l : List StepAnswer).
          steps_of id lines ++ (got_step (id + length lines) (n % 2 ^ 32) ∷ l))
        (read_all_ended junk more _ refl)
