-- ===== src/Steps/Tests.antt =====
-- Examples for cmd/run-tsload/src/steps.c: the file "5\n12\n".
use v_perf_generator.Steps.{step_parse_line, got_step, step_no_rqs}
use v_perf_generator.Steps.Lines.{Number, text, opened, read_all, read_all-text}
use v_perf_generator.Common.{◌≡◌, ◌≡◌, ◌∷◌, ℕ, some, refl, arith, [], List, All}

abbrev lines : List (List ℕ)
lines = (53 ∷ []) ∷ (49 ∷ 50 ∷ []) ∷ []

lines-Number : All Number lines
lines-Number = (((refl, tt), omega arith), (((refl, (refl, tt)), omega arith), tt))

junk-12 : step_parse_line (49 ∷ 50 ∷ 10 ∷ []) ≡ some 12
unfolding step_parse_line
junk-12 = refl

-- The buffer still holds the last line.
read_all-text_example :
    (read_all (49 ∷ 50 ∷ 10 ∷ []) 4 (opened (text lines) 0)).0
    ≡ got_step 0 5 ∷ got_step 1 12 ∷ got_step 2 12 ∷ step_no_rqs ∷ []
read_all-text_example = read_all-text (49 ∷ 50 ∷ 10 ∷ []) lines 0 12 1 lines-Number junk-12
