-- ===== src/PathUtil/Tests.antt =====
-- Paths on concrete input.
use v_perf_generator.PathUtil.{
  path_separator, path_join_array, drop_separators, split_parts, path_basename, path_dirname,
}
use v_perf_generator.PathUtil.Basename.{path_basename_whole}
use v_perf_generator.Common.{arith, ℕ, ℕ, ◌≡◌, some, none, List, [], ◌∷◌, ◌++◌, refl, arith}
use v_perf_generator.Common.Int.{pos, negsuc}

abbrev tmp : List ℕ
tmp = b't' ∷ b'm' ∷ b'p' ∷ []

abbrev log : List ℕ
log = b'l' ∷ b'o' ∷ b'g' ∷ []

abbrev zeroes : ℕ → ℕ
zeroes k = 0

-- The first byte of the buffer that is read is in front of it.
join_both : path_join_array zeroes 14 (tmp ∷ log ∷ []) ≡ some (tmp ++ (path_separator ∷ log))
unfolding path_join_array
join_both = refl

-- Two parts that fill the buffer wrap `len`, and the path ends behind the buffer.
join_over : path_join_array zeroes 6 (tmp ∷ log ∷ []) ≡ some (tmp ++ (path_separator ∷ log))
unfolding path_join_array
join_over = refl

-- Two parts are three with the rest.
split_three :
    split_parts (pos 2) (b'a' ∷ b'/' ∷ b'b' ∷ b'/' ∷ b'c' ∷ b'/' ∷ b'd' ∷ [])
    ≡ some ((b'a' ∷ []) ∷ (b'b' ∷ []) ∷ (b'c' ∷ b'/' ∷ b'd' ∷ []) ∷ [])
unfolding split_parts
split_three = refl

split_back :
    split_parts (negsuc 4) (b'/' ∷ b'a' ∷ b'/' ∷ b'b' ∷ b'/' ∷ b'/' ∷ b'c' ∷ [])
    ≡ some ((b'c' ∷ []) ∷ (b'b' ∷ []) ∷ (b'a' ∷ []) ∷ [])
unfolding split_parts
split_back = refl

split_negative : split_parts (negsuc 1) (b'/' ∷ b'/' ∷ b'a' ∷ []) ≡ none
unfolding split_parts
split_negative = refl

-- Of a part of three bytes, in a buffer of four, one is left.
join_cut : path_join_array zeroes 4 (tmp ∷ []) ≡ some (b't' ∷ [])
unfolding path_join_array
join_cut = refl

path_basename_whole_example :
    (path_basename (path_separator ∷ (tmp ++ (path_separator ∷ log)))
      ≡ some (drop_separators (path_separator ∷ (tmp ++ (path_separator ∷ log)))))
    × (path_dirname (path_separator ∷ (tmp ++ (path_separator ∷ log))) ≡ none)
unfolding drop_separators
path_basename_whole_example =
    path_basename_whole (path_separator ∷ (tmp ++ (path_separator ∷ log))) (omega arith)
      (omega arith)
