-- ===== src/PathUtil/Joined.antt =====
-- lib/libtscommon/src/pathutil.c: what `path_join_array` makes, and `path_split` of it.
use v_perf_generator.PathUtil.{
  path_separator, take, strncat, add_part, join_from, path_join_array, path_split_add, split_parts,
}
use v_perf_generator.Common.{
  ℕ, ◌-◌, ◌*◌, ltb, ◌<◌, ◌≤◌, ◌≡◌, ◌≢◌, false, some, none, Option, List, [], ◌∷◌, ◌++◌, length, All,
  refl, arith,
}
use v_perf_generator.Common.Int.{pos}

-- The parts behind the first, each after a separator.
unfoldable pub behind_first : List (List ℕ) → List ℕ
behind_first [] = []
behind_first (part ∷ parts) = path_separator ∷ (part ++ behind_first parts)

unfoldable pub joined : List (List ℕ) → List ℕ
unfolding behind_first
joined [] = []
joined (part ∷ parts) = part ++ behind_first parts

-- A part has a byte, and none that is a separator.
abbrev pub IsName : List ℕ → Type 0
IsName part = (0 < length part) × All (λ c. c ≢ path_separator) part

pub path_split_add-name :
    (parts : List (List ℕ)) (part : List ℕ)
    → 0 < length part
    → path_split_add parts part ≡ parts ++ (part ∷ [])
unfolding path_split_add
path_split_add-name parts [] some_byte = absurd (omega (arith, some_byte))
path_split_add-name parts (c ∷ cs) some_byte = refl

abbrev Room : List (List ℕ) → ℕ → Type 0
Room parts len = 2 * length (behind_first parts) ≤ len

-- The parts of a joined path, up to `max`.
unfoldable pub split_joined : ℕ → Option (List ℕ) → Option (List (List ℕ))
unfolding split_parts
split_joined max none = none
split_joined max (some path) = split_parts (pos max) path

-- A path of one part that the buffer is large enough for comes out of path_join_array cut off behind
-- the bytes that are left once the part has been counted off: whole only if the buffer has twice its
-- length.
pub path_join_array_cut :
    (stale : ℕ → ℕ) (len : ℕ) (part : List ℕ)
    → length part ≤ len
    → path_join_array stale len (part ∷ []) ≡ some (take (len - length part) part)
unfolding path_join_array join_from add_part strncat
path_join_array_cut stale len part fits =
    let large : ltb len (length part) ≡ false = ground (arith, fits) in rw large refl
