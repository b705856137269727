-- ===== src/PathUtil.antt =====
-- lib/libtscommon/src/pathutil.c and its header: joining and splitting paths. Texts are lists of bytes
-- without their NUL.
pub mod Joined
pub mod Basename
mod Tests
use v_perf_generator.Common.{
  ℕ, zero, suc, ◌+◌, ◌-◌, ◌^◌, ltb, leb, ◌==◌, ◌||◌, ◌&&◌, not, if◌then◌else◌, Bool, true, false,
  some, none, Option, List, [], ◌∷◌, ◌++◌, length,
}
use v_perf_generator.Common.Int.{ℤ, pos, negsuc}

abbrev pub path_separator : ℕ
path_separator = b'/'

abbrev pub path_max_parts : ℕ
path_max_parts = 32

abbrev pub path_max_len : ℕ
path_max_len = 256

unfoldable pub take : ℕ → List ℕ → List ℕ
take zero xs = []
take (suc n) [] = []
take (suc n) (x ∷ xs) = x ∷ take n xs

-- `dest[idx - 1]`: a byte of the text, the NUL behind it, or what is elsewhere in the buffer.
unfoldable pub char_before : (ℕ → ℕ) → List ℕ → ℕ → ℕ
char_before stale dest zero = stale 0
char_before stale [] (suc zero) = 0
char_before stale [] (suc (suc i)) = stale (suc (suc i))
char_before stale (c ∷ cs) (suc zero) = c
char_before stale (c ∷ cs) (suc (suc i)) = char_before (λ k. stale (suc k)) cs (suc i)

-- `idx` counts what should be in `dest`.
pub record Joining : Type 0 where
  pub dest : List ℕ
  pub len : ℕ
  pub idx : ℕ

unfoldable pub strncat : List ℕ → List ℕ → ℕ → List ℕ
unfolding take
strncat dest src n = dest ++ take n src

-- `len` is a `size_t`, which wraps.
unfoldable pub add_separator : Joining → Joining
unfolding strncat
add_separator j =
    let len' = if j.len == 0 then 2 ^ 64 - 1 else j.len - 1 in
    record { dest = strncat j.dest (path_separator ∷ []) len'; len = len'; idx = j.idx + 1 }

unfoldable pub add_part : Joining → List ℕ → Joining
unfolding strncat
add_part j part = record {
  dest = strncat j.dest part j.len;
  len = j.len;
  idx = j.idx + length part;
}

-- The loop; `first` is `i == 0`. `none` is NULL. What is written behind the end of the buffer is kept
-- in `dest` like the rest.
unfoldable pub join_from : (ℕ → ℕ) → Bool → Joining → List (List ℕ) → Option (List ℕ)
unfolding char_before add_separator add_part
join_from stale first j [] = some j.dest
join_from stale first j (part ∷ parts) =
    let rest = record j { len = j.len - length part } in
    let apart = not first && not (char_before stale j.dest j.idx == path_separator) in
    let j' = if apart then add_separator rest else rest in
    let joined = join_from stale false (add_part j' part) parts in
    if ltb j.len (length part) then none else joined

unfoldable pub path_join_array : (ℕ → ℕ) → ℕ → List (List ℕ) → Option (List ℕ)
unfolding join_from
path_join_array stale len parts =
    join_from stale true (record { dest = []; len = len; idx = 0 }) parts

-- The variadic form; the NULL that ends the parts counts as one.
unfoldable pub path_join : (ℕ → ℕ) → ℕ → List (List ℕ) → Option (List ℕ)
unfolding path_join_array
path_join stale len parts =
    if ltb (length parts + 1) path_max_parts then path_join_array stale len parts else none

-- `strchr` for the separator: the text before it and behind it.
unfoldable pub cut : List ℕ → Option (List ℕ × List ℕ)
cut [] = none
cut (c ∷ cs) =
    let later = cut cs in
    if c == path_separator
    then some ([], cs)
    else elim later [ none ↦ none | some (part, rest) ↦ some (c ∷ part, rest) ]

-- The part that is added; whether `ps_storage` and `ps_parts` have room for it is tested once, by
-- `stored`, as both only fill up.
unfoldable pub path_split_add : List (List ℕ) → List ℕ → List (List ℕ)
path_split_add parts [] = parts
path_split_add parts (c ∷ cs) = parts ++ ((c ∷ cs) ∷ [])

-- The loop from the left and the rest behind it.
unfoldable pub split_forward : ℕ → List ℕ → List (List ℕ) → List (List ℕ)
unfolding cut path_split_add
split_forward zero orig parts = path_split_add parts orig
split_forward (suc max) orig parts = elim (cut orig) [
  | none ↦ path_split_add parts orig
  | some (part, rest) ↦ split_forward max rest (path_split_add parts part)
]

unfoldable pub backwards : List ℕ → List ℕ
backwards [] = []
backwards (c ∷ cs) = backwards cs ++ (c ∷ [])

unfoldable pub drop_separators : List ℕ → List ℕ
drop_separators [] = []
drop_separators (c ∷ cs) = if c == path_separator then drop_separators cs else c ∷ cs

-- What is left of `orig` without its leading separators; `left` is `path` up to `orig`, backwards.
-- `none` is a negative length: the separators at the start of the path reach behind `orig`.
unfoldable pub finish_reverse : List ℕ → List ℕ → List (List ℕ) → Option (List (List ℕ))
unfolding backwards drop_separators path_split_add
finish_reverse path [] parts = some parts
finish_reverse path (c ∷ cs) parts =
    let leading = length path - length (drop_separators path) in
    if ltb (length (c ∷ cs)) leading
    then none
    else some (path_split_add parts (drop_separators (backwards (c ∷ cs))))

-- The loop from the right, with one round less than `-max`.
unfoldable pub split_reverse : ℕ → List ℕ → List ℕ → List (List ℕ) → Option (List (List ℕ))
unfolding cut backwards path_split_add finish_reverse
split_reverse zero path left parts = finish_reverse path left parts
split_reverse (suc more) path left parts = elim (cut left) [
  | none ↦ finish_reverse path left parts
  | some (part, left') ↦ split_reverse more path left' (path_split_add parts (backwards part))
]

-- `ps_parts` as the parts that have been added.
pub record PathSplitIter : Type 0 where
  pub ps_part : ℕ
  pub ps_parts : List (List ℕ)

-- The bytes of `ps_storage` that the parts take, each with its NUL.
unfoldable pub storage_of : List (List ℕ) → ℕ
storage_of [] = 0
storage_of (part ∷ parts) = suc (length part) + storage_of parts

-- `none` is a write behind `ps_storage` or behind `ps_parts`, which the source does not test.
unfoldable pub stored : List (List ℕ) → Option (List (List ℕ))
unfolding storage_of
stored parts =
    if leb (storage_of parts) path_max_len && leb (length parts) path_max_parts
    then some parts
    else none

-- The parts of a path; `none` is a write out of bounds or a negative length.
unfoldable pub split_parts : ℤ → List ℕ → Option (List (List ℕ))
unfolding split_forward split_reverse backwards stored
split_parts (pos zero) path = some []
split_parts (pos (suc n)) path =
    if ltb path_max_parts (suc n) then some [] else stored (split_forward (suc n) path [])
split_parts (negsuc n) path =
    let reversed = split_reverse n path (backwards path) [] in
    if ltb path_max_parts (suc n)
    then some []
    else elim reversed [ none ↦ none | some parts ↦ stored parts ]

-- The iterator; the returned part is the first, if there is one.
unfoldable pub path_split : ℤ → List ℕ → Option PathSplitIter
unfolding split_parts
path_split max path = elim (split_parts max path) [
  | none ↦ none
  | some parts ↦ some (record { ps_part = 1; ps_parts = parts })
]

unfoldable pub nth_part : List (List ℕ) → ℕ → Option (List ℕ)
nth_part [] i = none
nth_part (p ∷ ps) zero = some p
nth_part (p ∷ ps) (suc i) = nth_part ps i

-- `none` is NULL, or an element that has not been set.
unfoldable pub path_split_next : PathSplitIter → Option (List ℕ) × PathSplitIter
unfolding nth_part
path_split_next iter =
    if iter.ps_part == length iter.ps_parts
    then (none, iter)
    else (nth_part iter.ps_parts iter.ps_part, record iter { ps_part = iter.ps_part + 1 })

unfoldable pub path_basename : List ℕ → Option (List ℕ)
unfolding path_split nth_part
path_basename path = elim (path_split (negsuc 0) path) [
  | none ↦ none
  | some iter ↦ nth_part iter.ps_parts 0
]

unfoldable pub path_dirname : List ℕ → Option (List ℕ)
unfolding path_split path_split_next
path_dirname path = elim (path_split (negsuc 0) path) [
  | none ↦ none
  | some iter ↦ (path_split_next iter).0
]
