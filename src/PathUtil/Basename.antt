-- ===== src/PathUtil/Basename.antt =====
-- lib/libtscommon/include/pathutil.h, `path_basename` and `path_dirname`.
use v_perf_generator.PathUtil.{
  path_split_add, backwards, drop_separators, finish_reverse, split_reverse, split_parts,
  path_split, nth_part, path_split_next, path_basename, path_dirname, PathSplitIter, stored,
  storage_of, path_max_len,
}
use v_perf_generator.PathUtil.Joined.{path_split_add-name}
use v_perf_generator.Common.{
  ℕ, ℕ, ◌-◌, ltb, leb, true, suc, ◌+◌, ◌<◌, ◌≡◌, false, some, none, Option, List, [], ◌∷◌, ◌++◌,
  length, length-append, refl, ap, ◌∙◌, arith,
}
use v_perf_generator.Common.Int.{negsuc}

backwards-append : (xs : List ℕ) (c : ℕ) → backwards (xs ++ (c ∷ [])) ≡ c ∷ backwards xs
unfolding backwards
backwards-append [] c = refl
backwards-append (x ∷ xs) c = ap (λ l. l ++ (x ∷ [])) (backwards-append xs c)

backwards-backwards : (xs : List ℕ) → backwards (backwards xs) ≡ xs
unfolding backwards
backwards-backwards [] = refl
backwards-backwards (x ∷ xs) =
    backwards-append (backwards xs) x ∙ ap (λ l. x ∷ l) (backwards-backwards xs)

length-backwards : (xs : List ℕ) → length (backwards xs) ≡ length xs
unfolding backwards
length-backwards [] = refl
length-backwards (x ∷ xs) =
    omega (arith, length-append (backwards xs) (x ∷ []), length-backwards xs)

finish_reverse-whole :
    (path left : List ℕ)
    → left ≡ backwards path
    → finish_reverse path left [] ≡ some (path_split_add [] (drop_separators path))
unfolding finish_reverse path_split_add drop_separators backwards
finish_reverse-whole [] [] e = refl
finish_reverse-whole [] (c ∷ cs) e = absurd (cc)
finish_reverse-whole (x ∷ xs) [] e = absurd (omega (arith, length-backwards (x ∷ xs), ap length e))
finish_reverse-whole (x ∷ xs) (c ∷ cs) e =
    let path = x ∷ xs in
    let same : backwards (c ∷ cs) ≡ path = ap backwards e ∙ backwards-backwards path in
    let size : length (c ∷ cs) ≡ length path = ap length e ∙ length-backwards path in
    let within : ltb (length (c ∷ cs)) (length path - length (drop_separators path)) ≡ false =
      ground (arith, size) in
    rw (within, same) refl

stored_one : (part : List ℕ) → length part < path_max_len → stored (part ∷ []) ≡ some (part ∷ [])
unfolding stored storage_of
stored_one part size =
    let room : leb (suc (length part) + 0) path_max_len ≡ true = ground (arith, size) in
    rw room refl

split_one :
    (path : List ℕ)
    → 0 < length (drop_separators path)
    → length (drop_separators path) < path_max_len
    → path_split (negsuc 0) path
      ≡ some (record { ps_part = 1; ps_parts = drop_separators path ∷ [] })
unfolding path_split split_parts split_reverse
split_one path more size =
    let opened : Option (List (List ℕ)) → Option PathSplitIter =
      λ o. elim o [ none ↦ none | some parts ↦ some (record { ps_part = 1; ps_parts = parts }) ] in
    ap (λ (o : Option (List (List ℕ))). opened (elim o [ none ↦ none | some parts ↦ stored parts ]))
      (finish_reverse-whole path (backwards path) refl
        ∙ ap some (path_split_add-name [] (drop_separators path) more))
    ∙ ap opened (stored_one (drop_separators path) size)

-- For a path that has more than separators, and without its leading ones fewer than 256 bytes,
-- path_basename gives the whole path but for its leading separators, and path_dirname gives nothing: a
-- path_split of at most one part, from the right, stops at the first separator that it finds, before
-- it has taken a part.
pub path_basename_whole :
    (path : List ℕ)
    → 0 < length (drop_separators path)
    → length (drop_separators path) < path_max_len
    → (path_basename path ≡ some (drop_separators path)) × (path_dirname path ≡ none)
unfolding path_basename path_dirname path_split_next nth_part
path_basename_whole path more size = (
  ap (λ (o : Option PathSplitIter). elim o [ none ↦ none | some iter ↦ nth_part iter.ps_parts 0 ])
      (split_one path more size),
  ap (λ (o : Option PathSplitIter). elim o [ none ↦ none | some iter ↦ (path_split_next iter).0 ])
      (split_one path more size),
)
