-- ===== src/HashMap/Walked.antt =====
-- `hash_map_walk` over a whole map: lib/libtscommon/src/hashmap.c.
use v_perf_generator.HashMap.{HashMap, walk_chain, walk_from, hash_map_walk}
use v_perf_generator.HashMap.Buckets.{Rep, Fresh-other}
use v_perf_generator.HashMap.Walk.{walker, kept, visit_all, from_head}
use v_perf_generator.Common.Memory.{Pointer, Chain, Fresh, Distinct}
use v_perf_generator.Common.{
  ◌≢◌, ◌∙◌, true, sym, subst, refl, false, arith, ==_iff, ◌==◌, ◌≢◌, ◌≡◌, ◌∷◌, ℕ, zero, suc, some,
  none, ltb, length, inr, inl, if◌then◌else◌, get_or, [], List, Bool-cases, Bool, All, ◌<◌, ◌+◌,
}

module _ {ℓ} (P : ℕ → Type ℓ) (drop : ℕ → Bool) where
  All-kept : (xs : List ℕ) → All P xs → All P (kept drop xs)
  All-kept [] a = tt
  All-kept (x ∷ xs) a = elim (Bool-cases (drop x)) [
    | inl gone ↦ rw gone (All-kept xs a.1)
    | inr stays ↦ rw stays (a.0, All-kept xs a.1)
  ]

Distinct-kept : (drop : ℕ → Bool) (xs : List ℕ) → Distinct xs → Distinct (kept drop xs)
Distinct-kept drop [] d = tt
Distinct-kept drop (x ∷ xs) d = elim (Bool-cases (drop x)) [
  | inl gone ↦ rw gone (Distinct-kept drop xs d.1)
  | inr stays ↦ rw stays (All-kept _ drop xs d.0, Distinct-kept drop xs d.1)
]

Chain-same :
    (f g : ℕ → Pointer) (p : Pointer) (xs : List ℕ)
    → All (λ a. g a ≡ f a) xs
    → Chain f p xs
    → Chain g p xs
Chain-same f g p [] s c = c
Chain-same f g p (x ∷ xs) s c = (c.0, rw s.0 (Chain-same f g (f x) xs s.1 c.1))

-- The table when the chains before `i` have been walked.
abbrev part : (ℕ → Bool) → (ℕ → List ℕ) → ℕ → ℕ → List ℕ
part drop table i j = if ltb j i then kept drop (table j) else table j

module _ (drop : ℕ → Bool) (table : ℕ → List ℕ) where
  part_self : (i : ℕ) → part drop table i i ≡ table i
  part_self i = let e : ltb i i ≡ false = ground arith in rw e refl

  part_walked : (i : ℕ) → part drop table (i + 1) i ≡ kept drop (table i)
  part_walked i = let e : ltb i (i + 1) ≡ true = ground arith in rw e refl

  part_other : (i j : ℕ) → i ≢ j → part drop table (i + 1) j ≡ part drop table i j
  part_other i j n = let e : ltb j (i + 1) ≡ ltb j i = ground arith in rw e refl

abbrev pub visit_from {κ} : {S : Type κ} → (ℕ → S → S) → (ℕ → List ℕ) → ℕ → ℕ → S → S
visit_from visit table zero i s = s
visit_from visit table (suc left) i s =
    visit_from visit table left (i + 1) (visit_all visit (table i) s)

module _ {ℓ κ} {K : Type ℓ} {S : Type κ} (key : ℕ → K) (hash : K → ℕ) (compare_keys : K → K → Bool)
    (drop : ℕ → Bool) (visit : ℕ → S → S) (table : ℕ → List ℕ) where
  untouched :
      (f g : ℕ → Pointer) (i j : ℕ) (xs ys : List ℕ)
      → j ≢ i
      → All (λ x. hash (key x) ≡ i) ys
      → ((a : ℕ) → Fresh a ys → g a ≡ f a)
      → All (λ x. hash (key x) ≡ j) xs
      → All (λ a. g a ≡ f a) xs
  untouched f g i j [] ys n h out a = tt
  untouched f g i j (x ∷ xs) ys n h out a =
      (out x (Fresh-other key hash x j i ys a.0 n h), untouched f g i j xs ys n h out a.1)

  walk_bucket :
      (fuel : ℕ) (hm : HashMap) (i : ℕ) (s : S)
      → Rep key hash hm (part drop table i)
      → i < length hm.heads
      → length (table i) < fuel
      → (hm' : HashMap) × (walk_chain key hash compare_keys
            (walker drop visit)
            fuel
            hm
            i
            none
            (get_or hm.heads i none)
            s
          ≡ some (none, hm', visit_all visit (table i) s))
        × (length hm'.heads ≡ length hm.heads)
        × Rep key hash hm' (part drop table (i + 1))
  walk_bucket fuel hm i s r lt h =
      let here = part_self drop table i in
      let (hm', w, len, same, chain, out) =
        from_head key hash compare_keys drop visit (table i) fuel hm i (get_or hm.heads i none) s
          refl lt (rw here at (r.chains i lt)) (rw here at (r.distinct i)) h in
      (
        hm',
        w,
        len,
        record {
          chains = λ j lt'. elim (Bool-cases (i == j)) [
            | inl this ↦
                let e : i ≡ j = (==_iff i j).0 this in
                subst (λ k. Chain hm'.next (get_or hm'.heads k none) (part drop table (i + 1) k)) e
                  (rw (part_walked drop table i) chain)
            | inr other ↦
                let n : i ≢ j = ground arith in
                rw (part_other drop table i j n, same j n)
                  (Chain-same hm.next hm'.next (get_or hm.heads j none) (part drop table i j)
                    (untouched hm.next hm'.next i j (part drop table i j) (table i) (λ e. n (sym e))
                      (rw here at (r.hashed i)) out (r.hashed j))
                    (r.chains j (omega (arith, len))))
          ];
          hashed = λ j. elim (Bool-cases (i == j)) [
            | inl this ↦
                let e : i ≡ j = (==_iff i j).0 this in
                subst (λ k. All (λ x. hash (key x) ≡ k) (part drop table (i + 1) k)) e
                  (rw (part_walked drop table i)
                    (All-kept _ drop (table i) (rw here at (r.hashed i))))
            | inr other ↦ rw (part_other drop table i j (ground arith)) (r.hashed j)
          ];
          distinct = λ j. elim (Bool-cases (i == j)) [
            | inl this ↦
                let e : i ≡ j = (==_iff i j).0 this in
                subst (λ k. Distinct (part drop table (i + 1) k)) e
                  (rw (part_walked drop table i)
                    (Distinct-kept drop (table i) (rw here at (r.distinct i))))
            | inr other ↦ rw (part_other drop table i j (ground arith)) (r.distinct j)
          ];
        },
      )

  walk_buckets :
      (left fuel : ℕ) (hm : HashMap) (i : ℕ) (s : S)
      → Rep key hash hm (part drop table i)
      → i + left ≡ length hm.heads
      → ((j : ℕ) → length (table j) < fuel)
      → (hm' : HashMap) × (walk_from key hash compare_keys (walker drop visit) fuel left hm i s
          ≡ some (none, hm', visit_from visit table left i s))
        × (length hm'.heads ≡ length hm.heads)
        × Rep key hash hm' (part drop table (i + left))
  unfolding walk_from
  walk_buckets zero fuel hm i s r e h = let z : i + 0 ≡ i = omega arith in (hm, refl, refl, rw z r)
  walk_buckets (suc left) fuel hm i s r e h =
      let (hm1, w, len, r1) = walk_bucket fuel hm i s r (omega arith) (h i) in
      let (hm2, w', len', r2) =
        walk_buckets left fuel hm1 (i + 1) (visit_all visit (table i) s) r1 (omega (arith, len))
          h in
      let z : i + suc left ≡ i + 1 + left = omega arith in
      (hm2, rw (walk_from, w) w', len' ∙ len, rw z r2)

  -- A walk with a function that does not stop visits every object once, chain by chain and in the
  -- order of the chain. Afterwards the chains hold the objects that the function did not remove, in
  -- the same order. One step for each object of a chain and one more is enough.
  pub hash_map_walk-Rep :
      (fuel : ℕ) (hm : HashMap) (s : S)
      → Rep key hash hm table
      → ((j : ℕ) → length (table j) < fuel)
      → (hm' : HashMap) × (hash_map_walk key hash compare_keys (walker drop visit) fuel hm s
          ≡ some (none, hm', visit_from visit table (length hm.heads) 0 s))
        × (length hm'.heads ≡ length hm.heads)
        × Rep key hash hm' (λ i. kept drop (table i))
  unfolding hash_map_walk
  hash_map_walk-Rep fuel hm s r h =
      let start : Rep key hash hm (part drop table 0) = record {
        chains = λ j lt. rw (start_part j) (r.chains j lt);
        hashed = λ j. rw (start_part j) (r.hashed j);
        distinct = λ j. rw (start_part j) (r.distinct j);
      } in
      let (hm', w, len, r') = walk_buckets (length hm.heads) fuel hm 0 s start (omega arith) h in
      (
        hm',
        w,
        len,
        record {
          chains = λ i lt. rw (all_walked i (omega (arith, len))) at (r'.chains i lt);
          hashed = λ i. All-kept _ drop (table i) (r.hashed i);
          distinct = λ i. Distinct-kept drop (table i) (r.distinct i);
        },
      )
    where
      start_part : (j : ℕ) → part drop table 0 j ≡ table j
      start_part j = let e : ltb j 0 ≡ false = ground arith in rw e refl

      all_walked :
          (j : ℕ)
          → j < length hm.heads
          → part drop table (0 + length hm.heads) j ≡ kept drop (table j)
      all_walked j lt = let e : ltb j (0 + length hm.heads) ≡ true = ground arith in rw e refl
