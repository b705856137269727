-- ===== src/HashMap/Lookup.antt =====
-- Lookups after an insertion: lib/libtscommon/src/hashmap.c.
use v_perf_generator.HashMap.{HashMap, hm_ok, hash_map_insert, hash_map_find}
use v_perf_generator.HashMap.Buckets.{Rep}
use v_perf_generator.HashMap.Insert.{matches, find_in, find-Rep, grown, insert-Rep}
use v_perf_generator.Common.{
  subst, subst, length-append, ap, ◌≤◌, ◌∙◌, sym, ==_iff, ◌==◌, ◌+◌, ◌≤◌, ◌≡◌, ◌∷◌, ◌↔◌, ℕ, true,
  some, refl, none, length, inr, inl, if◌then◌else◌, false, arith, [], List, Bool-cases, Bool, ◌<◌,
  ◌++◌, ◌+◌,
}
use v_perf_generator.Common.Memory.{Fresh}

module _ {ℓ} {K : Type ℓ} (key : ℕ → K) (hash : K → ℕ) (compare_keys : K → K → Bool)
    (decides : (a b : K) → (compare_keys a b ≡ true) ↔ (a ≡ b)) where
  find_in-append :
      (k : K) (object : ℕ) (xs : List ℕ)
      → matches key hash compare_keys (key object) xs ≡ false
      → find_in key hash compare_keys k (xs ++ (object ∷ []))
        ≡ (if compare_keys (key object) k then some object else find_in key hash compare_keys k xs)
  find_in-append k object [] m = refl
  find_in-append k object (x ∷ xs) m = elim (Bool-cases (compare_keys (key x) k)) [
    | inl hit ↦
        let e : key x ≡ k = (decides (key x) k).0 hit in
        let miss : compare_keys (key object) k ≡ false =
          elim (Bool-cases (compare_keys (key object) k)) [
            | inl t ↦ absurd (
                ground (
                  arith,
                  (decides (key x) (key object)).1 (e ∙ sym ((decides (key object) k).0 t)),
                ))
            | inr f ↦ f
          ] in
        rw (hit, miss)
    | inr miss ↦ rw miss (find_in-append k object xs (ground arith))
  ]

  find_in-grown :
      (hm : HashMap) (table : ℕ → List ℕ) (object : ℕ) (k : K) (r : Rep key hash hm table)
      (n : hm.next object ≡ none) (lt : hash (key object) < length hm.heads)
      (fr : Fresh object (table (hash (key object))))
      → matches key hash compare_keys (key object) (table (hash (key object))) ≡ false
      → (find_in key hash compare_keys k
            (grown key hash compare_keys hm table object r n lt fr (hash k))
          ≡ (if compare_keys (key object) k
              then some object
              else find_in key hash compare_keys k (table (hash k))))
        × (length (grown key hash compare_keys hm table object r n lt fr (hash k))
            ≤ length (table (hash k)) + 1)
  find_in-grown hm table object k r n lt fr m = elim (Bool-cases (hash (key object) == hash k)) [
    | inl here ↦
        let e : hash (key object) ≡ hash k = (==_iff _ _).0 here in
        rw (here, e)
          (
            find_in-append k object (table (hash k))
                (subst (λ j. matches key hash compare_keys (key object) (table j) ≡ false) e m),
            omega (arith, length-append (table (hash k)) (object ∷ [])),
          )
    | inr away ↦
        let miss : compare_keys (key object) k ≡ false =
          elim (Bool-cases (compare_keys (key object) k)) [
            | inl t ↦ absurd (ground (arith, ap hash ((decides (key object) k).0 t)))
            | inr f ↦ f
          ] in
        rw (away, miss) (refl, omega arith)
  ]

  -- After an object has been inserted, a lookup by its key finds it, and a lookup by any other key
  -- finds what it found before.
  pub find-insert :
      (hm hm' : HashMap) (table : ℕ → List ℕ) (object fuel fuel' : ℕ) (k : K)
      → Rep key hash hm table
      → hm.next object ≡ none
      → hash (key object) < length hm.heads
      → Fresh object (table (hash (key object)))
      → length (table (hash (key object))) ≤ fuel
      → hash k < length hm.heads
      → length (table (hash k)) + 1 < fuel'
      → hash_map_insert key hash compare_keys fuel hm object ≡ some (hm_ok, hm')
      → hash_map_find key hash compare_keys fuel' hm' k ≡ (
          if compare_keys (key object) k
          then some (some object)
          else hash_map_find key hash compare_keys fuel' hm k)
  find-insert hm hm' table object fuel fuel' k r n lt fr h lk h' e =
      let out = insert-Rep key hash compare_keys hm table object r n lt fr fuel h in
      elim (Bool-cases (matches key hash compare_keys (key object) (table (hash (key object))))) [
        | inl old ↦ let dup = (rw old at out) in absurd (ground arith)
        | inr new ↦
            let (hm'', ok, rep, len) = (rw new at out) in
            let (same, size) = find_in-grown hm table object k r n lt fr new in
            let e' : hm' ≡ hm'' = ground arith in
            rw
              (
                e',
                find-Rep key hash compare_keys hm'' _ fuel' k rep (omega arith) (omega arith),
                find-Rep key hash compare_keys hm table fuel' k r lk (omega arith),
                same,
              )
              (ground arith)
      ]
