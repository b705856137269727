-- ===== src/HashMap/Insert.antt =====
-- `hash_map_insert` and `hash_map_find` of lib/libtscommon/src/hashmap.c on a well-formed map.
use v_perf_generator.HashMap.{
  set_next, set_head, HashMap, HmResult, hm_ok, hm_duplicate, duplicate, tail_at, find_tail,
  hash_map_insert, find_from, hash_map_find,
}
use v_perf_generator.HashMap.Buckets.{All-last, Fresh-other, Rep}
use v_perf_generator.Common.{
  true, true, get_or-set_self, Option, subst, subst, set, length-set, get_or-set_ne, get_or,
  All-append, ==_iff, ◌≤◌, ◌≤◌, ◌≡◌, ◌∷◌, ℕ, ◌||◌, zero, suc, some, refl, none, length, inr, inl,
  if◌then◌else◌, false, arith, [], List, Bool-cases, Bool, All, ◌==◌, ◌<◌, ◌++◌,
}
use v_perf_generator.Common.Memory.{
  Chain-update, Chain-link, last, Distinct-append, update, Distinct, Chain, Pointer, Fresh,
}

module _ {ℓ} {K : Type ℓ} (key : ℕ → K) (hash : K → ℕ) (compare_keys : K → K → Bool) where
  -- Some object of a chain has the key.
  abbrev pub matches : K → List ℕ → Bool
  matches k [] = false
  matches k (x ∷ xs) = compare_keys (key x) k || matches k xs

  -- The first such object.
  abbrev pub find_in : K → List ℕ → Pointer
  find_in k [] = none
  find_in k (x ∷ xs) = if compare_keys (key x) k then some x else find_in k xs

  find_tail_lem :
      (hm : HashMap) (fuel : ℕ) (p : Pointer) (x object : ℕ) (xs : List ℕ)
      → Chain hm.next p (x ∷ xs)
      → length (x ∷ xs) ≤ fuel
      → find_tail key hash compare_keys hm fuel x object
        ≡ some (if matches (key object) (x ∷ xs) then duplicate else tail_at (last x xs))
  unfolding find_tail
  find_tail_lem hm zero p x object xs c h = absurd (omega arith)
  find_tail_lem hm (suc fuel) p x object [] c h = ground arith
  find_tail_lem hm (suc fuel) p x object (y ∷ ys) c h =
      ground (arith, find_tail_lem hm fuel (hm.next x) y object ys c.1)

  find_from_lem :
      (hm : HashMap) (fuel : ℕ) (p : Pointer) (k : K) (xs : List ℕ)
      → Chain hm.next p xs
      → length xs < fuel
      → find_from key hash compare_keys hm fuel p k ≡ some (find_in k xs)
  unfolding find_from
  find_from_lem hm zero p k xs c h = absurd (omega arith)
  find_from_lem hm (suc fuel) p k [] c h = rw c refl
  find_from_lem hm (suc fuel) p k (x ∷ xs) c h =
      rw c.0 (ground (arith, find_from_lem hm fuel (hm.next x) k xs c.1))

  -- The lookup finds the first object of the key's chain that has the key, and needs one step for
  -- each object of the chain and one more.
  pub find-Rep :
      (hm : HashMap) (table : ℕ → List ℕ) (fuel : ℕ) (k : K)
      → Rep key hash hm table
      → hash k < length hm.heads
      → length (table (hash k)) < fuel
      → hash_map_find key hash compare_keys fuel hm k ≡ some (find_in k (table (hash k)))
  unfolding hash_map_find
  find-Rep hm table fuel k r h f =
      find_from_lem hm fuel _ k (table (hash k)) (r.chains (hash k) h) f

  module _ (hm : HashMap) (table : ℕ → List ℕ) (object : ℕ) (r : Rep key hash hm table)
      (unlinked : hm.next object ≡ none) (in_range : hash (key object) < length hm.heads)
      (fresh : Fresh object (table (hash (key object)))) where
    abbrev pub grown : ℕ → List ℕ
    grown = update table (hash (key object)) (table (hash (key object)) ++ (object ∷ []))

    grown-hashed : (i : ℕ) → All (λ x. hash (key x) ≡ i) (grown i)
    grown-hashed i = elim (Bool-cases (hash (key object) == i)) [
      | inl here ↦ rw here (
          subst (λ j. All (λ x. hash (key x) ≡ j) (table (hash (key object)) ++ (object ∷ [])))
            ((==_iff _ i).0 here)
            (All-append (λ x. hash (key x) ≡ hash (key object)) (table (hash (key object)))
              (object ∷ []) (r.hashed _) (refl, tt)))
      | inr away ↦ rw away (r.hashed i)
    ]

    grown-Distinct : (i : ℕ) → Distinct (grown i)
    grown-Distinct i = elim (Bool-cases (hash (key object) == i)) [
      | inl here ↦ rw here (Distinct-append _ object (r.distinct _) fresh)
      | inr away ↦ rw away (r.distinct i)
    ]

    -- The first object of an empty chain becomes its head.
    head-Rep :
        table (hash (key object)) ≡ []
        → Rep key hash (set_head key hash compare_keys hm (hash (key object)) (some object)) grown
    unfolding set_head
    head-Rep e = record { chains = chain; hashed = grown-hashed; distinct = grown-Distinct }
      where
        chain :
            (i : ℕ)
            → i < length (set hm.heads (hash (key object)) (some object))
            → Chain hm.next
                (get_or (set hm.heads (hash (key object)) (some object)) i none)
                (grown i)
        chain i lt = elim (Bool-cases (hash (key object) == i)) [
          | inl here ↦ rw here (
              subst
                (λ j.
                  Chain hm.next (get_or (set hm.heads (hash (key object)) (some object)) j none)
                    (table (hash (key object)) ++ (object ∷ [])))
                ((==_iff _ i).0 here)
                (rw (get_or-set_self hm.heads (hash (key object)) (some object) none in_range, e)
                  (refl, unlinked)))
          | inr away ↦
              rw
                (
                  away,
                  get_or-set_ne hm.heads (hash (key object)) i (some object) none (ground arith),
                )
                (r.chains i (omega (arith, length-set hm.heads (hash (key object)) (some object))))
        ]

    tail-Rep :
        (x : ℕ) (xs : List ℕ)
        → table (hash (key object)) ≡ x ∷ xs
        → Rep key hash (set_next key hash compare_keys hm (last x xs) (some object)) grown
    unfolding set_next
    tail-Rep x xs e = record { chains = chain; hashed = grown-hashed; distinct = grown-Distinct }
      where
        chain :
            (i : ℕ)
            → i < length hm.heads
            → Chain (update hm.next (last x xs) (some object)) (get_or hm.heads i none) (grown i)
        chain i lt = elim (Bool-cases (hash (key object) == i)) [
          | inl here ↦ rw here (
              subst
                (λ j.
                  Chain (update hm.next (last x xs) (some object)) (get_or hm.heads j none)
                    (table (hash (key object)) ++ (object ∷ [])))
                ((==_iff _ i).0 here)
                (rw e (
                  Chain-link hm.next object x _ xs unlinked (rw e at fresh)
                    (rw e at (r.distinct (hash (key object))))
                    (rw e at (r.chains (hash (key object)) in_range)))))
          | inr away ↦ rw away (
              Chain-update hm.next (last x xs) (some object) _ (table i)
                (Fresh-other key hash (last x xs) (hash (key object)) i (table i)
                  (All-last key hash (hash (key object)) x xs
                    (rw e at (r.hashed (hash (key object)))))
                  (ground arith) (r.hashed i))
                (r.chains i lt))
        ]

    -- What `hash_map_insert` does with an object that is in no chain, by the keys of its chain.
    abbrev pub Inserted : Option (HmResult × HashMap) → Bool → Type 0
    Inserted out true = out ≡ some (hm_duplicate, hm)
    Inserted out false =
        (hm' : HashMap) × (out ≡ some (hm_ok, hm'))
        × Rep key hash hm' grown
        × (length hm'.heads ≡ length hm.heads)

    insert_chain :
        (fuel : ℕ) (xs : List ℕ)
        → table (hash (key object)) ≡ xs
        → length xs ≤ fuel
        → Inserted (hash_map_insert key hash compare_keys fuel hm object) (matches (key object) xs)
    unfolding hash_map_insert
    insert_chain fuel [] e h = (
      set_head key hash compare_keys hm (hash (key object)) (some object),
      rw ((rw e at (r.chains (hash (key object)) in_range)), hash_map_insert),
      head-Rep e,
      length-set hm.heads (hash (key object)) (some object),
    )
    insert_chain fuel (x ∷ xs) e h =
        let chain : Chain hm.next (get_or hm.heads (hash (key object)) none) (x ∷ xs) =
          rw e at (r.chains (hash (key object)) in_range) in
        let walk = find_tail_lem hm fuel _ x object xs chain h in
        elim (Bool-cases (matches (key object) (x ∷ xs))) [
          | inl old ↦ rw old (rw (chain.0, walk, old, hash_map_insert))
          | inr new ↦ rw new (
            set_next key hash compare_keys hm (last x xs) (some object),
            rw (chain.0, walk, new, hash_map_insert),
            tail-Rep x xs e,
            refl,
          )
        ]

    -- An object whose link is NULL and whose key no object of its chain has becomes the last of that
    -- chain, and all other chains stay. If an object of the chain has the key, the map is left as it
    -- was and the answer is HASH_MAP_DUPLICATE. One step for each object of the chain is enough.
    pub insert-Rep :
        (fuel : ℕ)
        → length (table (hash (key object))) ≤ fuel
        → Inserted
            (hash_map_insert key hash compare_keys fuel hm object)
            (matches (key object) (table (hash (key object))))
    insert-Rep fuel h = insert_chain fuel (table (hash (key object))) refl h
