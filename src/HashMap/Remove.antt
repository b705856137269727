-- ===== src/HashMap/Remove.antt =====
-- `hash_map_remove` of lib/libtscommon/src/hashmap.c on a well-formed map.
use v_perf_generator.HashMap.{
  HashMap, HmResult, hm_ok, hm_not_found, hm_abort, find_prev, set_head, set_next, hash_map_remove,
}
use v_perf_generator.HashMap.Buckets.{Fresh-other, Rep}
use v_perf_generator.Common.{
  ◌≤◌, ◌≤◌, true, sym, set, length-set, get_or-set_self, get_or-set_ne, get_or, Option-cases,
  Option, All, sym, subst, ◌≢◌, zero, suc, length, ==_self, ==_of_ne, ==_iff, ◌==◌, ◌<◌, ◌≢◌, ◌≡◌,
  ◌∷◌, ◌↔◌, ℕ, ◌||◌, some, refl, none, inr, inl, if◌then◌else◌, false, arith, [], List, Bool-cases,
  Bool, ◌==◌,
}
use v_perf_generator.Common.Memory.{Chain-update, update, Chain, Pointer, Fresh, Distinct}

-- The first of a list that is not `a`, and so on.
abbrev pub without : ℕ → List ℕ → List ℕ
without a [] = []
without a (x ∷ xs) = if x == a then xs else x ∷ without a xs

abbrev pub holds : ℕ → List ℕ → Bool
holds a [] = false
holds a (x ∷ xs) = x == a || holds a xs

-- The object before `a`, of those behind `x`.
abbrev before : ℕ → ℕ → List ℕ → Pointer
before a x [] = none
before a x (y ∷ ys) = if y == a then some x else before a y ys

before-holds : (a x : ℕ) (xs : List ℕ) → (before a x xs ≡ none) ↔ (holds a xs ≡ false)
before-holds a x [] = (λ e. refl, λ e. refl)
before-holds a x (y ∷ ys) = let ih = before-holds a y ys in ground arith

before-ne : (a x p w : ℕ) (xs : List ℕ) → Fresh w (x ∷ xs) → before a x xs ≡ some p → p ≢ w
before-ne a x p w [] f e = cc
before-ne a x p w (y ∷ ys) f e = elim (Bool-cases (y == a)) [
  | inl here ↦ ground arith
  | inr away ↦ before-ne a y p w ys f.1 (ground arith)
]

All-before :
    (P : ℕ → Type 0) (a x p : ℕ) (xs : List ℕ) → before a x xs ≡ some p → All P (x ∷ xs) → P p
All-before P a x p [] e h = cc
All-before P a x p (y ∷ ys) e h = elim (Bool-cases (y == a)) [
  | inl here ↦ let q : x ≡ p = ground arith in subst P q h.0
  | inr away ↦ All-before P a y p ys (ground arith) h.1
]

holds_of_before : (a x p : ℕ) (xs : List ℕ) → before a x xs ≡ some p → holds a xs ≡ true
holds_of_before a x p [] e = cc
holds_of_before a x p (y ∷ ys) e = ground (arith, holds_of_before a y p ys)

-- Taking the link of `a` for that of the object before it takes `a` out of the chain.
Chain-unlink :
    (next : ℕ → Pointer) (a x p : ℕ) (ptr : Pointer) (xs : List ℕ)
    → Distinct (x ∷ xs)
    → before a x xs ≡ some p
    → Chain next ptr (x ∷ xs)
    → Chain (update next p (next a)) ptr (x ∷ without a xs)
Chain-unlink next a x p ptr [] d e c = cc
Chain-unlink next a x p ptr (y ∷ ys) d e c = elim (Bool-cases (y == a)) [
  | inl here ↦
      let px : p ≡ x = ground arith in
      let ya : y ≡ a = (==_iff y a).0 here in
      subst (λ q. Chain (update next q (next a)) ptr (x ∷ without a (y ∷ ys))) (sym px)
        (rw (here, ==_self x)
          (
            c.0,
            subst (λ b. Chain (update next x (next b)) (next b) ys) ya
                (Chain-update next x (next y) (next y) ys d.0.1 c.1.1),
          ))
  | inr away ↦
      let e' : before a y ys ≡ some p = ground arith in
      rw (away, ==_of_ne p x (before-ne a y p x ys d.0 e'))
        (c.0, Chain-unlink next a y p (next x) ys d.1 e' c.1)
]

Fresh-without : (w a : ℕ) (xs : List ℕ) → Fresh w xs → Fresh w (without a xs)
Fresh-without w a [] f = f
Fresh-without w a (x ∷ xs) f =
    let ih = Fresh-without w a xs f.1 in
    elim (Bool-cases (x == a)) [ inl here ↦ rw here f.1 | inr away ↦ rw away (f.0, ih) ]

Distinct-without : (a : ℕ) (xs : List ℕ) → Distinct xs → Distinct (without a xs)
Distinct-without a [] d = d
Distinct-without a (x ∷ xs) d = elim (Bool-cases (x == a)) [
  | inl here ↦ rw here d.1
  | inr away ↦ rw away (Fresh-without x a xs d.0, Distinct-without a xs d.1)
]

All-without : (P : ℕ → Type 0) (a : ℕ) (xs : List ℕ) → All P xs → All P (without a xs)
All-without P a [] h = tt
All-without P a (x ∷ xs) h = elim (Bool-cases (x == a)) [
  | inl here ↦ rw here h.1
  | inr away ↦ rw away (h.0, All-without P a xs h.1)
]

module _ {ℓ} {K : Type ℓ} (key : ℕ → K) (hash : K → ℕ) (compare_keys : K → K → Bool) where
  find_prev_lem :
      (hm : HashMap) (fuel : ℕ) (p : Pointer) (x object : ℕ) (xs : List ℕ)
      → Chain hm.next p (x ∷ xs)
      → length xs < fuel
      → find_prev key hash compare_keys hm fuel x object ≡ some (before object x xs)
  unfolding find_prev
  find_prev_lem hm zero p x object xs c h = absurd (omega arith)
  find_prev_lem hm (suc fuel) p x object [] c h = rw (c.1, find_prev)
  find_prev_lem hm (suc fuel) p x object (y ∷ ys) c h =
      ground (arith, find_prev_lem hm fuel (hm.next x) y object ys c.1)

  module _ (hm : HashMap) (table : ℕ → List ℕ) (object : ℕ) (r : Rep key hash hm table)
      (in_range : hash (key object) < length hm.heads) where
    abbrev pub shrunk : ℕ → List ℕ
    shrunk = update table (hash (key object)) (without object (table (hash (key object))))

    shrunk-hashed : (i : ℕ) → All (λ x. hash (key x) ≡ i) (shrunk i)
    shrunk-hashed i = elim (Bool-cases (hash (key object) == i)) [
      | inl here ↦
          rw (here, (==_iff _ i).0 here)
            (All-without (λ x. hash (key x) ≡ i) object (table i) (r.hashed i))
      | inr away ↦ rw away (r.hashed i)
    ]

    shrunk-Distinct : (i : ℕ) → Distinct (shrunk i)
    shrunk-Distinct i = elim (Bool-cases (hash (key object) == i)) [
      | inl here ↦ rw here (Distinct-without object _ (r.distinct _))
      | inr away ↦ rw away (r.distinct i)
    ]

    first-Rep :
        (x : ℕ) (xs : List ℕ)
        → table (hash (key object)) ≡ x ∷ xs
        → (x == object) ≡ true
        → Rep key hash (set_head key hash compare_keys hm (hash (key object)) (hm.next x)) shrunk
    unfolding set_head
    first-Rep x xs e first = record {
      chains = chain;
      hashed = shrunk-hashed;
      distinct = shrunk-Distinct;
    }
      where
        chain :
            (i : ℕ)
            → i < length (set hm.heads (hash (key object)) (hm.next x))
            → Chain hm.next
                (get_or (set hm.heads (hash (key object)) (hm.next x)) i none)
                (shrunk i)
        chain i lt = elim (Bool-cases (hash (key object) == i)) [
          | inl here ↦ rw here (
              subst
                (λ j.
                  Chain hm.next (get_or (set hm.heads (hash (key object)) (hm.next x)) j none)
                    (without object (table (hash (key object)))))
                ((==_iff _ i).0 here)
                (rw
                  (get_or-set_self hm.heads (hash (key object)) (hm.next x) none in_range, e, first)
                  (rw e at (r.chains (hash (key object)) in_range)).1))
          | inr away ↦
              rw
                (away, get_or-set_ne hm.heads (hash (key object)) i (hm.next x) none (ground arith))
                (r.chains i (omega (arith, length-set hm.heads (hash (key object)) (hm.next x))))
        ]

    later-Rep :
        (x p : ℕ) (xs : List ℕ)
        → table (hash (key object)) ≡ x ∷ xs
        → (x == object) ≡ false
        → before object x xs ≡ some p
        → Rep key hash (set_next key hash compare_keys hm p (hm.next object)) shrunk
    unfolding set_next
    later-Rep x p xs e other b = record {
      chains = chain;
      hashed = shrunk-hashed;
      distinct = shrunk-Distinct;
    }
      where
        chain :
            (i : ℕ)
            → i < length hm.heads
            → Chain (update hm.next p (hm.next object)) (get_or hm.heads i none) (shrunk i)
        chain i lt = elim (Bool-cases (hash (key object) == i)) [
          | inl here ↦ rw here (
              subst
                (λ j.
                  Chain (update hm.next p (hm.next object)) (get_or hm.heads j none)
                    (without object (table (hash (key object)))))
                ((==_iff _ i).0 here)
                (rw (e, other)
                  (Chain-unlink hm.next object x p _ xs (rw e at (r.distinct (hash (key object)))) b
                    (rw e at (r.chains (hash (key object)) in_range)))))
          | inr away ↦ rw away (
              Chain-update hm.next p (hm.next object) _ (table i)
                (Fresh-other key hash p (hash (key object)) i (table i)
                  (All-before (λ y. hash (key y) ≡ hash (key object)) object x p xs b
                    (rw e at (r.hashed (hash (key object)))))
                  (ground arith) (r.hashed i))
                (r.chains i lt))
        ]

    -- What `hash_map_remove` does, by the objects of the chain and whether the object is one of them.
    abbrev pub Removed : Option (HmResult × HashMap) → List ℕ → Bool → Type 0
    Removed out [] _ = out ≡ some (hm_abort, hm)
    Removed out (x ∷ xs) false = out ≡ some (hm_not_found, hm)
    Removed out (x ∷ xs) true =
        (hm' : HashMap) × (out ≡ some (hm_ok, hm'))
        × Rep key hash hm' shrunk
        × (length hm'.heads ≡ length hm.heads)

    remove_chain :
        (fuel : ℕ) (xs : List ℕ)
        → table (hash (key object)) ≡ xs
        → length xs ≤ fuel
        → Removed (hash_map_remove key hash compare_keys fuel hm object) xs (holds object xs)
    unfolding hash_map_remove
    remove_chain fuel [] e h =
        rw ((rw e at (r.chains (hash (key object)) in_range)), hash_map_remove)
    remove_chain fuel (x ∷ xs) e h =
        let chain : Chain hm.next (get_or hm.heads (hash (key object)) none) (x ∷ xs) =
          rw e at (r.chains (hash (key object)) in_range) in
        let walk = find_prev_lem hm fuel _ x object xs chain (omega arith) in
        elim (Bool-cases (x == object)) [
          | inl first ↦ rw first (
            set_head key hash compare_keys hm (hash (key object)) (hm.next x),
            rw (chain.0, first, hash_map_remove),
            first-Rep x xs e first,
            length-set hm.heads (hash (key object)) (hm.next x),
          )
          | inr other ↦ elim (Option-cases (before object x xs)) [
            | inl absent ↦
                rw (other, (before-holds object x xs).0 absent)
                  (rw (chain.0, other, walk, absent, hash_map_remove))
            | inr (p, b) ↦
                rw (other, holds_of_before object x p xs b)
                  (
                    set_next key hash compare_keys hm p (hm.next object),
                    rw (chain.0, other, walk, b, hash_map_remove),
                    later-Rep x p xs e other b,
                    refl,
                  )
          ]
        ]

    -- An object that is in its chain is taken out of it, and all other chains stay. If the chain
    -- holds other objects only, the map is left as it was and the answer is HASH_MAP_NOT_FOUND; if it
    -- is empty, the assertion fails, where the comment of hash_map_remove promises HASH_MAP_NOT_FOUND too.
    -- One step for each object of the chain is enough.
    pub remove-Rep :
        (fuel : ℕ)
        → length (table (hash (key object))) ≤ fuel
        → Removed
            (hash_map_remove key hash compare_keys fuel hm object)
            (table (hash (key object)))
            (holds object (table (hash (key object))))
    remove-Rep fuel h = remove_chain fuel (table (hash (key object))) refl h
