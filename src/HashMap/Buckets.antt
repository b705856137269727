-- ===== src/HashMap/Buckets.antt =====
-- What the chains of a hash map hold: lib/libtscommon/src/hashmap.c.
use v_perf_generator.HashMap.{HashMap}
use v_perf_generator.Common.{
  ◌≢◌, ◌≢◌, ◌≡◌, ◌∷◌, ◌∙◌, ℕ, sym, none, length, get_or, ap, [], List, All, ◌<◌,
}
use v_perf_generator.Common.Memory.{Distinct, last, Fresh, Chain}

module _ {ℓ} {K : Type ℓ} (key : ℕ → K) (hash : K → ℕ) where
  -- The chains of a map are these lists of distinct objects, each in the chain that its hash names.
  pub record Rep (hm : HashMap) (table : ℕ → List ℕ) : Type 0 where
    pub chains : (i : ℕ) → i < length hm.heads → Chain hm.next (get_or hm.heads i none) (table i)
    pub hashed : (i : ℕ) → All (λ x. hash (key x) ≡ i) (table i)
    pub distinct : (i : ℕ) → Distinct (table i)

  -- An object of one chain is in no other.
  pub Fresh-other :
      (a i j : ℕ) (xs : List ℕ)
      → hash (key a) ≡ i
      → i ≢ j
      → All (λ x. hash (key x) ≡ j) xs
      → Fresh a xs
  Fresh-other a i j [] h n all = tt
  Fresh-other a i j (x ∷ xs) h n all =
      ((λ e. n (sym h ∙ ap (λ z. hash (key z)) (sym e) ∙ all.0)), Fresh-other a i j xs h n all.1)

  pub All-last :
      (i x : ℕ) (xs : List ℕ) → All (λ x. hash (key x) ≡ i) (x ∷ xs) → hash (key (last x xs)) ≡ i
  All-last i x [] all = all.0
  All-last i x (y ∷ ys) all = All-last i y ys all.1
