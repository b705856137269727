-- ===== src/HashMap/Walk.antt =====
-- One chain under `hash_map_walk`: lib/libtscommon/src/hashmap.c.
use v_perf_generator.HashMap.{HashMap, HmWalker, set_head, set_next, bypass, walk_chain}
use v_perf_generator.Common.Memory.{Pointer, Chain, Fresh, Distinct, update, Chain-update}
use v_perf_generator.Common.{
  ◌≢◌, ◌≢◌, ◌≡◌, set, length-set, get_or-set_self, get_or-set_ne, get_or, ap, ◌≡◌, ◌∷◌, ◌∙◌, ℕ,
  zero, suc, some, refl, none, length, inr, inl, if◌then◌else◌, false, arith, [], Option, List,
  Bool-cases, Bool, ==_self, ==_of_ne, ◌<◌,
}

-- A walker that never stops, removes the objects that `drop` names, and passes a state on.
abbrev pub walker {κ} : {S : Type κ} → (ℕ → Bool) → (ℕ → S → S) → ℕ → S → HmWalker × S
walker drop visit a s = (record { walker_stop = false; walker_remove = drop a }, visit a s)

abbrev pub kept : (ℕ → Bool) → List ℕ → List ℕ
kept drop [] = []
kept drop (x ∷ xs) = if drop x then kept drop xs else x ∷ kept drop xs

abbrev pub visit_all {κ} : {S : Type κ} → (ℕ → S → S) → List ℕ → S → S
visit_all visit [] s = s
visit_all visit (x ∷ xs) s = visit_all visit xs (visit x s)

module _ {ℓ κ} {K : Type ℓ} {S : Type κ} (key : ℕ → K) (hash : K → ℕ) (compare_keys : K → K → Bool)
    (drop : ℕ → Bool) (visit : ℕ → S → S) where
  abbrev walk : ℕ → HashMap → ℕ → Pointer → Pointer → S → Option (Pointer × HashMap × S)
  walk = walk_chain key hash compare_keys (walker drop visit)

  -- Behind an object `p` that was kept.
  after_kept :
      (xs : List ℕ) (fuel : ℕ) (hm : HashMap) (i p : ℕ) (q : Pointer) (s : S)
      → hm.next p ≡ q
      → Chain hm.next q xs
      → Distinct (p ∷ xs)
      → length xs < fuel
      → (hm' : HashMap) × (walk fuel hm i (some p) q s ≡ some (none, hm', visit_all visit xs s))
        × (hm'.heads ≡ hm.heads)
        × Chain hm'.next (hm'.next p) (kept drop xs)
        × ((a : ℕ) → Fresh a (p ∷ xs) → hm'.next a ≡ hm.next a)
  unfolding walk_chain bypass set_next
  after_kept xs zero hm i p q s e c d h = absurd (omega arith)
  after_kept [] (suc fuel) hm i p q s e c d h =
      (hm, rw (c, walk_chain) refl, refl, e ∙ c, (λ a f. refl))
  after_kept (x ∷ xs) (suc fuel) hm i p q s e c d h = elim (Bool-cases (drop x)) [
    | inl gone ↦
        let hm1 = record hm { next = update hm.next p (hm.next x) } in
        let (hm', w, same, chain, out) =
          after_kept xs fuel hm1 i p (hm.next x) (visit x s) (rw (==_self p) refl)
            (Chain-update hm.next p (hm.next x) (hm.next x) xs d.0.1 c.1) (d.0.1, d.1.1)
            (omega arith) in
        (
          hm',
          rw (c.0, walk_chain, gone) w,
          same,
          rw gone chain,
          λ a f. out a (f.0, f.1.1) ∙ rw (==_of_ne p a f.0) refl,
        )
    | inr stays ↦
        let (hm', w, same, chain, out) =
          after_kept xs fuel hm i x (hm.next x) (visit x s) refl c.1 d.1 (omega arith) in
        (
          hm',
          rw (c.0, walk_chain, stays) w,
          same,
          rw stays (out p d.0 ∙ e ∙ c.0, chain),
          λ a f. out a f.1,
        )
  ]

  -- From the head of chain `i`, as long as no object was kept.
  pub from_head :
      (xs : List ℕ) (fuel : ℕ) (hm : HashMap) (i : ℕ) (q : Pointer) (s : S)
      → get_or hm.heads i none ≡ q
      → i < length hm.heads
      → Chain hm.next q xs
      → Distinct xs
      → length xs < fuel
      → (hm' : HashMap) × (walk fuel hm i none q s ≡ some (none, hm', visit_all visit xs s))
        × (length hm'.heads ≡ length hm.heads)
        × ((j : ℕ) → i ≢ j → get_or hm'.heads j none ≡ get_or hm.heads j none)
        × Chain hm'.next (get_or hm'.heads i none) (kept drop xs)
        × ((a : ℕ) → Fresh a xs → hm'.next a ≡ hm.next a)
  unfolding walk_chain bypass set_head
  from_head xs zero hm i q s e lt c d h = absurd (omega arith)
  from_head [] (suc fuel) hm i q s e lt c d h = (
    record hm { heads = set hm.heads i none },
    rw (c, walk_chain) refl,
    length-set hm.heads i none,
    (λ j n. get_or-set_ne hm.heads i j none none n),
    get_or-set_self hm.heads i none none lt,
    (λ a f. refl),
  )
  from_head (x ∷ xs) (suc fuel) hm i q s e lt c d h = elim (Bool-cases (drop x)) [
    | inl gone ↦
        let hm1 = record hm { heads = set hm.heads i (hm.next x) } in
        let size = length-set hm.heads i (hm.next x) in
        let (hm', w, len, same, chain, out) =
          from_head xs fuel hm1 i (hm.next x) (visit x s)
            (get_or-set_self hm.heads i (hm.next x) none lt) (omega (arith, size)) c.1 d.1
            (omega arith) in
        (
          hm',
          rw (c.0, walk_chain, gone) w,
          len ∙ size,
          (λ j n. same j n ∙ get_or-set_ne hm.heads i j (hm.next x) none n),
          rw gone chain,
          λ a f. out a f.1,
        )
    | inr stays ↦
        let (hm', w, same, chain, out) =
          after_kept xs fuel hm i x (hm.next x) (visit x s) refl c.1 d (omega arith) in
        (
          hm',
          rw (c.0, walk_chain, stays) w,
          ap length same,
          (λ j n. ap (λ l. get_or l j none) same),
          rw stays (ap (λ l. get_or l i none) same ∙ e ∙ c.0, chain),
          out,
        )
  ]
