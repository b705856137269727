-- ===== src/HashMap.antt =====
-- lib/libtscommon/src/hashmap.c: intrusive hash maps. An object is an address; its key stands at a
-- fixed offset and does not change, its link at another. Each function runs with `hm_mutex` held, but
-- `hash_map_find` reads the head of its chain before that. `none` means that the fuel of a walk
-- along a chain ran out.
pub mod Buckets
pub mod Insert
pub mod Lookup
pub mod Remove
pub mod Walk
pub mod Walked
mod Tests
use v_perf_generator.Common.Memory.{Pointer, update}
use v_perf_generator.Common.{
  ℕ, if◌then◌else◌, ◌==◌, ◌+◌, ℕ, zero, true, suc, some, set, replicate, none, length, get_or,
  false, Option, List, Bool,
}

-- `hm_heads`, and the links of all objects.
pub record HashMap : Type 0 where
  pub heads : List Pointer
  pub next : ℕ → Pointer

-- HASH_MAP_OK, HASH_MAP_DUPLICATE and HASH_MAP_NOT_FOUND; `hm_abort` is a failed assertion.
pub data HmResult : Type 0 where
  hm_ok hm_duplicate hm_not_found hm_abort : HmResult

-- HM_WALKER_STOP and HM_WALKER_REMOVE in what a walker returns; HM_WALKER_CONTINUE is neither.
pub record HmWalker : Type 0 where
  pub walker_stop : Bool
  pub walker_remove : Bool

-- Where the walk of `hash_map_insert` ends.
data Tail : Type 0 where
  duplicate : Tail
  tail_at : ℕ → Tail

module _ {ℓ} {K : Type ℓ} (key : ℕ → K) (hash : K → ℕ) (compare_keys : K → K → Bool) where
  abbrev head_of : HashMap → K → Pointer
  head_of hm k = get_or hm.heads (hash k) none

  set_head : HashMap → ℕ → Pointer → HashMap
  set_head hm i p = record hm { heads = set hm.heads i p }

  set_next : HashMap → ℕ → Pointer → HashMap
  set_next hm a p = record hm { next = update hm.next a p }

  pub hash_map_init : HashMap → HashMap
  hash_map_init hm = record hm { heads = replicate (length hm.heads) none }

  find_tail : HashMap → ℕ → ℕ → ℕ → Option Tail
  find_tail hm zero iter object = none
  find_tail hm (suc fuel) iter object = elim (compare_keys (key iter) (key object)) [
    | true ↦ some duplicate
    | false ↦ elim (hm.next iter) [
      | none ↦ some (tail_at iter)
      | some n ↦ find_tail hm fuel n object
    ]
  ]

  pub hash_map_insert : ℕ → HashMap → ℕ → Option (HmResult × HashMap)
  unfolding set_head set_next find_tail
  hash_map_insert fuel hm object = elim (head_of hm (key object)) [
    | none ↦ some (hm_ok, set_head hm (hash (key object)) (some object))
    | some iter ↦ elim (find_tail hm fuel iter object) [
      | none ↦ none
      | some duplicate ↦ some (hm_duplicate, hm)
      | some (tail_at t) ↦ some (hm_ok, set_next hm t (some object))
    ]
  ]

  find_from : HashMap → ℕ → Pointer → K → Option Pointer
  find_from hm zero iter k = none
  find_from hm (suc fuel) none k = some none
  find_from hm (suc fuel) (some iter) k = elim (compare_keys (key iter) k) [
    | true ↦ some (some iter)
    | false ↦ find_from hm fuel (hm.next iter) k
  ]

  pub hash_map_find : ℕ → HashMap → K → Option Pointer
  unfolding find_from
  hash_map_find fuel hm k = find_from hm fuel (head_of hm k) k

  -- The object before the one to remove.
  find_prev : HashMap → ℕ → ℕ → ℕ → Option Pointer
  find_prev hm zero iter object = none
  find_prev hm (suc fuel) iter object = elim (hm.next iter) [
    | none ↦ some none
    | some n ↦ elim (n == object) [ true ↦ some (some iter) | false ↦ find_prev hm fuel n object ]
  ]

  pub hash_map_remove : ℕ → HashMap → ℕ → Option (HmResult × HashMap)
  unfolding set_head set_next find_prev
  hash_map_remove fuel hm object = elim (head_of hm (key object)) [
    | none ↦ some (hm_abort, hm)
    | some h ↦ elim (h == object) [
      | true ↦ some (hm_ok, set_head hm (hash (key object)) (hm.next h))
      | false ↦ elim (find_prev hm fuel h object) [
        | none ↦ none
        | some none ↦ some (hm_not_found, hm)
        | some (some iter) ↦ some (hm_ok, set_next hm iter (hm.next object))
      ]
    ]
  ]

  module _ {κ} {S : Type κ} (func : ℕ → S → HmWalker × S) where
    -- Taking `next` for the head of chain `i`, or for the link of the object before.
    bypass : HashMap → ℕ → Pointer → Pointer → HashMap
    unfolding set_head set_next
    bypass hm i none p = set_head hm i p
    bypass hm i (some prev) p = set_next hm prev p

    pub walk_chain : ℕ → HashMap → ℕ → Pointer → Pointer → S → Option (Pointer × HashMap × S)
    unfolding set_head bypass
    walk_chain zero hm i prev iter s = none
    walk_chain (suc fuel) hm i none none s = some (none, set_head hm i none, s)
    walk_chain (suc fuel) hm i (some prev) none s = some (none, hm, s)
    walk_chain (suc fuel) hm i prev (some iter) s =
        let next = hm.next iter in
        let (ret, s') = func iter s in
        let hm' = if ret.walker_remove then bypass hm i prev next else hm in
        let prev' = if ret.walker_remove then prev else some iter in
        let rest = walk_chain fuel hm' i prev' next s' in
        if ret.walker_stop then some (some iter, hm', s') else rest

    -- `for(i = 0; i < hm->hm_size; ++i)`, over the chains that are left.
    walk_from : ℕ → ℕ → HashMap → ℕ → S → Option (Pointer × HashMap × S)
    unfolding walk_chain
    walk_from fuel zero hm i s = some (none, hm, s)
    walk_from fuel (suc left) hm i s = elim (walk_chain fuel hm i none (get_or hm.heads i none) s) [
      | none ↦ none
      | some (some object, hm', s') ↦ some (some object, hm', s')
      | some (none, hm', s') ↦ walk_from fuel left hm' (i + 1) s'
    ]

    pub hash_map_walk : ℕ → HashMap → S → Option (Pointer × HashMap × S)
    unfolding walk_from
    hash_map_walk fuel hm s = walk_from fuel (length hm.heads) hm 0 s
