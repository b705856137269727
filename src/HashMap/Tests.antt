-- ===== src/HashMap/Tests.antt =====
-- Examples for lib/libtscommon/src/hashmap.c: two chains, numbers as keys, of which the last bit is
-- the hash.
use v_perf_generator.HashMap.{
  hash_map_walk, HashMap, hm_ok, hash_map_insert, hash_map_find, hash_map_remove,
}
use v_perf_generator.HashMap.Buckets.{Rep}
use v_perf_generator.HashMap.Insert.{insert-Rep, Inserted, matches}
use v_perf_generator.HashMap.Remove.{remove-Rep, Removed}
use v_perf_generator.HashMap.Lookup.{find-insert}
use v_perf_generator.Common.Memory.{update, Pointer, Chain, Fresh, Distinct}
use v_perf_generator.Common.{
  length, length, ◌≡◌, ◌↔◌, true, if◌then◌else◌, ==_iff, ◌≡◌, ℕ, zero, suc, get_or, Bool, ◌<◌, ◌+◌,
  ℕ, List, [], ◌∷◌, ◌%◌, ◌==◌, none, some, refl, arith, All,
}
use v_perf_generator.HashMap.Walk.{kept, walker}
use v_perf_generator.HashMap.Walked.{hash_map_walk-Rep, visit_from}

-- The object at an address has the address plus 10 as its key.
abbrev key : ℕ → ℕ
key a = a + 10

abbrev hash : ℕ → ℕ
hash k = k % 2

abbrev same : ℕ → ℕ → Bool
same a b = a == b

-- Objects 2 and 6 in chain 0, none in chain 1.
abbrev next : ℕ → Pointer
next a = if a == 2 then some 6 else none

abbrev hm : HashMap
hm = record { heads = some 2 ∷ none ∷ []; next = next }

abbrev table : ℕ → List ℕ
table zero = 2 ∷ 6 ∷ []
table (suc i) = []

hm-chains : (i : ℕ) → i < 2 → Chain next (get_or hm.heads i none) (table i)
hm-chains zero h = (refl, (refl, refl))
hm-chains (suc zero) h = refl
hm-chains (suc (suc i)) h = absurd (omega arith)

table-hashed : (i : ℕ) → All (λ x. hash (key x) ≡ i) (table i)
table-hashed zero = (refl, (refl, tt))
table-hashed (suc i) = tt

table-Distinct : (i : ℕ) → Distinct (table i)
table-Distinct zero = ((omega arith, tt), (tt, tt))
table-Distinct (suc i) = tt

hm-Rep : Rep key hash hm table
hm-Rep = record { chains = hm-chains; hashed = table-hashed; distinct = table-Distinct }

absent : Fresh 4 (table 0)
absent = (omega arith, (omega arith, tt))

abbrev grown_map : HashMap
grown_map = record hm { next = update next 6 (some 4) }

insert-Rep_example :
    Inserted key hash same hm table 4 hm-Rep refl
      (omega arith)
      absent
      (hash_map_insert key hash same 5 hm 4)
      (matches key hash same 14 (table 0))
insert-Rep_example =
    insert-Rep key hash same hm table 4 hm-Rep refl (omega arith) absent 5 (omega arith)

remove-Rep_example :
    Removed key hash same hm table 6 hm-Rep
      (omega arith)
      (hash_map_remove key hash same 5 hm 6)
      (2 ∷ 6 ∷ [])
      true
remove-Rep_example = remove-Rep key hash same hm table 6 hm-Rep (omega arith) 5 (omega arith)

same-decides : (a b : ℕ) → (same a b ≡ true) ↔ (a ≡ b)
same-decides a b = ==_iff a b

insert-hm : hash_map_insert key hash same 5 hm 4 ≡ some (hm_ok, grown_map)
unfolding hash_map_insert
insert-hm = refl

find-insert_example :
    hash_map_find key hash same 9 grown_map 14
    ≡ (if same 14 14 then some (some 4) else hash_map_find key hash same 9 hm 14)
find-insert_example =
    find-insert key hash same same-decides hm grown_map table 4 5 9 14 hm-Rep refl (omega arith)
      absent (omega arith) (omega arith) (omega arith) insert-hm

-- Objects with an odd half go, and their addresses are added up.
abbrev odd_half : ℕ → Bool
odd_half a = a % 4 == 2

hash_map_walk-Rep_example :
    (hm' : HashMap) × (hash_map_walk key hash same (walker odd_half (λ a s. a + s)) 5 hm 0
      ≡ some (none, hm', visit_from (λ a s. a + s) table 2 0 0))
    × (length hm'.heads ≡ 2)
    × Rep key hash hm' (λ i. kept odd_half (table i))
hash_map_walk-Rep_example =
    hash_map_walk-Rep key hash same odd_half (λ a s. a + s) table 5 hm 0 hm-Rep short
  where
    short : (j : ℕ) → length (table j) < 5
    short zero = omega arith
    short (suc j) = omega arith
