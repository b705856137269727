-- ===== src/CircularList/Tests.antt =====
-- Runs of the lists and the witnesses.
use v_perf_generator.CircularList.{Links, list_node_init, list_add, list_add_tail, list_splice}
use v_perf_generator.CircularList.Ring.{Ring}
use v_perf_generator.CircularList.Splice.{list_splice-Ring}
use v_perf_generator.Common.{◌≡◌, ◌≡◌, refl, [], ◌∷◌, arith, map}

-- Two heads, at 0 and 10.
abbrev heads : Links
heads = list_node_init (list_node_init (record { next = λ a. 0; prev = λ a. 0 }) 0) 10

heads-Ring : Ring heads 0 []
unfolding list_node_init
heads-Ring = record { linked = (refl, refl); distinct = tt; fresh = tt }

heads_other : Ring heads 10 []
unfolding list_node_init
heads_other = record { linked = (refl, refl); distinct = tt; fresh = tt }

-- 1 and 2 in the first list, 11 in the other.
abbrev filled : Links
filled = list_add (list_add_tail (list_add_tail heads 1 0) 2 0) 11 10

filled-Ring : Ring filled 0 (1 ∷ 2 ∷ [])
unfolding list_node_init list_add_tail list_add
filled-Ring = record {
  linked = (refl, refl, (refl, refl, (refl, refl)));
  distinct = omega arith;
  fresh = omega arith;
}

filled_other : Ring filled 10 (11 ∷ [])
unfolding list_node_init list_add_tail list_add
filled_other = record {
  linked = (refl, refl, (refl, refl));
  distinct = omega arith;
  fresh = omega arith;
}

list_splice-Ring_example : Ring (list_splice filled 10 0) 0 (11 ∷ 1 ∷ 2 ∷ [])
list_splice-Ring_example =
    list_splice-Ring filled 10 0 (11 ∷ []) (1 ∷ 2 ∷ []) filled_other filled-Ring (omega arith)
      (omega arith)

spliced : map (list_splice filled 10 0).next (0 ∷ 11 ∷ 1 ∷ 2 ∷ []) ≡ 11 ∷ 1 ∷ 2 ∷ 0 ∷ []
unfolding list_splice list_node_init list_add_tail list_add
spliced = refl
