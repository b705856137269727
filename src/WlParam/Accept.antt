-- ===== src/WlParam/Accept.antt =====
-- Which parameters are accepted: lib/libtsload/src/wlparam.c.
use v_perf_generator.WlParam.{
  json_wlparam_strset_proc, json_wlparam_string_proc, proc_type, WlpRange, to_size, wlparam_ok,
  json_string, json_number, proc_simple, json_bool, is_optional, Platform, WlpType, WlpDescr,
  Memory, find_string, json_wlparam_proc, wlparam_set_default, proc_param, json_wlparam_proc_all,
  wlp_bool, wlp_integer, wlp_float, wlp_size, wlp_raw_string, wlp_string_set,
}
use v_perf_generator.Common.{
  inr, inl, Option-cases, ◌⊎◌, refl, arith, List, Bool, All, ◌+◌, ◌⊎◌, ◌≤◌, ◌≡◌, ◌∷◌, ◌↔◌, ℕ, true,
  some, none, length, false, [], Option, List,
}
use v_perf_generator.Common.Int.{◌≤ℤ◌}
use v_perf_generator.Common.Bytes.{str_eq_iff}

abbrev pub OneOf : List ℕ → List (List ℕ) → Type 0
OneOf s [] = ⊥
OneOf s (t ∷ ts) = (t ≡ s) ⊎ OneOf s ts

module _ {ℓ} {Node : Type ℓ} {Float : Type 0} (lib : Platform Node Float) where
  -- A value of the JSON type and in the range that the description asks for.
  abbrev pub FitsType : WlpType → WlpRange Float → Node → Type 0
  FitsType wlp_bool r v = lib.json_type v ≡ json_bool
  FitsType wlp_integer r v =
      (lib.json_type v ≡ json_number)
      × ((r.range ≡ false) ⊎ ((r.i_min ≤ℤ lib.json_as_int v) × (lib.json_as_int v ≤ℤ r.i_max)))
  FitsType wlp_float r v =
      (lib.json_type v ≡ json_number)
      × ((r.range ≡ false)
          ⊎ ((lib.ltb_float (lib.json_as_float v) r.d_min ≡ false)
              × (lib.ltb_float r.d_max (lib.json_as_float v) ≡ false)))
  FitsType wlp_size r v =
      (lib.json_type v ≡ json_number)
      × ((r.range ≡ false)
          ⊎ ((r.sz_min ≤ to_size (lib.json_as_int v)) × (to_size (lib.json_as_int v) ≤ r.sz_max)))
  FitsType wlp_raw_string r v =
      (lib.json_type v ≡ json_string) × (length (lib.json_as_string v) ≤ r.str_length)
  FitsType wlp_string_set r v =
      (lib.json_type v ≡ json_string) × OneOf (lib.json_as_string v) r.ss_strings

  -- A parameter that is there must fit; one that is not must be optional and have a default.
  abbrev pub Given : WlpDescr Float → Option Node → Type 0
  Given wlp none = (is_optional wlp.flags ≡ true) × (wlp.defval.enabled ≡ true)
  Given wlp (some v) = FitsType wlp.type wlp.range v

  abbrev pub Acceptable : Node → WlpDescr Float → Type 0
  Acceptable node wlp = Given wlp (lib.json_find node wlp.name)

  find_string-found :
      (i k : ℕ) (ss : List (List ℕ)) (s : List ℕ) → find_string lib i ss s ≡ some k → OneOf s ss
  unfolding find_string
  find_string-found i k [] s h = cc
  find_string-found i k (t ∷ ts) s h =
      ground (arith, str_eq_iff t s, find_string-found (i + 1) k ts s)

  find_string-missed :
      (i : ℕ) (ss : List (List ℕ)) (s : List ℕ) → find_string lib i ss s ≡ none → ¬ OneOf s ss
  unfolding find_string
  find_string-missed i [] s h o = o
  find_string-missed i (t ∷ ts) s h o =
      ground (arith, str_eq_iff t s, find_string-missed (i + 1) ts s)

  proc_simple-ok :
      (typed outside : Bool) (value : List ℕ) (param : ℕ) (mem : Memory)
      → ((proc_simple lib typed value outside param mem).0 ≡ wlparam_ok)
        ↔ ((typed ≡ true) × (outside ≡ false))
  unfolding proc_simple
  proc_simple-ok typed outside value param mem = ground arith

  proc_type-FitsType :
      (type : WlpType) (v : Node) (wlp : WlpDescr Float) (param : ℕ) (mem : Memory)
      → ((proc_type lib type v wlp.range wlp param mem).0 ≡ wlparam_ok) ↔ FitsType type wlp.range v
  unfolding proc_type proc_simple json_wlparam_string_proc json_wlparam_strset_proc
  proc_type-FitsType wlp_bool v wlp param mem = ground arith
  proc_type-FitsType wlp_integer v wlp param mem = ground arith
  proc_type-FitsType wlp_float v wlp param mem = ground arith
  proc_type-FitsType wlp_size v wlp param mem = ground arith
  proc_type-FitsType wlp_raw_string v wlp param mem = ground arith
  proc_type-FitsType wlp_string_set v wlp param mem =
      elim (Option-cases (find_string lib 0 wlp.range.ss_strings (lib.json_as_string v))) [
        | inl missed ↦
            let absent = find_string-missed 0 wlp.range.ss_strings (lib.json_as_string v) missed in
            ground (arith, missed, absent)
        | inr (k, got) ↦
            let there = find_string-found 0 k wlp.range.ss_strings (lib.json_as_string v) got in
            ground (arith, got, there)
      ]

  proc_param-Given :
      (found : Option Node) (wlp : WlpDescr Float) (param : ℕ) (mem : Memory)
      → ((proc_param lib found wlp param mem).0 ≡ wlparam_ok) ↔ Given wlp found
  unfolding proc_param json_wlparam_proc wlparam_set_default
  proc_param-Given none wlp param mem = ground arith
  proc_param-Given (some v) wlp param mem = proc_type-FitsType wlp.type v wlp param mem

  -- The parameters of a workload are accepted exactly if each one that the server gives has the JSON
  -- type of its description and lies in its range, its length or its set of strings, and each one
  -- that it leaves out is optional and has a default value, whatever is in memory.
  pub json_wlparam_proc_all-Acceptable :
      (node : Node) (wlps : List (WlpDescr Float)) (params : ℕ) (mem : Memory)
      → ((json_wlparam_proc_all lib node wlps params mem).0 ≡ wlparam_ok)
        ↔ All (Acceptable node) wlps
  unfolding json_wlparam_proc_all
  json_wlparam_proc_all-Acceptable node [] params mem = (λ h. tt, λ a. refl)
  json_wlparam_proc_all-Acceptable node (wlp ∷ wlps) params mem =
      let found = lib.json_find node wlp.name in
      let (_, mem') = proc_param lib found wlp (params + wlp.off) mem in
      ground (
        arith,
        proc_param-Given found wlp (params + wlp.off) mem,
        json_wlparam_proc_all-Acceptable node wlps params mem',
      )
