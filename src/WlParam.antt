-- ===== src/WlParam.antt =====
-- lib/libtsload/src/wlparam.c: the parameters of a workload, which the server gives as JSON and the
-- load module reads from a structure. Memory is bytes by their addresses. `char*` values are their
-- bytes before the NUL.
pub mod Accept
pub mod Footprint
mod Tests
use v_perf_generator.Common.Memory.{update}
use v_perf_generator.Common.{
  ◌∷◌, ◌%◌, ◌∷◌, ℕ, ◌||◌, true, some, not, none, ltb, length, if◌then◌else◌, false, ◌^◌, [], Option,
  List, Bool, ◌==◌, ◌-◌, ◌++◌, ◌+◌, ◌&&◌, ◌%◌,
}
use v_perf_generator.Common.Int.{negsuc, ℤ, pos, ltb_ℤ}
use v_perf_generator.Common.Bytes.{str_eq}

-- libjson, the type `double`, and the representation of values in memory.
pub data JsonType : Type 0 where
  json_null json_string json_number json_bool json_array json_node : JsonType

pub record Platform {ℓ} (Node : Type ℓ) (Float : Type 0) : Type ℓ where
  pub json_type : Node → JsonType
  pub json_as_bool : Node → ℤ
  pub json_as_int : Node → ℤ
  pub json_as_float : Node → Float
  pub json_as_string : Node → List ℕ
  pub json_find : Node → List ℕ → Option Node
  pub ltb_float : Float → Float → Bool
  pub bytes_of_int : ℤ → List ℕ
  pub bytes_of_long : ℤ → List ℕ
  pub bytes_of_double : Float → List ℕ
  pub bytes_of_size : ℕ → List ℕ

-- WLP_NULL is the end of the list.
pub data WlpType : Type 0 where
  wlp_bool wlp_integer wlp_float wlp_raw_string wlp_size wlp_string_set : WlpType

-- `ss_num` is the length of `ss_strings`.
pub record WlpRange (Float : Type 0) : Type 0 where
  pub range : Bool
  pub str_length : ℕ
  pub i_min : ℤ
  pub i_max : ℤ
  pub d_min : Float
  pub d_max : Float
  pub sz_min : ℕ
  pub sz_max : ℕ
  pub ss_strings : List (List ℕ)

pub record WlpDefault (Float : Type 0) : Type 0 where
  pub enabled : Bool
  pub b : ℤ
  pub i : ℤ
  pub f : Float
  pub sz : ℕ
  pub s : List ℕ
  pub ssi : ℤ

pub record WlpDescr (Float : Type 0) : Type 0 where
  pub type : WlpType
  pub flags : ℕ
  pub range : WlpRange Float
  pub defval : WlpDefault Float
  pub name : List ℕ
  pub off : ℕ

-- WLPARAM_JSON_OK and the error codes.
pub data WlpResult : Type 0 where
  wlparam_ok json_wrong_type json_outside_range json_not_found wlparam_no_default : WlpResult

abbrev pub Memory : Type 0
Memory = ℕ → ℕ

abbrev pub write : Memory → ℕ → List ℕ → Memory
write mem a [] = mem
write mem a (b ∷ bs) = write (update mem a b) (a + 1) bs

-- A `long` as a `uint64_t`.
abbrev pub to_size : ℤ → ℕ
to_size (pos n) = n % 2 ^ 64
to_size (negsuc n) = 2 ^ 64 - 1 - n % 2 ^ 64

abbrev pub is_string : JsonType → Bool
is_string json_string = true
is_string _ = false

abbrev pub is_number : JsonType → Bool
is_number json_number = true
is_number _ = false

abbrev pub is_bool : JsonType → Bool
is_bool json_bool = true
is_bool _ = false

-- `flags & WLPF_OPTIONAL`
abbrev pub is_optional : ℕ → Bool
is_optional flags = flags % 2 == 1

module _ {ℓ} {Node : Type ℓ} {Float : Type 0} (lib : Platform Node Float) where
  pub json_wlparam_string_proc : Node → WlpDescr Float → ℕ → Memory → WlpResult × Memory
  json_wlparam_string_proc node wlp param mem =
      let js = lib.json_as_string node in
      if not (is_string (lib.json_type node))
      then (json_wrong_type, mem)
      else if ltb wlp.range.str_length (length js)
      then (json_outside_range, mem)
      else (wlparam_ok, write mem param (js ++ (0 ∷ [])))

  -- The loop of `json_wlparam_strset_proc`, from string `i` on.
  find_string : ℕ → List (List ℕ) → List ℕ → Option ℕ
  find_string i [] js = none
  find_string i (s ∷ ss) js = if str_eq s js then some i else find_string (i + 1) ss js

  json_wlparam_strset_proc : Node → WlpDescr Float → ℕ → Memory → WlpResult × Memory
  unfolding find_string
  json_wlparam_strset_proc node wlp param mem =
      if not (is_string (lib.json_type node))
      then (json_wrong_type, mem)
      else elim (find_string 0 wlp.range.ss_strings (lib.json_as_string node)) [
        | some i ↦ (wlparam_ok, write mem param (lib.bytes_of_int (pos i)))
        | none ↦ (json_outside_range, write mem param (lib.bytes_of_int (negsuc 0)))
      ]

  -- WLPARAM_PROC_SIMPLE: the type test, the bytes of the value, and whether it is out of range.
  proc_simple : Bool → List ℕ → Bool → ℕ → Memory → WlpResult × Memory
  proc_simple typed value outside param mem =
      if not typed
      then (json_wrong_type, mem)
      else (if outside then json_outside_range else wlparam_ok, write mem param value)

  -- The switch of `json_wlparam_proc`.
  proc_type : WlpType → Node → WlpRange Float → WlpDescr Float → ℕ → Memory → WlpResult × Memory
  unfolding json_wlparam_string_proc json_wlparam_strset_proc proc_simple
  proc_type wlp_bool node r wlp param mem =
      proc_simple (is_bool (lib.json_type node)) (lib.bytes_of_int (lib.json_as_bool node)) false
        param mem
  proc_type wlp_integer node r wlp param mem =
      let i = lib.json_as_int node in
      proc_simple (is_number (lib.json_type node)) (lib.bytes_of_long i)
        (r.range && (ltb_ℤ i r.i_min || ltb_ℤ r.i_max i)) param mem
  proc_type wlp_float node r wlp param mem =
      let f = lib.json_as_float node in
      proc_simple (is_number (lib.json_type node)) (lib.bytes_of_double f)
        (r.range && (lib.ltb_float f r.d_min || lib.ltb_float r.d_max f)) param mem
  proc_type wlp_size node r wlp param mem =
      let sz = to_size (lib.json_as_int node) in
      proc_simple (is_number (lib.json_type node)) (lib.bytes_of_size sz)
        (r.range && (ltb sz r.sz_min || ltb r.sz_max sz)) param mem
  proc_type wlp_raw_string node r wlp param mem = json_wlparam_string_proc node wlp param mem
  proc_type wlp_string_set node r wlp param mem = json_wlparam_strset_proc node wlp param mem

  json_wlparam_proc : Node → WlpDescr Float → ℕ → Memory → WlpResult × Memory
  unfolding proc_type
  json_wlparam_proc node wlp param mem = proc_type wlp.type node wlp.range wlp param mem

  -- The switch of `wlparam_set_default`; the case WLP_RAW_STRING has no `break`.
  default_type : WlpType → WlpDefault Float → ℕ → Memory → Memory
  default_type wlp_bool d param mem = write mem param (lib.bytes_of_int d.b)
  default_type wlp_integer d param mem = write mem param (lib.bytes_of_long d.i)
  default_type wlp_float d param mem = write mem param (lib.bytes_of_double d.f)
  default_type wlp_size d param mem = write mem param (lib.bytes_of_size d.sz)
  default_type wlp_raw_string d param mem =
      write (write mem param (d.s ++ (0 ∷ []))) param (lib.bytes_of_int d.ssi)
  default_type wlp_string_set d param mem = write mem param (lib.bytes_of_int d.ssi)

  pub wlparam_set_default : WlpDescr Float → ℕ → Memory → WlpResult × Memory
  unfolding default_type
  wlparam_set_default wlp param mem =
      let mem' = default_type wlp.type wlp.defval param mem in
      if not wlp.defval.enabled then (wlparam_no_default, mem) else (wlparam_ok, mem')

  -- One round of the loop of `json_wlparam_proc_all`; the loop goes on after `wlparam_ok`.
  proc_param : Option Node → WlpDescr Float → ℕ → Memory → WlpResult × Memory
  unfolding json_wlparam_proc wlparam_set_default
  proc_param (some node) wlp param mem = json_wlparam_proc node wlp param mem
  proc_param none wlp param mem =
      let (ret, mem') = wlparam_set_default wlp param mem in
      if is_optional wlp.flags
      then elim ret [ wlparam_no_default ↦ (json_not_found, mem') | _ ↦ (wlparam_ok, mem') ]
      else (json_not_found, mem)

  unfoldable pub json_wlparam_proc_all :
      Node → List (WlpDescr Float) → ℕ → Memory → WlpResult × Memory
  unfolding proc_param
  json_wlparam_proc_all node [] params mem = (wlparam_ok, mem)
  json_wlparam_proc_all node (wlp ∷ wlps) params mem =
      let (ret, mem') = proc_param (lib.json_find node wlp.name) wlp (params + wlp.off) mem in
      let rest = json_wlparam_proc_all node wlps params mem' in
      elim ret [ wlparam_ok ↦ rest | error ↦ (error, mem') ]
