-- ===== src/WlParam/Tests.antt =====
-- Examples for lib/libtsload/src/wlparam.c: an optional size and a string of at most 4 bytes.
use v_perf_generator.WlParam.{
  JsonType, json_string, json_number, json_node, json_null, Platform, WlpRange, WlpDefault,
  WlpDescr, wlp_size, wlp_raw_string, wlparam_ok, Memory, json_wlparam_string_proc,
  json_wlparam_proc_all,
}
use v_perf_generator.WlParam.Accept.{Acceptable, json_wlparam_proc_all-Acceptable}
use v_perf_generator.WlParam.Footprint.{Wide, json_wlparam_proc_all-Outside}
use v_perf_generator.Common.{
  ◌≡◌, ◌≡◌, ◌∷◌, ◌↔◌, ℕ, true, some, refl, none, ltb, length, inr, if◌then◌else◌, false, arith, [],
  Option, List, All, ◌%◌,
}
use v_perf_generator.Common.Int.{negsuc, ℤ, pos_part, pos}
use v_perf_generator.Common.Bytes.{str_eq}

-- JSON values; an object is a field in front of the other fields.
data Json : Type 0 where
  nothing : Json
  number : ℕ → Json
  text : List ℕ → Json
  field : List ℕ → Json → Json → Json

abbrev type_of : Json → JsonType
type_of nothing = json_null
type_of (number n) = json_number
type_of (text s) = json_string
type_of (field name value rest) = json_node

abbrev int_of : Json → ℤ
int_of (number n) = pos n
int_of _ = pos 0

abbrev text_of : Json → List ℕ
text_of (text s) = s
text_of _ = []

abbrev find : Json → List ℕ → Option Json
find (field name value rest) key = if str_eq name key then some value else find rest key
find _ key = none

abbrev four : ℤ → List ℕ
four (pos n) = n % 256 ∷ 0 ∷ 0 ∷ 0 ∷ []
four (negsuc n) = 255 ∷ 255 ∷ 255 ∷ 255 ∷ []

abbrev eight : ℕ → List ℕ
eight n = n % 256 ∷ 0 ∷ 0 ∷ 0 ∷ 0 ∷ 0 ∷ 0 ∷ 0 ∷ []

abbrev lib : Platform Json ℕ
lib = record {
  json_type = type_of;
  json_as_bool = int_of;
  json_as_int = int_of;
  json_as_float = λ v. 0;
  json_as_string = text_of;
  json_find = find;
  ltb_float = ltb;
  bytes_of_int = four;
  bytes_of_long = λ i. eight (pos_part i);
  bytes_of_double = eight;
  bytes_of_size = eight;
}

abbrev no_range : WlpRange ℕ
no_range = record {
  range = false;
  str_length = 4;
  i_min = pos 0;
  i_max = pos 0;
  d_min = 0;
  d_max = 0;
  sz_min = 0;
  sz_max = 0;
  ss_strings = [];
}

abbrev default : WlpDefault ℕ
default = record {
  enabled = true;
  b = pos 0;
  i = pos 0;
  f = 0;
  sz = 64;
  s = 47 ∷ 97 ∷ [];
  ssi = pos 0;
}

abbrev block_size : WlpDescr ℕ
block_size = record {
  type = wlp_size;
  flags = 1;
  range = no_range;
  defval = default;
  name = 98 ∷ [];
  off = 0;
}

abbrev path : WlpDescr ℕ
path = record {
  type = wlp_raw_string;
  flags = 0;
  range = no_range;
  defval = default;
  name = 112 ∷ [];
  off = 8;
}

-- A path of the greatest length, and no size.
abbrev params : Json
params = field (112 ∷ []) (text (47 ∷ 97 ∷ 98 ∷ 99 ∷ [])) nothing

abbrev memory : Memory
memory a = 7

run-params : (json_wlparam_proc_all lib params (block_size ∷ path ∷ []) 100 memory).0 ≡ wlparam_ok
unfolding json_wlparam_proc_all str_eq
run-params = refl

lib-Wide : Wide lib
lib-Wide = record { int_ = four_; long = λ i. refl; double = λ f. refl; size = λ n. refl }
  where
    four_ : (i : ℤ) → length (four i) ≡ 4
    four_ (pos n) = refl
    four_ (negsuc n) = refl

json_wlparam_proc_all-Acceptable_example :
    ((json_wlparam_proc_all lib params (block_size ∷ path ∷ []) 100 memory).0 ≡ wlparam_ok)
    ↔ All (Acceptable lib params) (block_size ∷ path ∷ [])
json_wlparam_proc_all-Acceptable_example =
    json_wlparam_proc_all-Acceptable lib params (block_size ∷ path ∷ []) 100 memory

-- Fields at 100 and 108; the address behind the last byte, that of the NUL, is 113.
json_wlparam_proc_all-Outside_example :
    (json_wlparam_proc_all lib params (block_size ∷ path ∷ []) 100 memory).1 113 ≡ 7
json_wlparam_proc_all-Outside_example =
    json_wlparam_proc_all-Outside lib lib-Wide 113 params (block_size ∷ path ∷ []) 100 memory
      (tt, ((omega arith, omega arith), tt)) (inr (omega arith), (inr (omega arith), tt))

abbrev longest : Json
longest = text (47 ∷ 97 ∷ 98 ∷ 99 ∷ [])

longest-ok : (json_wlparam_string_proc lib longest path 108 memory).0 ≡ wlparam_ok
unfolding json_wlparam_string_proc
longest-ok = refl
