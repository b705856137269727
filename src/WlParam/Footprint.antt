-- ===== src/WlParam/Footprint.antt =====
-- What the parameters of a workload do to memory: lib/libtsload/src/wlparam.c.
use v_perf_generator.WlParam.{
  is_string, to_size, wlparam_ok, find_string, wlp_string_set, wlp_size, wlp_float, wlp_integer,
  wlp_raw_string, wlp_bool, Platform, WlpType, WlpRange, WlpDescr, Memory, write,
  json_wlparam_string_proc, json_wlparam_strset_proc, proc_simple, proc_type, default_type,
  json_wlparam_proc, wlparam_set_default, proc_param, json_wlparam_proc_all,
}
use v_perf_generator.Common.{
  sym, subst, false, false, ◌⊎◌, true, some, none, ltb, length-append, inr, Option-cases, Option,
  Bool-cases, Bool, All, ◌++◌, ◌+◌, ◌⊎◌, ◌≤◌, ◌≡◌, ◌∷◌, ◌∙◌, ℕ, refl, length, inl, arith, [], List,
  ==_self, ◌<◌, ◌+◌,
}
use v_perf_generator.Common.Memory.{update}
use v_perf_generator.Common.Int.{pos, negsuc, ℤ}

-- An address before `n` bytes at `p`, or behind them.
abbrev pub Outside : ℕ → ℕ → ℕ → Type 0
Outside a p n = (a < p) ⊎ (p + n ≤ a)

-- These bytes stand at `a`.
abbrev pub Reads : Memory → ℕ → List ℕ → Type 0
Reads mem a [] = Unit {0}
Reads mem a (b ∷ bs) = (mem a ≡ b) × Reads mem (a + 1) bs

write-Outside :
    (mem : Memory) (p a : ℕ) (bs : List ℕ) → Outside a p (length bs) → write mem p bs a ≡ mem a
write-Outside mem p a [] o = refl
write-Outside mem p a (b ∷ bs) o =
    write-Outside (update mem p b) (p + 1) a bs (ground arith) ∙ ground arith

write-before : (mem : Memory) (p a : ℕ) (bs : List ℕ) → a < p → write mem p bs a ≡ mem a
write-before mem p a bs h = write-Outside mem p a bs (inl h)

pub write-Reads : (mem : Memory) (p : ℕ) (bs : List ℕ) → Reads (write mem p bs) p bs
write-Reads mem p [] = tt
write-Reads mem p (b ∷ bs) = (
  write-before (update mem p b) (p + 1) p bs (omega arith) ∙ rw (==_self p) refl,
  write-Reads (update mem p b) (p + 1) bs,
)

module _ {ℓ} {Node : Type ℓ} {Float : Type 0} (lib : Platform Node Float) where
  -- How many bytes the C types have.
  pub record Wide : Type ℓ where
    pub int_ : (i : ℤ) → length (lib.bytes_of_int i) ≡ 4
    pub long : (i : ℤ) → length (lib.bytes_of_long i) ≡ 8
    pub double : (f : Float) → length (lib.bytes_of_double f) ≡ 8
    pub size : (n : ℕ) → length (lib.bytes_of_size n) ≡ 8

  -- The bytes that a parameter may take; a string takes one more than its `str_length`.
  abbrev pub field_size : WlpType → WlpRange Float → ℕ
  field_size wlp_bool r = 4
  field_size wlp_integer r = 8
  field_size wlp_float r = 8
  field_size wlp_size r = 8
  field_size wlp_raw_string r = r.str_length + 1
  field_size wlp_string_set r = 4

  -- The default of a string is no longer than the string may be, and four bytes have room in it.
  abbrev pub RoomyType : WlpType → WlpDescr Float → Type 0
  RoomyType wlp_raw_string wlp =
      (length wlp.defval.s ≤ wlp.range.str_length) × (3 ≤ wlp.range.str_length)
  RoomyType _ wlp = Unit {0}

  abbrev pub Roomy : WlpDescr Float → Type 0
  Roomy wlp = RoomyType wlp.type wlp

  module _ (wide : Wide) (a : ℕ) where
    proc_simple-Outside :
        (typed outside : Bool) (value : List ℕ) (n param : ℕ) (mem : Memory)
        → length value ≡ n
        → Outside a param n
        → (proc_simple lib typed value outside param mem).1 a ≡ mem a
    unfolding proc_simple
    proc_simple-Outside typed outside value n param mem e o =
        let same = write-Outside mem param a value (ground arith) in ground (arith, same)

    proc_type-Outside :
        (type : WlpType) (v : Node) (wlp : WlpDescr Float) (param : ℕ) (mem : Memory)
        → Outside a param (field_size type wlp.range)
        → (proc_type lib type v wlp.range wlp param mem).1 a ≡ mem a
    unfolding proc_type json_wlparam_string_proc json_wlparam_strset_proc
    proc_type-Outside wlp_bool v wlp param mem o =
        proc_simple-Outside _ false _ 4 param mem (wide.int_ (lib.json_as_bool v)) o
    proc_type-Outside wlp_integer v wlp param mem o =
        proc_simple-Outside _ _ _ 8 param mem (wide.long (lib.json_as_int v)) o
    proc_type-Outside wlp_float v wlp param mem o =
        proc_simple-Outside _ _ _ 8 param mem (wide.double (lib.json_as_float v)) o
    proc_type-Outside wlp_size v wlp param mem o =
        proc_simple-Outside _ _ _ 8 param mem (wide.size (to_size (lib.json_as_int v))) o
    proc_type-Outside wlp_raw_string v wlp param mem o =
        let js = lib.json_as_string v in
        ground (arith, length-append js (0 ∷ []), write-Outside mem param a (js ++ (0 ∷ [])))
    proc_type-Outside wlp_string_set v wlp param mem o =
        elim (Option-cases (find_string lib 0 wlp.range.ss_strings (lib.json_as_string v))) [
          | inl missed ↦
              let same =
                write-Outside mem param a (lib.bytes_of_int (negsuc 0))
                  (ground (arith, wide.int_ (negsuc 0))) in
              ground (arith, missed, same)
          | inr (k, got) ↦
              let same =
                write-Outside mem param a (lib.bytes_of_int (pos k))
                  (ground (arith, wide.int_ (pos k))) in
              ground (arith, got, same)
        ]

    default_type-Outside :
        (type : WlpType) (wlp : WlpDescr Float) (param : ℕ) (mem : Memory)
        → RoomyType type wlp
        → Outside a param (field_size type wlp.range)
        → default_type lib type wlp.defval param mem a ≡ mem a
    unfolding default_type
    default_type-Outside wlp_bool wlp param mem r o =
        write-Outside mem param a (lib.bytes_of_int wlp.defval.b)
          (ground (arith, wide.int_ wlp.defval.b))
    default_type-Outside wlp_integer wlp param mem r o =
        write-Outside mem param a (lib.bytes_of_long wlp.defval.i)
          (ground (arith, wide.long wlp.defval.i))
    default_type-Outside wlp_float wlp param mem r o =
        write-Outside mem param a (lib.bytes_of_double wlp.defval.f)
          (ground (arith, wide.double wlp.defval.f))
    default_type-Outside wlp_size wlp param mem r o =
        write-Outside mem param a (lib.bytes_of_size wlp.defval.sz)
          (ground (arith, wide.size wlp.defval.sz))
    default_type-Outside wlp_raw_string wlp param mem r o =
        write-Outside (write mem param (wlp.defval.s ++ (0 ∷ []))) param a
          (lib.bytes_of_int wlp.defval.ssi) (ground (arith, wide.int_ wlp.defval.ssi))
        ∙ write-Outside mem param a (wlp.defval.s ++ (0 ∷ []))
            (ground (arith, length-append wlp.defval.s (0 ∷ [])))
    default_type-Outside wlp_string_set wlp param mem r o =
        write-Outside mem param a (lib.bytes_of_int wlp.defval.ssi)
          (ground (arith, wide.int_ wlp.defval.ssi))

    proc_param-Outside :
        (found : Option Node) (wlp : WlpDescr Float) (param : ℕ) (mem : Memory)
        → Roomy wlp
        → Outside a param (field_size wlp.type wlp.range)
        → (proc_param lib found wlp param mem).1 a ≡ mem a
    unfolding proc_param json_wlparam_proc wlparam_set_default
    proc_param-Outside (some v) wlp param mem r o = proc_type-Outside wlp.type v wlp param mem o
    proc_param-Outside none wlp param mem r o =
        ground (arith, default_type-Outside wlp.type wlp param mem r o)

    -- Whatever the server sends, and whether it is accepted or not, nothing is written outside the
    -- fields of the parameters, if a string has one byte more than its description says and room for
    -- its default value and for an `int`.
    pub json_wlparam_proc_all-Outside :
        (node : Node) (wlps : List (WlpDescr Float)) (params : ℕ) (mem : Memory)
        → All Roomy wlps
        → All (λ wlp. Outside a (params + wlp.off) (field_size wlp.type wlp.range)) wlps
        → (json_wlparam_proc_all lib node wlps params mem).1 a ≡ mem a
    unfolding json_wlparam_proc_all
    json_wlparam_proc_all-Outside node [] params mem r o = refl
    json_wlparam_proc_all-Outside node (wlp ∷ wlps) params mem r o =
        let found = lib.json_find node wlp.name in
        let (_, mem') = proc_param lib found wlp (params + wlp.off) mem in
        ground (
          arith,
          proc_param-Outside found wlp (params + wlp.off) mem r.0 o.0,
          json_wlparam_proc_all-Outside node wlps params mem' r.1 o.1,
        )

  -- A string that is accepted stands at its parameter, with a NUL behind it; a string of the greatest
  -- length so writes one byte behind `str_length` bytes.
  pub string_proc-Reads :
      (v : Node) (wlp : WlpDescr Float) (param : ℕ) (mem : Memory)
      → (json_wlparam_string_proc lib v wlp param mem).0 ≡ wlparam_ok
      → (length (lib.json_as_string v) ≤ wlp.range.str_length)
        × Reads
            (json_wlparam_string_proc lib v wlp param mem).1
            param
            (lib.json_as_string v ++ (0 ∷ []))
  unfolding json_wlparam_string_proc
  string_proc-Reads v wlp param mem h =
      let js = lib.json_as_string v in
      elim (Bool-cases (is_string (lib.json_type v))) [
        | inl typed ↦ elim (Bool-cases (ltb wlp.range.str_length (length js))) [
          | inl long ↦ absurd (ground arith)
          | inr fits ↦
              rw (typed, fits, json_wlparam_string_proc)
                (ground arith, write-Reads mem param (js ++ (0 ∷ [])))
        ]
        | inr other ↦ absurd (ground arith)
      ]

  -- The default value of a string is lost: the missing `break` writes `ssi` over it, and where that
  -- is 0, as in WLP_STRING_DEFAULT, the parameter is the empty string.
  pub set_default_overwrites :
      (wlp : WlpDescr Float) (param : ℕ) (mem : Memory) (bs : List ℕ)
      → wlp.type ≡ wlp_raw_string
      → wlp.defval.enabled ≡ true
      → lib.bytes_of_int wlp.defval.ssi ≡ 0 ∷ bs
      → ((wlparam_set_default lib wlp param mem).0 ≡ wlparam_ok)
        × Reads (wlparam_set_default lib wlp param mem).1 param (0 ∷ bs)
  unfolding wlparam_set_default default_type
  set_default_overwrites wlp param mem bs t e z =
      let text = write mem param (wlp.defval.s ++ (0 ∷ [])) in
      let out : wlparam_set_default lib wlp param mem ≡ (wlparam_ok, write text param (0 ∷ bs)) =
        rw (wlparam_set_default, default_type, e, t, z) refl in
      subst (λ p. (p.0 ≡ wlparam_ok) × Reads p.1 param (0 ∷ bs)) (sym out)
        (refl, write-Reads text param (0 ∷ bs))
