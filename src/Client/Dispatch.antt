-- ===== src/Client/Dispatch.antt =====
-- lib/libtsagent/src/agent.c, `agent_process_command`: the method of a command and its arguments.
use v_perf_generator.WlParam.{
  JsonType, json_null, json_string, json_number, json_bool, json_array, json_node, Platform,
}
use v_perf_generator.Common.{
  sym, subst, ap, ℕ, ◌++◌, ℕ, ◌≡◌, ◌⊎◌, inl, inr, ◌&&◌, not, if◌then◌else◌, Bool, true, false, some,
  none, Option, List, [], ◌∷◌, refl, All, Bool-cases,
}
use v_perf_generator.Common.Bytes.{str_eq}

-- Up to the argument that has no name. `json_null` as a type admits every value.
pub record Method : Type 0 where
  pub ad_name : List ℕ
  pub ad_args : List (List ℕ × JsonType)
  pub ad_method : ℕ

pub data AgentError : Type 0 where
  tse_command_not_found tse_message_format : AgentError

-- A call of a method with its arguments, or `agent_error_msg`.
pub data Dispatched (Node : Type 0) : Type 0 where
  called : ℕ → List Node → Dispatched Node
  agent_error : AgentError → Dispatched Node

unfoldable pub same_type : JsonType → JsonType → Bool
same_type json_null json_null = true
same_type json_string json_string = true
same_type json_number json_number = true
same_type json_bool json_bool = true
same_type json_array json_array = true
same_type json_node json_node = true
same_type a b = false

unfoldable pub any_type : JsonType → Bool
any_type json_null = true
any_type json_string = false
any_type json_number = false
any_type json_bool = false
any_type json_array = false
any_type json_node = false

module _ {Node Float : Type 0} (json : Platform Node Float) where
  -- The loop over the arguments; `none` is `agent_error_msg` with TSE_MESSAGE_FORMAT.
  unfoldable pub arguments : Node → List (List ℕ × JsonType) → Option (List Node)
  unfolding same_type any_type
  arguments n_msg [] = some []
  arguments n_msg ((name, type) ∷ args) =
      let rest = arguments n_msg args in
      elim (json.json_find n_msg name) [
        | none ↦ none
        | some n_arg ↦
            if not (any_type type) && not (same_type (json.json_type n_arg) type)
            then none
            else elim rest [ none ↦ none | some argv ↦ some (n_arg ∷ argv) ]
      ]

  unfoldable pub call_method : Method → Node → Dispatched Node
  unfolding arguments
  call_method method n_msg = elim (arguments n_msg method.ad_args) [
    | none ↦ agent_error tse_message_format
    | some argv ↦ called method.ad_method argv
  ]

  unfoldable pub agent_process_command : List Method → List ℕ → Node → Dispatched Node
  unfolding call_method
  agent_process_command [] command n_msg = agent_error tse_command_not_found
  agent_process_command (method ∷ table) command n_msg =
      let later = agent_process_command table command n_msg in
      if str_eq method.ad_name command then call_method method n_msg else later

  -- The arguments of a call: each is a field of the message of its name, and of its type.
  abbrev pub Fit : Node → List (List ℕ × JsonType) → List Node → Type 0
  Fit n_msg [] [] = Unit {0}
  Fit n_msg [] (n ∷ ns) = ⊥
  Fit n_msg (a ∷ args) [] = ⊥
  Fit n_msg ((name, type) ∷ args) (n ∷ ns) =
      (json.json_find n_msg name ≡ some n)
      × ((any_type type ≡ true) ⊎ (same_type (json.json_type n) type ≡ true))
      × Fit n_msg args ns

  -- One of them is missing, or has another type.
  abbrev pub Lacks : Node → List (List ℕ × JsonType) → Type 0
  Lacks n_msg [] = ⊥
  Lacks n_msg ((name, type) ∷ args) =
      (json.json_find n_msg name ≡ none)
      ⊎ (((n : Node) × (json.json_find n_msg name ≡ some n)
            × (any_type type ≡ false)
            × (same_type (json.json_type n) type ≡ false))
          ⊎ Lacks n_msg args)

  -- What `agent_process_command` comes to: no method has the name; or the first one that has it is
  -- called with arguments that fit it, or lacks one that does.
  abbrev pub Answer : List Method → List ℕ → Node → Dispatched Node → Type 0
  Answer table command n_msg (agent_error tse_command_not_found) =
      All (λ m. str_eq m.ad_name command ≡ false) table
  Answer table command n_msg (agent_error tse_message_format) =
      (m : Method) × (before : List Method) × (behind : List Method) × (table
        ≡ before ++ (m ∷ behind))
      × All (λ x. str_eq x.ad_name command ≡ false) before
      × (str_eq m.ad_name command ≡ true)
      × Lacks n_msg m.ad_args
  Answer table command n_msg (called k argv) =
      (m : Method) × (before : List Method) × (behind : List Method) × (table
        ≡ before ++ (m ∷ behind))
      × All (λ x. str_eq x.ad_name command ≡ false) before
      × (str_eq m.ad_name command ≡ true)
      × (m.ad_method ≡ k)
      × Fit n_msg m.ad_args argv

  abbrev Checked : Node → List (List ℕ × JsonType) → Option (List Node) → Type 0
  Checked n_msg args none = Lacks n_msg args
  Checked n_msg args (some argv) = Fit n_msg args argv

  Checked-rest :
      (n_msg n : Node) (name : List ℕ) (type : JsonType) (args : List (List ℕ × JsonType))
      (o : Option (List Node))
      → json.json_find n_msg name ≡ some n
      → (any_type type ≡ true) ⊎ (same_type (json.json_type n) type ≡ true)
      → Checked n_msg args o
      → Checked n_msg ((name, type) ∷ args) (elim o [ none ↦ none | some argv ↦ some (n ∷ argv) ])
  Checked-rest n_msg n name type args none found right c = inr (inr c)
  Checked-rest n_msg n name type args (some argv) found right c = (found, right, c)

  Checked-type :
      (n_msg n : Node) (name : List ℕ) (type : JsonType) (args : List (List ℕ × JsonType))
      (o : Option (List Node))
      → json.json_find n_msg name ≡ some n
      → Checked n_msg args o
      → Checked n_msg ((name, type) ∷ args) (
          if not (any_type type) && not (same_type (json.json_type n) type)
          then none
          else elim o [ none ↦ none | some argv ↦ some (n ∷ argv) ])
  Checked-type n_msg n name type args o found c = elim (Bool-cases (any_type type)) [
    | inl any ↦ rw any (Checked-rest n_msg n name type args o found (inl any) c)
    | inr fixed ↦ elim (Bool-cases (same_type (json.json_type n) type)) [
      | inl same ↦ rw (fixed, same) (Checked-rest n_msg n name type args o found (inr same) c)
      | inr other ↦ rw (fixed, other) (inr (inl (n, found, fixed, other)))
    ]
  ]

  Checked-find :
      (n_msg : Node) (name : List ℕ) (type : JsonType) (args : List (List ℕ × JsonType))
      (o : Option (List Node)) (f : Option Node)
      → json.json_find n_msg name ≡ f
      → Checked n_msg args o
      → Checked n_msg ((name, type) ∷ args) (elim f [
        | none ↦ none
        | some n_arg ↦
            if not (any_type type) && not (same_type (json.json_type n_arg) type)
            then none
            else elim o [ none ↦ none | some argv ↦ some (n_arg ∷ argv) ]
      ])
  Checked-find n_msg name type args o none found c = inl found
  Checked-find n_msg name type args o (some n) found c =
      Checked-type n_msg n name type args o found c

  arguments-Checked :
      (n_msg : Node) (args : List (List ℕ × JsonType)) → Checked n_msg args (arguments n_msg args)
  unfolding arguments
  arguments-Checked n_msg [] = tt
  arguments-Checked n_msg ((name, type) ∷ args) =
      Checked-find n_msg name type args (arguments n_msg args) (json.json_find n_msg name) refl
        (arguments-Checked n_msg args)

  Answer-cons :
      (x : Method) (table : List Method) (command : List ℕ) (n_msg : Node) (d : Dispatched Node)
      → str_eq x.ad_name command ≡ false
      → Answer table command n_msg d
      → Answer (x ∷ table) command n_msg d
  Answer-cons x table command n_msg (agent_error tse_command_not_found) other a = (other, a)
  Answer-cons x table command n_msg (agent_error tse_message_format) other
        (m, before, behind, split, skipped, named, lacks) =
      (m, x ∷ before, behind, ap (λ t. x ∷ t) split, (other, skipped), named, lacks)
  Answer-cons x table command n_msg (called k argv) other
        (m, before, behind, split, skipped, named, number, fit) =
      (m, x ∷ before, behind, ap (λ t. x ∷ t) split, (other, skipped), named, number, fit)

  Answer_here :
      (x : Method) (table : List Method) (command : List ℕ) (n_msg : Node) (o : Option (List Node))
      → str_eq x.ad_name command ≡ true
      → Checked n_msg x.ad_args o
      → Answer
          (x ∷ table)
          command
          n_msg
          (elim o [ none ↦ agent_error tse_message_format | some argv ↦ called x.ad_method argv ])
  Answer_here x table command n_msg none named c = (x, [], table, refl, tt, named, c)
  Answer_here x table command n_msg (some argv) named c = (x, [], table, refl, tt, named, refl, c)

  -- Every command is answered by one of three: no method of the table has its name, and the error is
  -- that it is not found; or the first method that has it is called, with one argument for each that
  -- it declares, taken from the message by its name and of its type; or that method is not called,
  -- and an argument is missing or has another type.
  pub agent_process_command-Answer :
      (table : List Method) (command : List ℕ) (n_msg : Node)
      → Answer table command n_msg (agent_process_command table command n_msg)
  unfolding agent_process_command call_method
  agent_process_command-Answer [] command n_msg = tt
  agent_process_command-Answer (x ∷ table) command n_msg =
      elim (Bool-cases (str_eq x.ad_name command)) [
        | inl named ↦
            subst
              (λ b.
                Answer (x ∷ table) command n_msg
                  (if b then call_method x n_msg else agent_process_command table command n_msg))
              (sym named)
              (Answer_here x table command n_msg (arguments n_msg x.ad_args) named
                (arguments-Checked n_msg x.ad_args))
        | inr other ↦
            subst
              (λ b.
                Answer (x ∷ table) command n_msg
                  (if b then call_method x n_msg else agent_process_command table command n_msg))
              (sym other)
              (Answer-cons x table command n_msg (agent_process_command table command n_msg) other
                (agent_process_command-Answer table command n_msg))
      ]
