-- ===== src/Client/Command.antt =====
-- lib/libtsagent/src/client.c, `clnt_process_msg` and `clnt_process_command`: what comes in, and the
-- one answer that goes out for a command.
use v_perf_generator.WlParam.{json_string, json_number, json_node, Platform}
use v_perf_generator.Client.{
  Client, ResponseType, rt_response, rt_error, to_unsigned, clnt_send, clnt_process_response,
}
use v_perf_generator.Client.Dispatch.{
  Method, Dispatched, called, agent_error, AgentError, agent_process_command, same_type,
}
use v_perf_generator.Common.{
  ◌∙◌, ◌∙◌, ap, ℕ, ℕ, ◌≡◌, ◌||◌, not, if◌then◌else◌, Bool, true, false, some, none, Option, List,
  [], ◌∷◌, ◌++◌, refl,
}
use v_perf_generator.Common.Int.{ℤ}

-- A response, with its type.
abbrev pub Response : Type 0 → Type 0
Response Node = ResponseType × Node

-- What the agent and libjson do with a command: `run` is the responses that a method adds, in order,
-- `error_node` those of `agent_error_msg`, `with_id` adds the id.
pub record Agent (Node : Type 0) : Type 0 where
  pub table : List Method
  pub run : ℕ → List Node → List (Response Node)
  pub error_node : AgentError → Node
  pub with_id : Node → ℕ → Node

-- `m_response_type` and `m_response`; `none` is RT_NOTHING with NULL.
abbrev pub ProcMsg : Type 0 → Type 0
ProcMsg Node = Option (Response Node)

module _ {Node : Type 0} where
  -- The first response is kept.
  unfoldable pub clnt_add_response : ProcMsg Node → Response Node → ProcMsg Node
  clnt_add_response none response = some response
  clnt_add_response (some first) response = some first

  unfoldable pub add_responses : ProcMsg Node → List (Response Node) → ProcMsg Node
  unfolding clnt_add_response
  add_responses msg [] = msg
  add_responses msg (r ∷ rs) = add_responses (clnt_add_response msg r) rs

  -- The responses of a command.
  unfoldable pub responses_of : Agent Node → Dispatched Node → List (Response Node)
  responses_of agent (called method argv) = agent.run method argv
  responses_of agent (agent_error code) = (rt_error, agent.error_node code) ∷ []

-- Where a message goes.
pub data Routed (Node : Type 0) : Type 0 where
  refused : Routed Node
  response : ℕ → Node → ResponseType → Option ℤ → Routed Node
  command : ℕ → Node → Node → Routed Node

-- What processing a message comes to: the returned value and the client; `stopped` is the assertion
-- that a method has responded.
pub data Processed (Node : Type 0) : Type 0 where
  processed : Bool → Client Node → Processed Node
  stopped : Processed Node

-- "id", "response", "cmd", "msg", "code" and "error".
abbrev key_id : List ℕ
key_id = b'i' ∷ b'd' ∷ []

abbrev key_response : List ℕ
key_response = b'r' ∷ b'e' ∷ b's' ∷ b'p' ∷ b'o' ∷ b'n' ∷ b's' ∷ b'e' ∷ []

abbrev key_cmd : List ℕ
key_cmd = b'c' ∷ b'm' ∷ b'd' ∷ []

abbrev key_msg : List ℕ
key_msg = b'm' ∷ b's' ∷ b'g' ∷ []

abbrev key_code : List ℕ
key_code = b'c' ∷ b'o' ∷ b'd' ∷ b'e' ∷ []

abbrev key_error : List ℕ
key_error = b'e' ∷ b'r' ∷ b'r' ∷ b'o' ∷ b'r' ∷ []

module _ {Node Float : Type 0} (json : Platform Node Float) where
  -- A pair of fields, both of which the message has.
  unfoldable pub both_fields : Node → List ℕ → List ℕ → Option (Node × Node)
  both_fields msg a b = elim (json.json_find msg a) [
    | none ↦ none
    | some x ↦ elim (json.json_find msg b) [ none ↦ none | some y ↦ some (x, y) ]
  ]

  -- By the kind of message, in the order of the tests.
  unfoldable pub route_kind : ℕ → Node → Routed Node
  unfolding both_fields
  route_kind id msg = elim (json.json_find msg key_response) [
    | some n ↦ response id n rt_response none
    | none ↦ elim (both_fields msg key_cmd key_msg) [
      | some (cmd, params) ↦ command id cmd params
      | none ↦ elim (both_fields msg key_code key_error) [
        | some (code, error) ↦ response id error rt_error (some (json.json_as_int code))
        | none ↦ refused
      ]
    ]
  ]

  -- The test of "id"; `none` is NULL.
  unfoldable pub route : Option Node → Routed Node
  unfolding route_kind to_unsigned same_type
  route none = refused
  route (some msg) = elim (json.json_find msg key_id) [
    | none ↦ refused
    | some i_id ↦
        if same_type (json.json_type i_id) json_number
        then route_kind (to_unsigned (json.json_as_int i_id)) msg
        else refused
  ]

  -- The message with the first of its responses, sent.
  unfoldable pub finish_command : Agent Node → Client Node → ℕ → ProcMsg Node → Processed Node
  unfolding clnt_send
  finish_command agent client id none = stopped
  finish_command agent client id (some (type, node)) =
      processed true (clnt_send client (agent.with_id node id))

  unfoldable pub clnt_process_command : Agent Node → Client Node → ℕ → Node → Node → Processed Node
  unfolding same_type add_responses responses_of agent_process_command finish_command
  clnt_process_command agent client id n_cmd n_msg =
      if not (same_type (json.json_type n_cmd) json_string)
        || not (same_type (json.json_type n_msg) json_node)
      then processed false client
      else finish_command agent client id (
          add_responses none (
            responses_of agent
              (agent_process_command json agent.table (json.json_as_string n_cmd) n_msg)))

  unfoldable pub process_routed : Agent Node → Client Node → Routed Node → Processed Node
  unfolding clnt_process_command clnt_process_response
  process_routed agent client refused = processed false client
  process_routed agent client (response id node rt code) =
      let (known, client') = clnt_process_response client id node rt code in processed known client'
  process_routed agent client (command id n_cmd n_msg) =
      clnt_process_command agent client id n_cmd n_msg

  unfoldable pub clnt_process_msg : Agent Node → Client Node → Option Node → Processed Node
  unfolding route process_routed
  clnt_process_msg agent client msg = process_routed agent client (route msg)

-- The first response of a list.
unfoldable pub first_of {ℓ} : {A : Type ℓ} → List A → Option A
first_of [] = none
first_of (x ∷ xs) = some x

add_responses-some :
    {Node : Type 0} (first : Response Node) (rs : List (Response Node))
    → add_responses (some first) rs ≡ some first
unfolding add_responses
add_responses-some first [] = refl
add_responses-some first (r ∷ rs) = add_responses-some first rs

add_responses-first_of :
    {Node : Type 0} (rs : List (Response Node)) → add_responses none rs ≡ first_of rs
unfolding add_responses first_of
add_responses-first_of [] = refl
add_responses-first_of (r ∷ rs) = add_responses-some r rs

module _ {Node Float : Type 0} (json : Platform Node Float) (agent : Agent Node)
    (client : Client Node) (id : ℕ) (n_cmd n_msg : Node) where
  -- What the agent makes of the command.
  abbrev pub responses : List (Response Node)
  responses =
      responses_of agent (agent_process_command json agent.table (json.json_as_string n_cmd) n_msg)

  -- A command that comes in as a text and an object, over a connection, is answered by exactly one
  -- message, which carries its id: the first response that its method or the error made. Later
  -- responses are dropped, and nothing else of the client changes.
  pub clnt_process_command-sent :
      (first : Response Node) (later : List (Response Node))
      → client.clnt_connected ≡ true
      → same_type (json.json_type n_cmd) json_string ≡ true
      → same_type (json.json_type n_msg) json_node ≡ true
      → responses ≡ first ∷ later
      → clnt_process_command json agent client id n_cmd n_msg
        ≡ processed true (record client { sent = client.sent ++ (agent.with_id first.1 id ∷ []) })
  unfolding clnt_process_command clnt_send first_of
  clnt_process_command-sent first later up text object e =
      let kept : add_responses none responses ≡ some first =
        add_responses-first_of responses ∙ ap first_of e in
      rw (text, object, kept, up) refl
