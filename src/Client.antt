-- ===== src/Client.antt =====
-- lib/libtsagent/src/client.c: the messages between the agent and its server. Threads that invoke a
-- command, the thread that processes messages and the one that receives them take turns; a step is
-- what one does between two points where another can come in. libjson is a parameter.
pub mod Dispatch
pub mod Receive
pub mod Command
pub mod Handlers
pub mod Invoked
mod Tests
use v_perf_generator.WlParam.{JsonType, json_number, Platform}
use v_perf_generator.Common.{
  ℕ, map, ℕ, ◌+◌, ◌-◌, ◌%◌, ◌^◌, ltb, ◌==◌, if◌then◌else◌, Bool, true, false, some, none, Option,
  List, [], ◌∷◌, ◌++◌, not, map,
}
use v_perf_generator.Common.Int.{ℤ, pos, negsuc}

abbrev pub clnt_max_disconnects : ℕ
clnt_max_disconnects = 5

pub data ResponseType : Type 0 where
  rt_response rt_error rt_timeout rt_disconnect rt_nothing : ResponseType

-- Where the thread that invokes is: before `event_wait`, in it, or out of it again.
pub data Phase : Type 0 where
  sending waiting woken : Phase

-- `mh_event` has no memory: a notification reaches a thread that waits, and no other.
pub record Handler (Node : Type 0) : Type 0 where
  pub mh_msg_id : ℕ
  pub mh_response : Option Node
  pub mh_response_type : ResponseType
  pub mh_error_code : ℤ
  pub phase : Phase

-- `hdl_hashmap` as the table that it holds, and `sent` what went out.
pub record Client (Node : Type 0) : Type 0 where
  pub clnt_msg_id : ℕ
  pub hdl_hashmap : List (Handler Node)
  pub clnt_connected : Bool
  pub clnt_disconnects : ℕ
  pub sent : List Node

-- A conversion to `unsigned`.
unfoldable pub to_unsigned : ℤ → ℕ
to_unsigned (pos n) = n % 2 ^ 32
to_unsigned (negsuc n) = 2 ^ 32 - 1 - n % 2 ^ 32

-- `event_notify_one(&hdl->mh_event)`
unfoldable pub notify_one : Phase → Phase
notify_one sending = sending
notify_one waiting = woken
notify_one woken = woken

module _ {Node : Type 0} where
  unfoldable pub find_handler : ℕ → List (Handler Node) → Option (Handler Node)
  find_handler id [] = none
  find_handler id (h ∷ hs) =
      let rest = find_handler id hs in if h.mh_msg_id == id then some h else rest

  unfoldable pub change_handler :
      ℕ → (Handler Node → Handler Node) → List (Handler Node) → List (Handler Node)
  change_handler id f [] = []
  change_handler id f (h ∷ hs) =
      let rest = change_handler id f hs in if h.mh_msg_id == id then f h ∷ hs else h ∷ rest

  -- `hash_map_remove`
  unfoldable pub remove_handler : ℕ → List (Handler Node) → List (Handler Node)
  remove_handler id [] = []
  remove_handler id (h ∷ hs) =
      let rest = remove_handler id hs in if h.mh_msg_id == id then hs else h ∷ rest

  -- The handler of the next message and its id. `hash_map_insert` puts it behind those in its
  -- chain.
  unfoldable pub clnt_create_msg : Client Node → ℕ × Client Node
  clnt_create_msg client =
      let id = client.clnt_msg_id % 2 ^ 32 in
      let hdl : Handler Node = record {
        mh_msg_id = id;
        mh_response = none;
        mh_response_type = rt_nothing;
        mh_error_code = pos 0;
        phase = sending;
      } in
      (
        id,
        record client {
          clnt_msg_id = client.clnt_msg_id + 1;
          hdl_hashmap = client.hdl_hashmap ++ (hdl ∷ []);
        },
      )

  -- `clnt_send`: without a connection nothing goes out.
  unfoldable pub clnt_send : Client Node → Node → Client Node
  clnt_send client node =
      if client.clnt_connected then record client { sent = client.sent ++ (node ∷ []) } else client

  -- What a response changes in its handler.
  unfoldable pub answered : Node → ResponseType → Option ℤ → Handler Node → Handler Node
  unfolding notify_one
  answered response rt none hdl = record hdl {
    mh_response_type = rt;
    mh_response = some response;
    phase = notify_one hdl.phase;
  }
  answered response rt (some code) hdl = record hdl {
    mh_error_code = code;
    mh_response_type = rt;
    mh_response = some response;
    phase = notify_one hdl.phase;
  }

  -- Whether the message id is known, and the client.
  unfoldable pub clnt_process_response :
      Client Node → ℕ → Node → ResponseType → Option ℤ → Bool × Client Node
  unfolding find_handler change_handler answered
  clnt_process_response client id response rt code = elim (find_handler id client.hdl_hashmap) [
    | none ↦ (false, client)
    | some hdl ↦ (
      true,
      record client {
        hdl_hashmap = change_handler id (answered response rt code) client.hdl_hashmap;
      },
    )
  ]

  -- `clnt_invoke` up to `event_wait`; `format` is `json_clnt_command_format`.
  unfoldable pub invoke_send : (ℕ → Node) → Client Node → ℕ × Client Node
  unfolding clnt_create_msg clnt_send
  invoke_send format client =
      let (id, client') = clnt_create_msg client in (id, clnt_send client' (format id))

  -- The thread is in `event_wait`.
  unfoldable pub invoke_wait : ℕ → Client Node → Client Node
  unfolding change_handler
  invoke_wait id client = record client {
    hdl_hashmap = change_handler id (λ hdl. record hdl { phase = waiting }) client.hdl_hashmap;
  }

  -- `clnt_invoke` once it is woken: what it returns. `none` is a thread that still waits.
  unfoldable pub invoke_return : ℕ → Client Node → Option (ResponseType × Option Node × Client Node)
  unfolding find_handler remove_handler
  invoke_return id client = elim (find_handler id client.hdl_hashmap) [
    | none ↦ none
    | some hdl ↦ elim hdl.phase [
      | sending ↦ none
      | waiting ↦ none
      | woken ↦ some (
        hdl.mh_response_type,
        hdl.mh_response,
        record client { hdl_hashmap = remove_handler id client.hdl_hashmap },
      )
    ]
  ]

  -- `clnt_handler_disconnect`
  unfoldable pub disconnected : Handler Node → Handler Node
  unfolding notify_one
  disconnected hdl = record hdl { mh_response_type = rt_disconnect; phase = notify_one hdl.phase }

  -- `none` is `abort`.
  unfoldable pub clnt_on_disconnect : Client Node → Option (Client Node)
  unfolding disconnected
  clnt_on_disconnect client =
      if ltb clnt_max_disconnects (client.clnt_disconnects + 1)
      then none
      else some (record client {
        clnt_connected = false;
        hdl_hashmap = map disconnected client.hdl_hashmap;
        clnt_disconnects = client.clnt_disconnects + 1;
      })
