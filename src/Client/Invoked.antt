-- ===== src/Client/Invoked.antt =====
-- An invocation and the responses that come in meanwhile.
use v_perf_generator.Client.{
  clnt_max_disconnects, Client, Handler, ResponseType, rt_nothing, rt_disconnect, Phase, sending,
  waiting, woken, find_handler, change_handler, remove_handler, answered, notify_one,
  clnt_create_msg, clnt_send, clnt_process_response, invoke_send, invoke_wait, invoke_return,
  disconnected, clnt_on_disconnect,
}
use v_perf_generator.Common.{
  ltb, ◌<◌, ℕ, ℕ, ◌+◌, ◌%◌, ◌^◌, ◌≡◌, ◌≢◌, Bool, true, false, some, none, Option, List, [], ◌∷◌,
  refl, All, Option-cases, arith, map, inl, inr, subst, sym, ap, ◌∙◌,
}
use v_perf_generator.Common.Int.{ℤ, pos}
use v_perf_generator.Client.Handlers.{
  find_handler-change_handler, find_handler-change_handler_ne, find_handler-append, answered-id,
  find_handler-map,
}

-- A response or an error that comes in.
pub record Incoming (Node : Type 0) : Type 0 where
  pub msg_id : ℕ
  pub node : Node
  pub type : ResponseType
  pub code : Option ℤ

module _ {Node : Type 0} where
  unfoldable pub receive : Client Node → Incoming Node → Client Node
  receive client m = (clnt_process_response client m.msg_id m.node m.type m.code).1

  unfoldable pub receive_all : Client Node → List (Incoming Node) → Client Node
  receive_all client [] = client
  receive_all client (m ∷ ms) = receive_all (receive client m) ms

  -- What an invocation returns, if it has been woken.
  unfoldable pub returned :
      Option (ResponseType × Option Node × Client Node) → Option (ResponseType × Option Node)
  returned none = none
  returned (some (rt, response, client)) = some (rt, response)

  abbrev with_answer : Client Node → Incoming Node → Client Node
  with_answer client m = record client {
    hdl_hashmap = change_handler m.msg_id (answered m.node m.type m.code) client.hdl_hashmap;
  }

  abbrev by_handler : Client Node → Incoming Node → Option (Handler Node) → Bool × Client Node
  by_handler client m o = elim o [ none ↦ (false, client) | some h ↦ (true, with_answer client m) ]

  receive_of :
      (client : Client Node) (m : Incoming Node) (o : Option (Handler Node))
      → find_handler m.msg_id client.hdl_hashmap ≡ o
      → receive client m ≡ (by_handler client m o).1
  unfolding receive clnt_process_response
  receive_of client m o e = ap (λ x. (by_handler client m x).1) e

  receive_ne :
      (id : ℕ) (client : Client Node) (m : Incoming Node)
      → m.msg_id ≢ id
      → find_handler id (receive client m).hdl_hashmap ≡ find_handler id client.hdl_hashmap
  receive_ne id client m ne = elim (Option-cases (find_handler m.msg_id client.hdl_hashmap)) [
    | inl unknown ↦ rw (receive_of client m none unknown) refl
    | inr (h, known) ↦ rw (receive_of client m (some h) known) (
        find_handler-change_handler_ne id m.msg_id (answered m.node m.type m.code)
          client.hdl_hashmap (answered-id m.node m.type m.code) ne)
  ]

  receive_all_ne :
      (id : ℕ) (client : Client Node) (ms : List (Incoming Node))
      → All (λ m. m.msg_id ≢ id) ms
      → find_handler id (receive_all client ms).hdl_hashmap ≡ find_handler id client.hdl_hashmap
  unfolding receive_all
  receive_all_ne id client [] ne = refl
  receive_all_ne id client (m ∷ ms) ne =
      receive_all_ne id (receive client m) ms ne.1 ∙ receive_ne id client m ne.0

  receive_self :
      (client : Client Node) (m : Incoming Node) (h : Handler Node)
      → find_handler m.msg_id client.hdl_hashmap ≡ some h
      → find_handler m.msg_id (receive client m).hdl_hashmap
        ≡ some (answered m.node m.type m.code h)
  receive_self client m h found = rw (receive_of client m (some h) found) (
      find_handler-change_handler m.msg_id (answered m.node m.type m.code) client.hdl_hashmap h
        (answered-id m.node m.type m.code h) found)

  -- The handler of a message that has just been sent.
  abbrev new_handler : ℕ → Handler Node
  new_handler id = record {
    mh_msg_id = id;
    mh_response = none;
    mh_response_type = rt_nothing;
    mh_error_code = pos 0;
    phase = sending;
  }

  clnt_send_handlers :
      (client : Client Node) (node : Node)
      → (clnt_send client node).hdl_hashmap ≡ client.hdl_hashmap
  unfolding clnt_send
  clnt_send_handlers client node = ground arith

  sent-handler :
      (format : ℕ → Node) (client : Client Node)
      → find_handler (client.clnt_msg_id % 2 ^ 32) client.hdl_hashmap ≡ none
      → find_handler (client.clnt_msg_id % 2 ^ 32) (invoke_send format client).1.hdl_hashmap
        ≡ some (new_handler (client.clnt_msg_id % 2 ^ 32))
  unfolding invoke_send clnt_create_msg
  sent-handler format client fresh =
      let id = client.clnt_msg_id % 2 ^ 32 in
      let kept = clnt_send_handlers (clnt_create_msg client).1 (format id) in
      rw kept (find_handler-append id client.hdl_hashmap (new_handler id) fresh refl)

  wait-handler :
      (id : ℕ) (client : Client Node) (h : Handler Node)
      → find_handler id client.hdl_hashmap ≡ some h
      → find_handler id (invoke_wait id client).hdl_hashmap ≡ some (record h { phase = waiting })
  unfolding invoke_wait
  wait-handler id client h found =
      find_handler-change_handler id (λ hdl. record hdl { phase = waiting }) client.hdl_hashmap h
        refl found

  -- By the phase of the handler.
  unfoldable pub returned_by : Phase → Handler Node → Option (ResponseType × Option Node)
  returned_by sending h = none
  returned_by waiting h = none
  returned_by woken h = some (h.mh_response_type, h.mh_response)

  returned-phase :
      (client : Client Node) (p : Phase) (h : Handler Node)
      → returned (elim p [
        | sending ↦ none
        | waiting ↦ none
        | woken ↦ some (h.mh_response_type, h.mh_response, client)
      ])
        ≡ returned_by p h
  unfolding returned returned_by
  returned-phase client sending h = refl
  returned-phase client waiting h = refl
  returned-phase client woken h = refl

  returned_of :
      (id : ℕ) (client : Client Node) (h : Handler Node)
      → find_handler id client.hdl_hashmap ≡ some h
      → returned (invoke_return id client) ≡ returned_by h.phase h
  unfolding invoke_return
  returned_of id client h found =
      let left = record client { hdl_hashmap = remove_handler id client.hdl_hashmap } in
      ap
        (λ (o : Option (Handler Node)). returned (elim o [
          | none ↦ none
          | some hdl ↦ elim hdl.phase [
            | sending ↦ none
            | waiting ↦ none
            | woken ↦ some (hdl.mh_response_type, hdl.mh_response, left)
          ]
        ]))
        found
      ∙ returned-phase left h.phase h

module _ {Node : Type 0} (format : ℕ → Node) (client : Client Node) (others : List (Incoming Node))
    (m : Incoming Node) (new : m.msg_id ≡ client.clnt_msg_id % 2 ^ 32)
    (fresh : find_handler m.msg_id client.hdl_hashmap ≡ none)
    (apart : All (λ o. o.msg_id ≢ m.msg_id) others) where
  abbrev pub sent_client : Client Node
  sent_client = (invoke_send format client).1

  started : find_handler m.msg_id sent_client.hdl_hashmap ≡ some (new_handler m.msg_id)
  started =
      subst (λ id. find_handler id sent_client.hdl_hashmap ≡ some (new_handler id)) (sym new)
        (sent-handler format client
          (subst (λ id. find_handler id client.hdl_hashmap ≡ none) new fresh))

  woken_answer :
      (code : Option ℤ)
      → returned_by
          (answered m.node m.type code (record (new_handler m.msg_id) { phase = waiting })).phase
          (answered m.node m.type code (record (new_handler m.msg_id) { phase = waiting }))
        ≡ some (m.type, some m.node)
  unfolding returned_by answered notify_one
  woken_answer none = refl
  woken_answer (some c) = refl

  -- An invocation whose thread waits is woken by the first response with its id, whatever comes in
  -- for other ids before, and returns the type and the content of that response.
  pub invoke_return-answered :
      returned
        (invoke_return m.msg_id (receive (receive_all (invoke_wait m.msg_id sent_client) others) m))
      ≡ some (m.type, some m.node)
  unfolding returned_by answered notify_one
  invoke_return-answered =
      let waits = wait-handler m.msg_id sent_client (new_handler m.msg_id) started in
      let still = receive_all_ne m.msg_id (invoke_wait m.msg_id sent_client) others apart ∙ waits in
      let h = record (new_handler m.msg_id) { phase = waiting } in
      let done = receive_self (receive_all (invoke_wait m.msg_id sent_client) others) m h still in
      returned_of m.msg_id _ (answered m.node m.type m.code h) done ∙ woken_answer m.code

  -- A response that comes in after the command has gone out and before the thread waits for it is
  -- lost: the thread then waits, and no response to any other id makes it return.
  pub invoke_return_lost :
      returned
        (invoke_return m.msg_id (receive_all (invoke_wait m.msg_id (receive sent_client m)) others))
      ≡ none
  unfolding returned_by
  invoke_return_lost =
      let early = receive_self sent_client m (new_handler m.msg_id) started in
      let h = answered m.node m.type m.code (new_handler m.msg_id) in
      let waits = wait-handler m.msg_id (receive sent_client m) h early in
      let still =
        receive_all_ne m.msg_id (invoke_wait m.msg_id (receive sent_client m)) others apart
        ∙ waits in
      returned_of m.msg_id _ (record h { phase = waiting }) still

module _ {Node : Type 0} where
  -- What an invocation returns after a disconnect; `none` where the agent aborts.
  unfoldable pub after_disconnect : ℕ → Option (Client Node) → Option (ResponseType × Option Node)
  unfolding returned
  after_disconnect id none = none
  after_disconnect id (some client) = returned (invoke_return id client)

  -- A disconnect, one of the first five, wakes every thread that waits for a response: its invocation
  -- returns RT_DISCONNECT.
  pub invoke_return-clnt_on_disconnect :
      (id : ℕ) (client : Client Node) (h : Handler Node)
      → client.clnt_disconnects < clnt_max_disconnects
      → find_handler id client.hdl_hashmap ≡ some h
      → h.phase ≡ waiting
      → after_disconnect id (clnt_on_disconnect client) ≡ some (rt_disconnect, h.mh_response)
  unfolding clnt_on_disconnect after_disconnect returned_by disconnected notify_one
  invoke_return-clnt_on_disconnect id client h few found waits =
      let enough : ltb clnt_max_disconnects (client.clnt_disconnects + 1) ≡ false = ground arith in
      let later : Client Node = record client {
        clnt_connected = false;
        hdl_hashmap = map disconnected client.hdl_hashmap;
        clnt_disconnects = client.clnt_disconnects + 1;
      } in
      rw enough (
        returned_of id later (disconnected h) (find_handler-map id client.hdl_hashmap h found)
        ∙ ap (λ p. returned_by (notify_one p) (disconnected h)) waits)
