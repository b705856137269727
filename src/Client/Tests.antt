-- ===== src/Client/Tests.antt =====
-- Runs of the client and the witnesses. A JSON node of the tests is a number, with itself as its
-- fields.
use v_perf_generator.WlParam.{JsonType, json_string, json_node, Platform, json_number}
use v_perf_generator.Client.{
  Client, Handler, rt_response, rt_error, rt_nothing, rt_disconnect, waiting, find_handler,
  invoke_send, invoke_wait, invoke_return, clnt_on_disconnect,
}
use v_perf_generator.Client.Receive.{clnt_recv_parse, framed, valid, clnt_recv_parse-framed}
use v_perf_generator.Client.Dispatch.{
  Method, agent_process_command, Answer, agent_process_command-Answer, same_type,
}
use v_perf_generator.Client.Command.{
  Agent, clnt_process_command, processed, clnt_process_command-sent, responses_of,
}
use v_perf_generator.Client.Invoked.{
  Incoming, receive, receive_all, returned, invoke_return-answered, invoke_return_lost,
  after_disconnect, invoke_return-clnt_on_disconnect,
}
use v_perf_generator.Common.{
  ℕ, if◌then◌else◌, ◌==◌, ℕ, ◌+◌, ◌≡◌, refl, some, none, Option, List, [], ◌∷◌, arith, true, false,
}
use v_perf_generator.Common.Int.{pos}
use v_perf_generator.Common.Bytes.{str_eq}

-- 1 is a text, 2 an object with a field "a", 3.
abbrev type_of : ℕ → JsonType
type_of n = if n == 1 then json_string else if n == 2 then json_node else json_number

abbrev json : Platform ℕ ℕ
json = record {
  json_type = type_of;
  json_as_bool = λ n. pos 0;
  json_as_int = λ n. pos n;
  json_as_float = λ n. n;
  json_as_string = λ n. b'h' ∷ [];
  json_find = λ n name. if n == 2 then some 3 else none;
  ltb_float = λ a b. false;
  bytes_of_int = λ n. [];
  bytes_of_long = λ n. [];
  bytes_of_double = λ n. [];
  bytes_of_size = λ n. [];
}

abbrev method : Method
method = record { ad_name = b'h' ∷ []; ad_args = ((b'a' ∷ []), json_number) ∷ []; ad_method = 7 }

abbrev agent : Agent ℕ
agent = record {
  table = method ∷ [];
  run = λ k argv. (rt_response, 40) ∷ (rt_error, 50) ∷ [];
  error_node = λ e. 99;
  with_id = λ node id. node + id;
}

abbrev client : Client ℕ
client = record {
  clnt_msg_id = 5;
  hdl_hashmap = [];
  clnt_connected = true;
  clnt_disconnects = 0;
  sent = [];
}

agent_process_command-Answer_example :
    Answer json (method ∷ []) (b'h' ∷ []) 2 (agent_process_command json (method ∷ []) (b'h' ∷ []) 2)
agent_process_command-Answer_example = agent_process_command-Answer json (method ∷ []) (b'h' ∷ []) 2

clnt_process_command-sent_example :
    clnt_process_command json agent client 2 1 2 ≡ processed true (record client { sent = 42 ∷ [] })
unfolding agent_process_command same_type responses_of str_eq
clnt_process_command-sent_example =
    clnt_process_command-sent json agent client 2 1 2 (rt_response, 40) ((rt_error, 50) ∷ []) refl
      refl refl refl

abbrev parse : List ℕ → Option ℕ
parse [] = none
parse (c ∷ cs) = some c

clnt_recv_parse-framed_example :
    clnt_recv_parse parse (framed ((7 ∷ 8 ∷ []) ∷ [] ∷ (9 ∷ []) ∷ []))
    ≡ valid parse ((7 ∷ 8 ∷ []) ∷ [] ∷ (9 ∷ []) ∷ [])
clnt_recv_parse-framed_example =
    clnt_recv_parse-framed parse ((7 ∷ 8 ∷ []) ∷ [] ∷ (9 ∷ []) ∷ []) (omega arith)

abbrev incoming : ℕ → ℕ → Incoming ℕ
incoming id n = record { msg_id = id; node = n; type = rt_response; code = none }

invoke_return-answered_example :
    returned (
      invoke_return 5 (
        receive
          (receive_all (invoke_wait 5 (invoke_send (λ id. id) client).1) (incoming 4 80 ∷ []))
          (incoming 5 81)))
    ≡ some (rt_response, some 81)
unfolding find_handler
invoke_return-answered_example =
    invoke_return-answered (λ id. id) client (incoming 4 80 ∷ []) (incoming 5 81) refl refl
      (omega arith)

invoke_return_lost_example :
    returned (
      invoke_return 5 (
        receive_all
          (invoke_wait 5 (receive (invoke_send (λ id. id) client).1 (incoming 5 81)))
          (incoming 4 80 ∷ [])))
    ≡ none
unfolding find_handler
invoke_return_lost_example =
    invoke_return_lost (λ id. id) client (incoming 4 80 ∷ []) (incoming 5 81) refl refl
      (omega arith)

abbrev waiting_handler : Handler ℕ
waiting_handler = record {
  mh_msg_id = 5;
  mh_response = none;
  mh_response_type = rt_nothing;
  mh_error_code = pos 0;
  phase = waiting;
}

invoke_return-clnt_on_disconnect_example :
    after_disconnect 5 (clnt_on_disconnect (record client { hdl_hashmap = waiting_handler ∷ [] }))
    ≡ some (rt_disconnect, none)
unfolding find_handler
invoke_return-clnt_on_disconnect_example =
    invoke_return-clnt_on_disconnect 5 (record client { hdl_hashmap = waiting_handler ∷ [] })
      waiting_handler (omega arith) refl refl
