-- ===== src/Tests/Serve.antt =====
-- The server thread at two requests, and at a stop while it waits.
use gtlibcpp.Common.{
  ◌≡◌, ◌⊎◌, refl, arith, false, List, [], ◌∷◌, some, Bytes, codes, to_string, equal,
}
use gtlibcpp.Json.{json_encode, escape_all, escape, json_get, json_get_string}
use gtlibcpp.Json.Decode.{json_decode, parse_value, parse_string_value, string_loop}
use gtlibcpp.Scan.{skip_ws, print_int, stoll}
use gtlibcpp.Freeze.{all_status}
use gtlibcpp.Agent.Forms.{freeze_objects}
use gtlibcpp.Agent.Handlers.{Times, AgentState, on_status}
use gtlibcpp.Agent.{handle, respond, call, wrap}
use gtlibcpp.Transport.{InProcTransportPair}
use gtlibcpp.Agent.Serve.{in_process, receiving, returned, terminated, Service, stop}
use gtlibcpp.Agent.Serve.Rounds.{steps, stop-has_ended}
use gtlibcpp.Agent.Serve.InOrder.{no_more, next, running, rounds, rounds-running}
use gtlibcpp.Tests.Fixture.{who, target_memory}
use gtlibcpp.Tests.Json.{no_doubles}
use gtlibcpp.Tests.Agent.{times, idle}

abbrev status_request : Bytes
status_request = codes "{\"id\":\"7\",\"method\":\"status\"}"

abbrev status_reply : Bytes
status_reply = codes "{\"jsonrpc\":\"2.0\",\"id\":\"7\",\"result\":{\"freezes\":[]}}"

abbrev bad_reply : Bytes
bad_reply =
    codes
      "{\"jsonrpc\":\"2.0\",\"id\":\"\",\"error\":{\"code\":-32700,\"message\":\"parse error\"}}"

status_answered :
    handle no_doubles target_memory who times status_request idle ≡ (some status_reply, idle)
unfolding handle respond json_decode parse_value codes skip_ws parse_string_value json_encode
    escape_all escape print_int to_string string_loop call wrap on_status all_status json_get_string
    json_get equal freeze_objects stoll
status_answered = refl

bad_answered : handle no_doubles target_memory who times (codes "{") idle ≡ (some bad_reply, idle)
unfolding handle respond json_decode parse_value codes skip_ws parse_string_value json_encode
    escape_all escape print_int to_string
bad_answered = refl

rounds-running_example :
    rounds no_doubles target_memory who
      ((times, status_request) ∷ (times, codes "{") ∷ [])
      (running no_doubles target_memory who idle (status_request ∷ codes "{" ∷ []) [])
    ≡ running no_doubles target_memory who idle [] (status_reply ∷ bad_reply ∷ [])
rounds-running_example =
    rounds-running no_doubles target_memory who ((times, status_request) ∷ (times, codes "{") ∷ [])
      idle idle [] (status_reply ∷ bad_reply ∷ [])
      (next status_answered (next bad_answered no_more))

-- A service that waits for a request.
abbrev waiting : Service no_doubles target_memory in_process
waiting = record {
  stop_flag = false;
  server_thread = receiving;
  agent = idle;
  transport = record {
    client_to_server = status_request ∷ [];
    server_to_client = [];
    closed = false;
  };
}

abbrev met_with : List (Times × InProcTransportPair × AgentState target_memory)
met_with =
    (times, waiting.transport, idle)
    ∷ (times, waiting.transport, idle)
    ∷ (times, waiting.transport, idle)
    ∷ (times, waiting.transport, idle)
    ∷ []

stop-has_ended_example :
    ((steps no_doubles target_memory in_process who met_with
        (stop no_doubles target_memory in_process waiting)).server_thread
      ≡ returned)
    ⊎ ((steps no_doubles target_memory in_process who met_with
          (stop no_doubles target_memory in_process waiting)).server_thread
        ≡ terminated)
stop-has_ended_example =
    stop-has_ended no_doubles target_memory in_process who (λ t h. absurd (cc h)) met_with waiting
      (omega arith)
