-- ===== src/Agent/Serve/InOrder.antt =====
-- src/agent.cpp, src/inproc_transport.cpp: the server thread over a transport in one process.
use gtlibcpp.Common.{
  ◌≡◌, sym, ap, ◌∙◌, false, List, [], ◌∷◌, ◌++◌, map, some, append-nil, append_assoc, Bytes,
}
use gtlibcpp.Types.{TargetIdentity}
use gtlibcpp.Backend.{Backend}
use gtlibcpp.Transport.{send, receive}
use gtlibcpp.Json.{Double}
use gtlibcpp.Agent.Handlers.{Times, AgentState}
use gtlibcpp.Agent.{handle}
use gtlibcpp.Agent.Serve.{in_process, testing, handling, Service, answered, server_run, server_step}

module _ (D : Double) (B : Backend) (identity : TargetIdentity) where
  -- The requests, each with the reading of the clock, are handled one after the other without an
  -- exception, and these are the replies and the state after them.
  pub data Answers : List (Times × Bytes) → AgentState B → List Bytes → AgentState B → Type 0 where
    no_more : {a : AgentState B} → Answers [] a [] a
    next :
        {now : Times} {request reply : Bytes} {rest : List (Times × Bytes)} {replies : List Bytes}
        {a a' a'' : AgentState B}
        → handle D B identity now request a ≡ (some reply, a')
        → Answers rest a' replies a''
        → Answers ((now, request) ∷ rest) a (reply ∷ replies) a''

  -- A running service that tests its flag next, with what waits in the two queues.
  abbrev pub running : AgentState B → List Bytes → List Bytes → Service D B in_process
  running a waiting replies = record {
    stop_flag = false;
    server_thread = testing;
    agent = a;
    transport = record { client_to_server = waiting; server_to_client = replies; closed = false };
  }

  -- One time around the loop of the thread.
  abbrev pub round : Times → Service D B in_process → Service D B in_process
  round now s = let step = server_step D B in_process identity now in step (step (step (step s)))

  abbrev pub rounds : List (Times × Bytes) → Service D B in_process → Service D B in_process
  rounds [] s = s
  rounds ((now, request) ∷ rest) s = rounds rest (round now s)

  round-running :
      (now : Times) (request reply : Bytes) (a a' : AgentState B) (waiting replies : List Bytes)
      → handle D B identity now request a ≡ (some reply, a')
      → round now (running a (request ∷ waiting) replies)
        ≡ running a' waiting (replies ++ reply ∷ [])
  unfolding server_step server_run send receive
  round-running now request reply a a' waiting replies h =
      ap
        (λ r. server_step D B in_process identity now (
          answered D B in_process r (record {
            stop_flag = false;
            server_thread = handling request;
            agent = a;
            transport = record {
              client_to_server = waiting;
              server_to_client = replies;
              closed = false;
            };
          })))
        h

  -- A server that runs over an open pair answers the requests that wait, each once and in order: if
  -- handling them one after the other gives these replies with no exception, then one round of the
  -- thread for each leaves no request, the replies behind those already sent, and the agent's state
  -- after the last of them.
  pub rounds-running :
      (requests : List (Times × Bytes)) (a a' : AgentState B) (earlier replies : List Bytes)
      → Answers requests a replies a'
      → rounds requests (running a (map (λ (r : Times × Bytes). r.1) requests) earlier)
        ≡ running a' [] (earlier ++ replies)
  rounds-running [] a a' earlier replies no_more = ap (running a []) (sym (append-nil earlier))
  rounds-running ((now, request) ∷ rest) a a' earlier [] answers = elim answers [ ]
  rounds-running ((now, request) ∷ rest) a a' earlier (reply ∷ replies) (next {a' = b} h more) =
      ap (rounds rest)
        (round-running now request reply a b (map (λ (r : Times × Bytes). r.1) rest) earlier h)
      ∙ rounds-running rest b a' (earlier ++ reply ∷ []) replies more
      ∙ ap (running a' []) (append_assoc earlier (reply ∷ []) replies)
