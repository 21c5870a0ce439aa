-- ===== src/Agent/Serve.antt =====
-- src/agent.cpp, include/gtlibcpp/agent.hpp: `serve` and `stop`, with the server thread as a phase that
-- takes one step at a time. Between two steps the client and the target may do anything.
pub mod Rounds
pub mod InOrder
use gtlibcpp.Common.{Bool, true, false, Option, none, some, if◌then◌else◌, Bytes, Exec}
use gtlibcpp.Result.{Result, ok, err}
use gtlibcpp.Types.{TargetIdentity}
use gtlibcpp.Backend.{Backend}
use gtlibcpp.Transport.{InProcTransportPair, send, receive}
use gtlibcpp.Json.{Double}
use gtlibcpp.Agent.Handlers.{Times, AgentState}
use gtlibcpp.Agent.{handle}

-- `IAgentTransport`, as the thread uses it. `none` is a call of `receive` that has not returned yet, as
-- that of a named pipe to which no client has connected.
pub record IAgentTransport : Type 1 where
  pub State : Type 0
  pub send : Bytes → Exec State (Result (Unit {0}))
  pub receive : Exec State (Option (Result Bytes))

-- The server's end of a pair in one process, whose `receive` returns after 50 ms at the latest.
abbrev pub in_process : IAgentTransport
in_process = record {
  State = InProcTransportPair;
  send = λ json. send false json;
  receive = λ p. let (reply, p') = receive false p in (some reply, p');
}

-- Where the thread stands: before the test of the flag, before the call of `receive`, after one that
-- failed, before `handle`, before `send`; or it has returned. An exception that leaves the thread is `std::terminate`: the
-- whole process has ended.
pub data Phase : Type 0 where
  testing receiving retrying : Phase
  handling sending : Bytes → Phase
  returned terminated : Phase

module _ (D : Double) (B : Backend) (T : IAgentTransport) where
  pub record Service : Type 0 where
    pub stop_flag : Bool
    pub server_thread : Phase
    pub agent : AgentState B
    pub transport : T.State

  abbrev pub at_phase : Phase → Service → Service
  at_phase phase s = record s { server_thread = phase }

  -- A thread whose call has not returned stays in it.
  abbrev pub received : Option (Result Bytes) × T.State → Service → Service
  received (some (ok request), t) s = record s { server_thread = handling request; transport = t }
  received (some (err e), t) s = record s { server_thread = retrying; transport = t }
  received (none, t) s = record s { server_thread = receiving; transport = t }

  abbrev pub answered : Option Bytes × AgentState B → Service → Service
  answered (none, a) s = record s { server_thread = terminated; agent = a }
  answered (some response, a) s = record s { server_thread = sending response; agent = a }

  -- The reply of `send` is ignored.
  abbrev pub sent : Result (Unit {0}) × T.State → Service → Service
  sent (r, t) s = record s { server_thread = testing; transport = t }

  module _ (identity : TargetIdentity) where
    server_run : Times → Phase → Service → Service
    server_run now testing s = at_phase (if s.stop_flag then returned else receiving) s
    server_run now receiving s = received (T.receive s.transport) s
    server_run now retrying s = at_phase (if s.stop_flag then returned else testing) s
    server_run now (handling request) s = answered (handle D B identity now request s.agent) s
    server_run now (sending response) s = sent (T.send response s.transport) s
    server_run now returned s = s
    server_run now terminated s = s

    unfoldable pub server_step : Times → Service → Service
    unfolding server_run
    server_step now s = server_run now s.server_thread s

  -- `serve` starts the thread.
  abbrev pub serve : Service → Service
  serve s = record s { stop_flag = false; server_thread = testing }

  -- `stop` up to the wait for the thread.
  abbrev pub stop : Service → Service
  stop s = record s { stop_flag = true }
