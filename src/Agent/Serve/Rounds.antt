-- ===== src/Agent/Serve/Rounds.antt =====
-- src/agent.cpp: what the server thread does over a transport in one process, and how it ends.
use gtlibcpp.Common.{
  ℕ, ◌-◌, ◌≤◌, length, ◌≡◌, ◌≢◌, ◌⊎◌, inl, inr, refl, ◌∙◌, arith, Bool, true, false, List, [], ◌∷◌,
  Option, none, some, Bytes,
}
use gtlibcpp.Result.{Result, ok, err}
use gtlibcpp.Types.{TargetIdentity}
use gtlibcpp.Backend.{Backend}
use gtlibcpp.Json.{Double}
use gtlibcpp.Agent.Handlers.{Times, AgentState}
use gtlibcpp.Agent.{handle}
use gtlibcpp.Agent.Serve.{
  IAgentTransport, Phase, testing, receiving, retrying, handling, sending, returned, terminated,
  Service, received, answered, sent, server_run, server_step, stop,
}

-- The thread has returned, or an exception has terminated the process.
abbrev pub has_ended : Phase → Bool
has_ended returned = true
has_ended terminated = true
has_ended other = false

-- The steps that are left at most once the flag is set.
abbrev pub left : Phase → ℕ
left testing = 1
left receiving = 4
left retrying = 1
left (handling request) = 3
left (sending response) = 2
left returned = 0
left terminated = 0

left-has_ended : (phase : Phase) → left phase ≡ 0 → has_ended phase ≡ true
left-has_ended returned h = refl
left-has_ended terminated h = refl
left-has_ended testing h = absurd (omega (arith, h))
left-has_ended receiving h = absurd (omega (arith, h))
left-has_ended retrying h = absurd (omega (arith, h))
left-has_ended (handling request) h = absurd (omega (arith, h))
left-has_ended (sending response) h = absurd (omega (arith, h))

ended_as : (phase : Phase) → has_ended phase ≡ true → (phase ≡ returned) ⊎ (phase ≡ terminated)
ended_as returned h = inl refl
ended_as terminated h = inr refl
ended_as testing h = absurd (cc h)
ended_as receiving h = absurd (cc h)
ended_as retrying h = absurd (cc h)
ended_as (handling request) h = absurd (cc h)
ended_as (sending response) h = absurd (cc h)

module _ (D : Double) (B : Backend) (T : IAgentTransport) (identity : TargetIdentity) where
  -- What the others do before a step: the client to the transport, the rest to the agent and its
  -- target.
  abbrev pub met : T.State → AgentState B → Service D B T → Service D B T
  met t a s = record s { transport = t; agent = a }

  -- Steps of the thread, each with its reading of the clock and what it meets.
  abbrev pub steps : List (Times × T.State × AgentState B) → Service D B T → Service D B T
  steps [] s = s
  steps ((now, t, a) ∷ rest) s = steps rest (server_step D B T identity now (met t a s))

  received_left :
      (r : Option (Result Bytes) × T.State) (s : Service D B T)
      → r.0 ≢ none
      → (left (received D B T r s).server_thread ≤ 3)
        × ((received D B T r s).stop_flag ≡ s.stop_flag)
  received_left (some (ok request), t) s here = (omega arith, refl)
  received_left (some (err e), t) s here = (omega arith, refl)
  received_left (none, t) s here = absurd (here refl)

  answered_left :
      (r : Option Bytes × AgentState B) (s : Service D B T)
      → (left (answered D B T r s).server_thread ≤ 2)
        × ((answered D B T r s).stop_flag ≡ s.stop_flag)
  answered_left (none, a) s = (omega arith, refl)
  answered_left (some response, a) s = (omega arith, refl)

  sent_left :
      (r : Result (Unit {0}) × T.State) (s : Service D B T)
      → (left (sent D B T r s).server_thread ≤ 1) × ((sent D B T r s).stop_flag ≡ s.stop_flag)
  sent_left (r, t) s = (omega arith, refl)

  run_left :
      ((t : T.State) → (T.receive t).0 ≢ none)
      → (now : Times) (phase : Phase) (s : Service D B T) → s.server_thread ≡ phase
      → s.stop_flag ≡ true
      → (left (server_run D B T identity now phase s).server_thread ≤ left phase - 1)
        × ((server_run D B T identity now phase s).stop_flag ≡ true)
  unfolding server_run
  run_left back now testing s p h = rw (h) (omega arith, refl)
  run_left back now receiving s p h =
      let (a, b) = received_left (T.receive s.transport) s (back s.transport) in (a, b ∙ h)
  run_left back now retrying s p h = rw (h) (omega arith, refl)
  run_left back now (handling request) s p h =
      let (a, b) = answered_left (handle D B identity now request s.agent) s in (a, b ∙ h)
  run_left back now (sending response) s p h =
      let (a, b) = sent_left (T.send response s.transport) s in (a, b ∙ h)
  run_left back now returned s p h = (rw (p) (omega arith), h)
  run_left back now terminated s p h = (rw (p) (omega arith), h)

  steps-has_ended :
      ((t : T.State) → (T.receive t).0 ≢ none)
      → (met_with : List (Times × T.State × AgentState B)) (s : Service D B T) → s.stop_flag ≡ true
      → left s.server_thread ≤ length met_with
      → has_ended (steps met_with s).server_thread ≡ true
  unfolding server_step
  steps-has_ended back [] s h k = left-has_ended s.server_thread (omega (arith, k))
  steps-has_ended back ((now, t, a) ∷ rest) s h k =
      let (fewer, flag) = run_left back now s.server_thread (met t a s) refl h in
      steps-has_ended back rest (server_step D B T identity now (met t a s)) flag
        (omega (arith, fewer, k))

  left_bound : (phase : Phase) → left phase ≤ 4
  left_bound testing = omega arith
  left_bound receiving = omega arith
  left_bound retrying = omega arith
  left_bound (handling request) = omega arith
  left_bound (sending response) = omega arith
  left_bound returned = omega arith
  left_bound terminated = omega arith

  -- Where every call of `receive` returns, the server thread is over after four more of its steps once
  -- `stop` has set the flag, wherever it stands and whatever the client and the target do in
  -- between: it has returned, so that the wait of `stop` ends, or an exception of a handler has
  -- terminated the process.
  pub stop-has_ended :
      ((t : T.State) → (T.receive t).0 ≢ none)
      → (met_with : List (Times × T.State × AgentState B)) (s : Service D B T) → 4 ≤ length met_with
      → ((steps met_with (stop D B T s)).server_thread ≡ returned)
        ⊎ ((steps met_with (stop D B T s)).server_thread ≡ terminated)
  stop-has_ended back met_with s k = ended_as (steps met_with (stop D B T s)).server_thread (
      steps-has_ended back met_with (stop D B T s) refl
        (omega (arith, left_bound s.server_thread, k)))
