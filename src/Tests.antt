-- ===== src/Tests.antt =====
-- Runs of the model at concrete inputs, and the theorems at inputs that meet their hypotheses.
mod Fixture
mod Freeze
mod Transport
mod Candidates
mod Session
mod Chains
mod Policy
mod Aob
mod Json
mod Parser
mod Agent
mod Serve
