-- ===== src/Lib.antt =====
-- A model of gtlibcpp, a library that reads and writes the memory of another process under a
-- policy, with theorems about it.
--
-- The parts and their files:
--   include/gtlibcpp/result.hpp          Result: error codes, errors, results; Names: to_string
--   include/gtlibcpp/types.hpp           Types: addresses, identities
--   include/gtlibcpp/backend.hpp         Backend: request checks, the interface of a backend;
--                                        Backend.Bounds what the checks accept; Backend.Memory the
--                                        contract of a backend as plain memory, and one that meets it
--   include/gtlibcpp/memory_session.hpp  Session: read, write, read_bytes, write_bytes,
--                                        compare_write_verify, resolve_pointer_chain; Session.Words the
--                                        layout of values; Session.Batch read_offsets and
--                                        write_offsets; Session.Text bounded strings; the other
--                                        children are proofs
--   src/policy.cpp, policy.hpp           Policy.Cap, Policy.Data, Policy.Limiter and Policy: manifests,
--                                        the rate limiter, the kill switch, authorize_with_token; the
--                                        other children are proofs
--   include/gtlibcpp/aob_scan.hpp        Aob.Parse: parse_aob; Aob: scan_aob; the other children are
--                                        proofs
--   src/freeze.cpp, freeze.hpp           Freeze.Data, Freeze: the manager, its entries and its worker
--                                        threads; Freeze.Steps what may happen, step by step; the
--                                        other children are proofs
--   include/gtlibcpp/candidate_scan.hpp  Candidates: first_scan, next_scan, refine_candidates;
--                                        Candidates.Sizes and Candidates.Survivors are proofs
--   src/inproc_transport.cpp, .hpp       Transport; Transport.Order is proofs
--   src/agent.cpp, agent.hpp             Json: JsonValue, json_encode and the look-ups; Json.Decode:
--                                        json_decode; Agent.Replies, Agent.Forms and Agent.Handlers: the
--                                        handlers; Agent: handle; Agent.Serve: serve and stop; the other
--                                        children are proofs
--   src/parser.cpp, parser.hpp           Parser.Xml: the XML reader; Parser.Types: types, numbers and
--                                        hot keys; Parser.Fields and Parser.Entry: one <CheatEntry>;
--                                        Parser: the table; the other children are proofs
-- Scan holds what the two readers share: character classes, std::stoll and std::stoul, and the
-- outcome of a reader.
-- Common holds what all share; Tests holds runs and instances of the theorems.
--
-- How they interact: the session checks a request, calls the backend and checks its reply; the
-- search reads chunk by chunk through the session; the policy decides on mutations, asking its
-- limiter; the freeze manager reads a snapshot and rewrites a value through the session, from one
-- thread for each entry. The agent decodes a request, calls one handler over the session, the
-- policy, the freeze manager and the parser, and encodes the reply; its session is the one of the
-- freeze manager, so both work on one target. A thread is a phase of its entry or of the service,
-- and what threads, callers and the target do is a sequence of steps in any order, where a call
-- that waits for a thread is cut at the wait.
--
-- Correspondence. A call that changes state takes the state and returns it beside its result. A
-- backend is a parameter (Backend): its calls may fail, throw or change the target, and what is
-- proved for every backend needs nothing else; theorems about content take the contract IsMemory.
-- Texts and vectors of bytes are lists of numbers, addresses and sizes are numbers below 2 ^ 64
-- with their wrap-around written out, values of trivially copyable types are unsigned numbers of
-- their width in little-endian order, and the == of their type is an argument. The size of a pointer
-- is that of the build, an argument of the session that the agent takes to be 8; the architecture
-- that is recorded for a target has no part in it. The clock's readings are arguments;
-- times are not negative. The type double and its conversions are a parameter (Double). The
-- identity that the session has cached is an argument of the agent, and an exception that leaves a
-- handler is none; in the server thread it terminates the process. A call of receive on a transport
-- may not have returned yet. A reader takes the text from its position on and gives back the rest. Log lines
-- change no result and are left out. Calls on a session without a backend have no defined behaviour
-- in the source and are not modelled.
--
-- Fuel: the loop of the search over chunks takes a number of rounds; scan_aob gives one more than
-- the whole chunks in the range, and with these the search misses nothing, since the theorem on its
-- result speaks of the whole range. The loop of first_scan has the same number of rounds. The
-- readers of JSON and XML take fuel: three times the length of the text and two for JSON, twice the
-- length and one for XML, and one more than the length for the prolog; the theorems on their
-- totality show that they never run out. to_string of a number gives one round more than the
-- number.
--
-- Not modelled: the named-pipe transport; in the freeze manager the sleep between rounds, log lines
-- and exceptions of its own; the backends of the platforms and process discovery, which call the
-- operating system; the logger; the tools, demos and examples; the copy of the older library under
-- libs.
pub mod Common
pub mod Result
pub mod Types
pub mod Backend
pub mod Session
pub mod Policy
pub mod Aob
pub mod Tests
pub mod Freeze
pub mod Candidates
pub mod Transport
pub mod Names
pub mod Scan
pub mod Json
pub mod Parser
pub mod Agent
