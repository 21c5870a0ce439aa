-- ===== src/Tests/Chains.antt =====
-- Pointer chains, batches and strings on the target of Fixture.
use gtlibcpp.Common.{ℕ, ◌≡◌, ◌≢◌, ◌↔◌, refl, [], ◌∷◌, arith, List, false, true}
use gtlibcpp.Result.{ok, err}
use gtlibcpp.Backend.Memory.{window, overlay}
use gtlibcpp.Session.{read_bytes, read, write, write_bytes, walk, resolve_pointer_chain, step_null}
use gtlibcpp.Session.Chain.{Follows}
use gtlibcpp.Session.Chain.Laws.{resolve_exact, Stops, resolve-Stops, chase, resolve_chase}
use gtlibcpp.Session.Batch.{BatchResult, read_offsets, write_offsets}
use gtlibcpp.Session.Batch.Laws.{Reports, offsets_report}
use gtlibcpp.Session.Text.{BoundedString, from_utf8, up_to_nul, to_bytes, read_string, write_string}
use gtlibcpp.Session.Text.Laws.{read_string-write_string}
use gtlibcpp.Common.{some}
use gtlibcpp.Tests.Fixture.{target_memory, is_memory, content}

abbrev offsets : List ℕ
offsets = 0x10 ∷ 8 ∷ []

chain_runs : resolve_pointer_chain target_memory 8 0x1000 offsets content ≡ (ok 0x8b481234, content)
unfolding resolve_pointer_chain walk read overlay window
chain_runs = refl

resolve_exact_example :
    (resolve_pointer_chain target_memory 8 0x1000 offsets content ≡ (ok 0x8b481234, content))
    ↔ ((offsets ≢ []) × Follows target_memory 8 0x1000 offsets content 0x8b481234 content)
resolve_exact_example = resolve_exact target_memory 8 0x1000 offsets content 0x8b481234 content

resolve_chase_example : chase 8 (is_memory.peek content) 0x1000 offsets ≡ some 0x8b481234
resolve_chase_example =
    resolve_chase target_memory is_memory 8 0x1000 offsets content 0x8b481234 content chain_runs

null_chain :
    resolve_pointer_chain target_memory 8 0x1000 (0x10 ∷ 0x20 ∷ []) content
    ≡ (err (step_null 8 1 0x1120), content)
unfolding resolve_pointer_chain walk read overlay window
null_chain = refl

resolve-Stops_example :
    Stops target_memory 8 0 0x1000 (0x10 ∷ 0x20 ∷ []) content (step_null 8 1 0x1120) content
resolve-Stops_example =
    resolve-Stops target_memory 8 0x1000 0x10 (0x20 ∷ []) content (step_null 8 1 0x1120) content
      null_chain

-- 0x2000 is not mapped.
offsets_report_example :
    ((b : BatchResult) × ((read_offsets target_memory 0x1000 (0 ∷ 0x1000 ∷ []) 4 content).0 ≡ ok b)
      × Reports
          (λ target. read_bytes target_memory target 4)
          0x1000
          []
          (0 ∷ 0x1000 ∷ [])
          (0 ∷ 0x1000 ∷ [])
          content
          b
          (read_offsets target_memory 0x1000 (0 ∷ 0x1000 ∷ []) 4 content).1)
    × ((b : BatchResult) × ((write_offsets target_memory 4 0x1000 (0 ∷ 0x1000 ∷ []) 9 content).0
          ≡ ok b)
        × Reports
            (λ target. write target_memory 4 target 9)
            0x1000
            []
            (0 ∷ 0x1000 ∷ [])
            (0 ∷ 0x1000 ∷ [])
            content
            b
            (write_offsets target_memory 4 0x1000 (0 ∷ 0x1000 ∷ []) 9 content).1)
offsets_report_example = offsets_report target_memory 0x1000 (0 ∷ 0x1000 ∷ []) 4 9 content

abbrev hi : BoundedString
hi = record { storage = 72 ∷ 105 ∷ []; capacity = 8; truncated = false }

hi_parses : from_utf8 (72 ∷ 105 ∷ 0 ∷ 7 ∷ []) 8 true ≡ ok hi
unfolding from_utf8 up_to_nul
hi_parses = refl

hi_written : (write_string target_memory 0x1800 hi 8 content).0 ≡ ok 3
unfolding write_string to_bytes write_bytes
hi_written = refl

hi_read :
    (read_string target_memory 0x1800 8 true (write_string target_memory 0x1800 hi 8 content).1).0
    ≡ ok hi
unfolding read_string write_string to_bytes write_bytes from_utf8 up_to_nul read_bytes overlay
    window
hi_read = refl

read_string-write_string_example : ◌≡◌ {A = List ℕ} hi.storage hi.storage
read_string-write_string_example =
    read_string-write_string target_memory is_memory 0x1800 8 8 true hi hi content (omega arith)
      (omega arith) (omega arith) hi_written hi_read
