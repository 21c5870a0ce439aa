-- ===== src/Tests/Session.antt =====
-- The session on the target of Fixture.
use gtlibcpp.Common.{◌==◌, ℕ, ◌≡◌, ◌↔◌, refl, [], ◌∷◌, arith, Bytes}
use gtlibcpp.Result.{ok}
use gtlibcpp.Backend.{validate_read_request, validate_write_request}
use gtlibcpp.Backend.Bounds.{IsInRange, validate_exact}
use gtlibcpp.Backend.Memory.{window, overlay}
use gtlibcpp.Session.{read_bytes, read, write_bytes, write, compare_write_verify}
use gtlibcpp.Session.Reads.{ReadShows, read_bytes-shows}
use gtlibcpp.Session.Refused.{Refuses, out_of_range_refused}
use gtlibcpp.Session.RoundTrip.{read_bytes-write_bytes, read-write}
use gtlibcpp.Session.Verify.{IsVerified, compare_write_verify_exact, compare_write_verify_memory}
use gtlibcpp.Tests.Fixture.{target_memory, is_memory, content}

validate_exact_example :
    ((validate_read_request 0x1000 16 ≡ ok 16) ↔ IsInRange 0x1000 16)
    × ((validate_write_request 0x1000 16 ≡ ok 16) ↔ IsInRange 0x1000 16)
validate_exact_example = validate_exact 0x1000 16 (omega arith)

read_three : (read_bytes target_memory 0x1010 3 content).0 ≡ ok (0 ∷ 0x11 ∷ 0 ∷ [])
unfolding read_bytes overlay window
read_three = refl

read_bytes-shows_example :
    ReadShows target_memory 0x1010 3 content
      (read_bytes target_memory 0x1010 3 content).1
      (0 ∷ 0x11 ∷ 0 ∷ [])
read_bytes-shows_example = read_bytes-shows target_memory 0x1010 3 content (omega arith) read_three

empty_out_of_range : ¬ IsInRange 0x1000 0
empty_out_of_range h = absurd (omega (arith, h.positive))

out_of_range_refused_example :
    Refuses (read_bytes target_memory 0x1000 0) content
    × Refuses (read target_memory 0 0x1000) content
    × Refuses (write_bytes target_memory 0x1000 []) content
    × Refuses (write target_memory 0 0x1000 5) content
out_of_range_refused_example =
    out_of_range_refused target_memory 0x1000 0 [] 5 content (omega arith) refl empty_out_of_range

write_runs : (write_bytes target_memory 0x1800 (1 ∷ 2 ∷ []) content).0 ≡ ok 2
unfolding write_bytes
write_runs = refl

read_runs :
    (read_bytes target_memory 0x1800 2 (write_bytes target_memory 0x1800 (1 ∷ 2 ∷ []) content).1).0
    ≡ ok (1 ∷ 2 ∷ [])
unfolding write_bytes read_bytes overlay window
read_runs = refl

read_bytes-write_bytes_example : ◌≡◌ {A = Bytes} (1 ∷ 2 ∷ []) (1 ∷ 2 ∷ [])
read_bytes-write_bytes_example =
    read_bytes-write_bytes target_memory is_memory 0x1800 (1 ∷ 2 ∷ []) (1 ∷ 2 ∷ []) content
      (omega arith) write_runs read_runs

write_value_runs : (write target_memory 4 0x1800 0xcafe content).0 ≡ ok 4
unfolding write
write_value_runs = refl

read_value_runs :
    (read target_memory 4 0x1800 (write target_memory 4 0x1800 0xcafe content).1).0 ≡ ok 0xcafe
unfolding write read overlay window
read_value_runs = refl

read-write_example : ◌≡◌ {A = ℕ} 0xcafe 0xcafe
read-write_example =
    read-write target_memory is_memory 4 0x1800 0xcafe 0xcafe content (omega arith) (omega arith)
      write_value_runs read_value_runs

compare_write_verify_exact_example :
    ((compare_write_verify target_memory ◌==◌ 4 0x1800 0xcafe 3 content).0 ≡ ok 0xcafe)
    ↔ (◌≡◌ {A = ℕ} 0xcafe 0xcafe × IsVerified target_memory ◌==◌ 4 0x1800 0xcafe content)
compare_write_verify_exact_example =
    compare_write_verify_exact target_memory ◌==◌ 4 0x1800 0xcafe 2 0xcafe content

compare_write_verify_memory_example :
    (compare_write_verify target_memory ◌==◌ 4 0x1800 0xcafe 3 content).0 ≡ ok 0xcafe
compare_write_verify_memory_example =
    compare_write_verify_memory target_memory ◌==◌ is_memory 4 0x1800 0xcafe 2 0xcafe content
      (omega arith) (omega arith) refl write_value_runs read_value_runs
