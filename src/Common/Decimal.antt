-- ===== src/Common/Decimal.antt =====
-- `std::to_string` of an unsigned number.
use Prim.Native.Nat.{ℕ, zero, suc, ◌+◌, ◌/◌, ◌%◌}
use mathlib.Core.List.{[], ◌∷◌}
use package.gtlibcpp.Common.Tests.{ltb, if◌then◌else◌}
use package.gtlibcpp.Common.Lists.{Bytes}

-- Each round writes one digit; `n` has at most `n + 1` digits.
unfoldable pub digits_onto : ℕ → ℕ → Bytes → Bytes
digits_onto zero n acc = acc
digits_onto (suc fuel) n acc =
    let digit = b'0' + n % 10 in
    let rest = digits_onto fuel (n / 10) (digit ∷ acc) in if ltb n 10 then digit ∷ acc else rest

unfoldable pub to_string : ℕ → Bytes
unfolding digits_onto
to_string n = digits_onto (suc n) n []
