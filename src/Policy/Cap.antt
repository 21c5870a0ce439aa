-- ===== src/Policy/Cap.antt =====
-- include/gtlibcpp/policy.hpp: `enum class Capability`.
use gtlibcpp.Common.{ℕ}

-- A `Capability` is its bits; `as_bits` is the identity.
abbrev pub Capability : Type 0
Capability = ℕ

abbrev pub read : Capability
read = 1

abbrev pub write : Capability
write = 2

abbrev pub freeze : Capability
freeze = 4

abbrev pub unfreeze : Capability
unfreeze = 8

abbrev pub rollback : Capability
rollback = 16

abbrev pub parse : Capability
parse = 32
