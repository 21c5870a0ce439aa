-- ===== src/Session/Batch.antt =====
-- include/gtlibcpp/memory_session.hpp: `BatchResult`, `read_offsets` and `write_offsets`. The two
-- loops differ in the call that they make at each address.
pub mod Laws
use gtlibcpp.Common.{ℕ, ◌+◌, ◌%◌, Bool, true, false, List, [], ◌∷◌, ◌++◌, Option, some, none, Exec}
use gtlibcpp.Result.{Error, Result, ok, err}
use gtlibcpp.Types.{Address, u64_mod}
use gtlibcpp.Backend.{Backend}
use gtlibcpp.Session.{read_bytes, write}

pub record BatchResult : Type 0 where
  pub complete : Bool
  pub completed_addresses : List Address
  pub attempted_addresses : List Address
  pub failure : Option Error

abbrev pub ok_full : List Address → BatchResult
ok_full completed = record {
  complete = true;
  completed_addresses = completed;
  attempted_addresses = [];
  failure = none;
}

abbrev pub partial : List Address → List Address → Error → BatchResult
partial completed attempted e = record {
  complete = false;
  completed_addresses = completed;
  attempted_addresses = attempted;
  failure = some e;
}

module _ {S A : Type 0} (act : Address → Exec S (Result A)) (base : Address) where
  unfoldable pub visit : List Address → List Address → List Address → Exec S (Result BatchResult)
  visit completed attempted [] s = (ok (ok_full completed), s)
  visit completed attempted (offset ∷ offsets) s =
      let target = (base + offset) % u64_mod in
      let (reply, s') = act target s in
      elim reply [
        | err e ↦ (ok (partial completed (attempted ++ target ∷ []) e), s')
        | ok _ ↦ visit (completed ++ target ∷ []) (attempted ++ target ∷ []) offsets s'
      ]

module _ (B : Backend) where
  unfoldable pub read_offsets : Address → List Address → ℕ → Exec B.State (Result BatchResult)
  read_offsets base offsets size =
      visit (λ target. read_bytes B target size) base [] offsets offsets

  unfoldable pub write_offsets : ℕ → Address → List Address → ℕ → Exec B.State (Result BatchResult)
  write_offsets width base offsets value =
      visit (λ target. write B width target value) base [] offsets offsets
