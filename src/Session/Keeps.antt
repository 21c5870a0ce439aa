-- ===== src/Session/Keeps.antt =====
-- include/gtlibcpp/memory_session.hpp: the content of plain memory after the reading operations.
use gtlibcpp.Common.{
  ℕ, ◌+◌, ◌%◌, ◌==◌, ◌≡◌, refl, ◌∙◌, arith, true, false, List, [], ◌∷◌, Bytes, codes,
}
use gtlibcpp.Result.{Result, ok, err}
use gtlibcpp.Types.{Address, u64_mod}
use gtlibcpp.Backend.{Backend, validate_read_request}
use gtlibcpp.Backend.Memory.{IsMemory}
use gtlibcpp.Session.{
  read_checked, read_bytes, read, walk, resolve_pointer_chain, step_failed, step_null,
}

module _ (B : Backend) (M : IsMemory B) where
  read_checked_keeps :
      (operation : Bytes) (reported address size : ℕ) (v : Result ℕ) (s : B.State) (x : ℕ)
      → M.peek (read_checked B operation reported address size v s).1 x ≡ M.peek s x
  unfolding read_checked
  read_checked_keeps operation reported address size (err e) s x = refl
  read_checked_keeps operation reported address size (ok _) s x = M.read_keeps address size s x

  pub read_bytes_keeps :
      (address size : ℕ) (s : B.State) (x : ℕ)
      → M.peek (read_bytes B address size s).1 x ≡ M.peek s x
  unfolding read_bytes
  read_bytes_keeps address size =
      read_checked_keeps (codes "MemorySession::read_bytes") size address size
        (validate_read_request address size)

  pub read_keeps :
      (width address : ℕ) (s : B.State) (x : ℕ) → M.peek (read B width address s).1 x ≡ M.peek s x
  unfolding read
  read_keeps width address =
      read_checked_keeps (codes "MemorySession::read") 0 address width
        (validate_read_request address width)

  walk_keeps :
      (w step current : ℕ) (offsets : List Address) (s : B.State) (x : ℕ)
      → M.peek (walk B w step current offsets s).1 x ≡ M.peek s x
  unfolding walk
  walk_keeps w step current [] s x = refl
  walk_keeps w step current (offset ∷ offsets) s x =
      let target = (current + offset) % u64_mod in
      after (λ next. walk_keeps w (step + 1) next offsets) (read B w target s).0
        (read B w target s).1
      ∙ read_keeps w target s x
    where
      after :
          ((next : Address) (t : B.State) (y : ℕ)
            → M.peek (walk B w (step + 1) next offsets t).1 y ≡ M.peek t y)
          → (reply : Result ℕ) (s' : B.State)
          → M.peek
              (elim reply as (λ _. Result Address × B.State) [
                | err e ↦ (err (step_failed w step ((current + offset) % u64_mod) e), s')
                | ok next ↦ elim (next == 0) as (λ _. Result Address × B.State) [
                  | true ↦ (err (step_null w step ((current + offset) % u64_mod)), s')
                  | false ↦ walk B w (step + 1) next offsets s'
                ]
              ]).1
              x
            ≡ M.peek s' x
      after more (err e) s' = refl
      after more (ok next) s' = ground (arith, more next s' x)

  pub resolve_keeps :
      (w : ℕ) (base : Address) (offsets : List Address) (s : B.State) (x : ℕ)
      → M.peek (resolve_pointer_chain B w base offsets s).1 x ≡ M.peek s x
  unfolding resolve_pointer_chain
  resolve_keeps w base [] s x = refl
  resolve_keeps w base (offset ∷ offsets) s x = walk_keeps w 0 base (offset ∷ offsets) s x
