-- ===== src/Session/Batch/Laws.antt =====
-- What a batch reports of the calls that it made.
use gtlibcpp.Common.{
  ℕ, ◌+◌, ◌%◌, ◌≡◌, refl, sym, ap, ◌∙◌, ◌⊎◌, inl, inr, List, [], ◌∷◌, ◌++◌, map, append_assoc,
  append-nil, Exec,
}
use gtlibcpp.Result.{Error, Result, ok, err, Result-cases}
use gtlibcpp.Types.{Address, u64_mod}
use gtlibcpp.Backend.{Backend}
use gtlibcpp.Session.{read_bytes, write}
use gtlibcpp.Session.Batch.{BatchResult, ok_full, partial, visit, read_offsets, write_offsets}

module _ {S A : Type 0} (act : Address → Exec S (Result A)) where
  -- The calls at these addresses all succeed, one after the other.
  pub data Runs : List Address → S → S → Type 0 where
    none_left : {s : S} → Runs [] s s
    next :
        {t : Address} {ts : List Address} {s s' : S} {a : A}
        → (act t s).0 ≡ ok a
        → Runs ts (act t s).1 s'
        → Runs (t ∷ ts) s s'

  module _ (base : Address) where
    abbrev pub targets : List Address → List Address
    targets offsets = map (λ offset. (base + offset) % u64_mod) offsets

    -- The call at the target of `at` fails with `e` after those at `before` succeeded.
    pub record BreaksOff (offsets : List Address) (s : S) (b : BatchResult) (s' : S)
        (completed attempted : List Address) : Type 0 where
      pub before : List Address
      pub at : Address
      pub after : List Address
      pub middle : S
      pub error : Error
      pub splits : offsets ≡ before ++ at ∷ after
      pub runs : Runs (targets before) s middle
      pub fails : act ((base + at) % u64_mod) middle ≡ (err error, s')
      pub result :
          b ≡ partial (completed ++ targets before) (attempted ++ targets (before ++ at ∷ [])) error

    abbrev pub Reports : List Address → List Address → List Address → S → BatchResult → S → Type 0
    Reports completed attempted offsets s b s' =
        (Runs (targets offsets) s s' × (b ≡ ok_full (completed ++ targets offsets)))
        ⊎ BreaksOff offsets s b s' completed attempted

    Reports-next :
        (completed attempted : List Address) (o : Address) (os : List Address) (s : S) {a : A}
        {b : BatchResult} {s' : S}
        → (act ((base + o) % u64_mod) s).0 ≡ ok a
        → Reports
            (completed ++ targets (o ∷ []))
            (attempted ++ targets (o ∷ []))
            os
            (act ((base + o) % u64_mod) s).1
            b
            s'
        → Reports completed attempted (o ∷ os) s b s'
    Reports-next c t o os s e (inl (r, q)) =
        inl (next e r, q ∙ ap ok_full (append_assoc c (targets (o ∷ [])) (targets os)))
    Reports-next c t o os s e (inr k) = inr (record {
      before = o ∷ k.before;
      at = k.at;
      after = k.after;
      middle = k.middle;
      error = k.error;
      splits = ap (◌∷◌ o) k.splits;
      runs = next e k.runs;
      fails = k.fails;
      result =
          k.result
          ∙ ap
              (λ xs.
                partial xs ((t ++ targets (o ∷ [])) ++ targets (k.before ++ k.at ∷ [])) k.error)
              (append_assoc c (targets (o ∷ [])) (targets k.before))
          ∙ ap (λ xs. partial (c ++ targets (o ∷ k.before)) xs k.error)
              (append_assoc t (targets (o ∷ [])) (targets (k.before ++ k.at ∷ [])));
    })

    broken :
        (completed attempted : List Address) (o : Address) (os : List Address) (s : S) {x : Error}
        → (act ((base + o) % u64_mod) s).0 ≡ err x
        → BreaksOff
            (o ∷ os)
            s
            (partial completed (attempted ++ targets (o ∷ [])) x)
            (act ((base + o) % u64_mod) s).1
            completed
            attempted
    broken c t o os s {x} e = record {
      before = [];
      at = o;
      after = os;
      middle = s;
      error = x;
      splits = refl;
      runs = none_left;
      fails = ap (λ r. (r, (act ((base + o) % u64_mod) s).1)) e;
      result = ap (λ xs. partial xs (t ++ targets (o ∷ [])) x) (sym (append-nil c));
    }

    -- The loop always returns, and its report is one of the two.
    pub visit-Reports :
        (completed attempted offsets : List Address) (s : S)
        → (b : BatchResult) × ((visit act base completed attempted offsets s).0 ≡ ok b)
          × Reports completed attempted offsets s b (visit act base completed attempted offsets s).1
    unfolding visit
    visit-Reports c t [] s = (ok_full c, refl, inl (none_left, ap ok_full (sym (append-nil c))))
    visit-Reports c t (o ∷ os) s = elim (Result-cases (act ((base + o) % u64_mod) s).0) [
      | inl (a, e) ↦
          let (b, r, q) =
            visit-Reports (c ++ targets (o ∷ [])) (t ++ targets (o ∷ [])) os
              (act ((base + o) % u64_mod) s).1 in
          (b, rw (e, visit) r, rw (e, visit) (Reports-next c t o os s e q))
      | inr (x, e) ↦ (
        partial c (t ++ targets (o ∷ [])) x,
        rw (e, visit),
        rw (e, visit) (inr (broken c t o os s e)),
      )
    ]

-- A batch always returns a report. Either every call succeeded, in order, and the report lists all
-- targets; or the call at some target failed after the earlier ones succeeded, and the report lists
-- the earlier targets as completed, the error, and as attempted the list of offsets itself followed
-- by the targets up to the failed one. So for `read_offsets` and for `write_offsets`.
pub offsets_report :
    (B : Backend) (base : Address) (offsets : List Address) (size value : ℕ) (s : B.State)
    → ((b : BatchResult) × ((read_offsets B base offsets size s).0 ≡ ok b)
        × Reports
            (λ target. read_bytes B target size)
            base
            []
            offsets
            offsets
            s
            b
            (read_offsets B base offsets size s).1)
      × ((b : BatchResult) × ((write_offsets B size base offsets value s).0 ≡ ok b)
          × Reports
              (λ target. write B size target value)
              base
              []
              offsets
              offsets
              s
              b
              (write_offsets B size base offsets value s).1)
unfolding read_offsets write_offsets
offsets_report B base offsets size value s = (
  visit-Reports (λ target. read_bytes B target size) base [] offsets offsets s,
  visit-Reports (λ target. write B size target value) base [] offsets offsets s,
)
