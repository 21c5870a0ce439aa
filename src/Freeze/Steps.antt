-- ===== src/Freeze/Steps.antt =====
-- What may happen to a `FreezeManager`, one step after the other: calls of its methods, a worker
-- going on, and the target changing by itself. Calls that wait for a thread are cut at the wait.
use gtlibcpp.Common.{
  ◌≡◌, refl, sym, ap, ◌∙◌, ◌⊎◌, ◌==◌, ◌||◌, ltb, not, if◌then◌else◌, Bool, true, false, ◌∷◌, none,
  some, Bytes, inl, inr, Option-cases, is_empty,
}
use mathlib.Core.Path.{subst}
use gtlibcpp.Result.{Error, Result, ok, err, Result-cases}
use gtlibcpp.Backend.{Backend}
use gtlibcpp.Session.{read_bytes}
use gtlibcpp.Freeze.Data.{FreezeRequest, Phase, finished, joined, awaited, Entry, find_entry}
use gtlibcpp.Freeze.Entries.{Continues, Kept, find_entry-id, Kept-put}
use gtlibcpp.Freeze.{
  FreezeManager, freeze, freeze_sized, register, snapshot, sized, paced, started, change,
  worker_step, stop, unfreeze_end, restore_end, cancel_flags, at_phase, freeze_error,
}

-- The wait for a thread comes to an end.
abbrev pub has_ended : Phase → Bool
has_ended finished = true
has_ended joined = true
has_ended phase = false

pub either {ℓ κ} :
    {A : Type ℓ} (P : A → Type κ) (b : Bool) {x y : A} → P x → P y → P (if b then x else y)
either P true px py = px
either P false px py = py

module _ (B : Backend) where
  pub data Step : FreezeManager B → FreezeManager B → Type 0 where
    freezes : {m : FreezeManager B} (request : FreezeRequest) → Step m (freeze B request m).1
    works : {m : FreezeManager B} (id : Bytes) → Step m (worker_step B id m)
    stops :
        {m : FreezeManager B} (id : Bytes) {e : Entry}
        → find_entry id m.entries ≡ some e
        → Step m (stop B e m)
    unfreezes :
        {m : FreezeManager B} (id : Bytes) {e : Entry}
        → find_entry id m.entries ≡ some e
        → has_ended e.worker ≡ true
        → Step m (unfreeze_end B e m).1
    restores :
        {m : FreezeManager B} (id : Bytes) {e : Entry}
        → find_entry id m.entries ≡ some e
        → has_ended e.worker ≡ true
        → Step m (restore_end B e m).1
    cancels : {m : FreezeManager B} → Step m (cancel_flags B m)
    joins :
        {m : FreezeManager B} (id : Bytes) {e : Entry}
        → find_entry id m.entries ≡ some e
        → has_ended e.worker ≡ true
        → Step m (change B (at_phase (awaited e.worker) e) m)
    target_runs : {m : FreezeManager B} (t : B.State) → Step m (record m { target = t })

  pub data Reaches : FreezeManager B → FreezeManager B → Type 0 where
    here : {m : FreezeManager B} → Reaches m m
    then_step : {m n p : FreezeManager B} → Step m n → Reaches n p → Reaches m p

  pub change-Kept :
      (m : FreezeManager B) (id id' : Bytes) {e old new : Entry}
      → find_entry id m.entries ≡ some e
      → find_entry id' m.entries ≡ some old
      → Continues old new
      → Kept id e (change B new m).entries
  unfolding change
  change-Kept m id id' {e} {old} {new} h h' c =
      Kept-put id new.request.id m.entries h
        (ap (λ (r : FreezeRequest). find_entry r.id m.entries) c.same_request
          ∙ ap (λ i. find_entry i m.entries) (find_entry-id id' m.entries h')
          ∙ h')
        c

  -- A call of `freeze` with a completed request that succeeds: the id was new, and a new entry holds what a read showed.
  pub record Snapshots (request : FreezeRequest) (m m' : FreezeManager B) : Type 0 where
    pub bytes : Bytes
    pub fresh : find_entry request.id m.entries ≡ none
    pub reply : (read_bytes B request.address request.size m.target).0 ≡ ok bytes
    pub after : m' ≡ record m {
      entries = started request bytes ∷ m.entries;
      target = (read_bytes B request.address request.size m.target).1;
    }

  snapshot-Snapshots :
      (r : FreezeRequest) (m : FreezeManager B)
      → find_entry r.id m.entries ≡ none
      → (snapshot B r m).0 ≡ ok tt
      → Snapshots r m (snapshot B r m).1
  unfolding snapshot
  snapshot-Snapshots r m n h = elim (Result-cases (read_bytes B r.address r.size m.target).0) [
    | inl (bs, e) ↦ record { bytes = bs; fresh = n; reply = e; after = rw (e, snapshot) refl }
    | inr (x, e) ↦ absurd (cc (ap (λ z. z) e, h))
  ]

  pub register_new :
      (r : FreezeRequest) (m : FreezeManager B)
      → find_entry r.id m.entries ≡ none
      → register B r m ≡ snapshot B r m
  unfolding register
  register_new r m n = rw (n, register) refl

  pub register_old :
      (r : FreezeRequest) (m : FreezeManager B) {e : Entry}
      → find_entry r.id m.entries ≡ some e
      → register B r m ≡ (err (freeze_error r), m)
  unfolding register
  register_old r m n = rw (n, register) refl

  register-Snapshots :
      (r : FreezeRequest) (m : FreezeManager B)
      → (register B r m).0 ≡ ok tt
      → Snapshots r m (register B r m).1
  register-Snapshots r m h = elim (Option-cases (find_entry r.id m.entries)) [
    | inl n ↦
        subst (λ p. Snapshots r m p.1) (sym (register_new r m n))
          (snapshot-Snapshots r m n (sym (ap (λ p. p.0) (register_new r m n)) ∙ h))
    | inr (e, s) ↦ absurd (cc (ap (λ p. p.0) (register_old r m s), h))
  ]

  abbrev pub Comes : FreezeRequest → FreezeManager B → Result (Unit {0}) × FreezeManager B → Type 0
  Comes r m p = (p ≡ register B (paced r) m) ⊎ ((x : Error) × (p ≡ (err x, m)))

  freeze_sized-Comes : (r : FreezeRequest) (m : FreezeManager B) → Comes r m (freeze_sized B r m)
  unfolding freeze_sized
  freeze_sized-Comes r m =
      either (Comes r m) (r.size == 0 || ltb 8 r.size) (inr (_, refl))
        (either (Comes r m) (is_empty r.id) (inr (_, refl)) (inl refl))

  -- `freeze` is refused by its checks or goes on to look its id up.
  pub freeze-Comes : (r : FreezeRequest) (m : FreezeManager B) → Comes (sized r) m (freeze B r m)
  unfolding freeze
  freeze-Comes r m =
      either (Comes (sized r) m) (not m.has_session) (inr (_, refl)) (
        either (Comes (sized r) m) (r.address == 0) (inr (_, refl))
          (freeze_sized-Comes (sized r) m))

  pub freeze-Snapshots :
      (r : FreezeRequest) (m : FreezeManager B)
      → (freeze B r m).0 ≡ ok tt
      → Snapshots (paced (sized r)) m (freeze B r m).1
  freeze-Snapshots r m h = elim (freeze-Comes r m) [
    | inl c ↦
        subst (λ (p : Result (Unit {0}) × FreezeManager B). Snapshots (paced (sized r)) m p.1)
          (sym c)
          (register-Snapshots (paced (sized r)) m
            (sym (ap (λ (p : Result (Unit {0}) × FreezeManager B). p.0) c) ∙ h))
    | inr (x, c) ↦ absurd (cc (ap (λ (p : Result (Unit {0}) × FreezeManager B). p.0) c, h))
  ]
