-- ===== src/Freeze/Entries.antt =====
-- src/freeze.cpp: an entry after later calls, and the map of entries after a change.
use gtlibcpp.Common.{
  ◌≡◌, refl, sym, ap, ◌∙◌, true, false, List, [], ◌∷◌, map, none, some, arith, Bytes, equal,
  equal→eq, Bool-cases, inl, inr,
}
use mathlib.Core.Path.{subst}
use gtlibcpp.Freeze.Data.{joined, Entry, find_entry, put_entry}

-- A later state of an entry: the request and the snapshot are kept, and once the thread is joined
-- the counters stay too.
pub record Continues (e e' : Entry) : Type 0 where
  pub same_request : e'.request ≡ e.request
  pub same_original : e'.original_bytes ≡ e.original_bytes
  pub stays_joined : e.worker ≡ joined → e'.worker ≡ joined
  pub same_ok : e.worker ≡ joined → e'.ok_count ≡ e.ok_count
  pub same_fail : e.worker ≡ joined → e'.fail_count ≡ e.fail_count

pub Continues-refl : (e : Entry) → Continues e e
Continues-refl e = record {
  same_request = refl;
  same_original = refl;
  stays_joined = λ h. h;
  same_ok = λ h. refl;
  same_fail = λ h. refl;
}

pub Continues-trans : {e f g : Entry} → Continues e f → Continues f g → Continues e g
Continues-trans p q = record {
  same_request = q.same_request ∙ p.same_request;
  same_original = q.same_original ∙ p.same_original;
  stays_joined = λ h. q.stays_joined (p.stays_joined h);
  same_ok = λ h. q.same_ok (p.stays_joined h) ∙ p.same_ok h;
  same_fail = λ h. q.same_fail (p.stays_joined h) ∙ p.same_fail h;
}

-- The entry under `id` goes on as some entry that is found there.
abbrev pub Kept : Bytes → Entry → List Entry → Type 0
Kept id e es = (e' : Entry) × (find_entry id es ≡ some e') × Continues e e'

-- The round of `find_entry`.
pub find_here :
    (id : Bytes) (x : Entry) (es : List Entry)
    → equal x.request.id id ≡ true
    → find_entry id (x ∷ es) ≡ some x
unfolding find_entry
find_here id x es h = ground arith

find_there :
    (id : Bytes) (x : Entry) (es : List Entry)
    → equal x.request.id id ≡ false
    → find_entry id (x ∷ es) ≡ find_entry id es
unfolding find_entry
find_there id x es h = ground arith

-- The round of `put_entry`.
put_here :
    (id : Bytes) (new x : Entry) (es : List Entry)
    → equal x.request.id id ≡ true
    → put_entry id new (x ∷ es) ≡ new ∷ es
unfolding put_entry
put_here id new x es h = ground arith

put_there :
    (id : Bytes) (new x : Entry) (es : List Entry)
    → equal x.request.id id ≡ false
    → put_entry id new (x ∷ es) ≡ x ∷ put_entry id new es
unfolding put_entry
put_there id new x es h = ground arith

first_found :
    (id : Bytes) (x : Entry) (es : List Entry) {e : Entry}
    → equal x.request.id id ≡ true
    → find_entry id (x ∷ es) ≡ some e
    → x ≡ e
first_found id x es t h = cc (find_here id x es t, h)

pub find_entry-id :
    (id : Bytes) (es : List Entry) {e : Entry} → find_entry id es ≡ some e → e.request.id ≡ id
unfolding find_entry
find_entry-id id [] h = absurd (cc h)
find_entry-id id (x ∷ es) h = elim (Bool-cases (equal x.request.id id)) [
  | inl t ↦
      ap (λ (y : Entry). y.request.id) (sym (first_found id x es t h)) ∙ equal→eq x.request.id id t
  | inr f ↦ find_entry-id id es (sym (find_there id x es f) ∙ h)
]

-- A first entry that goes on is found where the old one was, and the others are not disturbed.
Kept-first :
    (id : Bytes) (x new : Entry) (es : List Entry) {e : Entry}
    → find_entry id (x ∷ es) ≡ some e
    → Continues x new
    → Kept id e (new ∷ es)
Kept-first id x new es {e} h c = elim (Bool-cases (equal x.request.id id)) [
  | inl t ↦ (
    new,
    find_here id new es (ap (λ r. equal r.id id) c.same_request ∙ t),
    subst (λ y. Continues y new) (first_found id x es t h) c,
  )
  | inr f ↦ (
    e,
    find_there id new es (ap (λ r. equal r.id id) c.same_request ∙ f)
        ∙ sym (find_there id x es f)
        ∙ h,
    Continues-refl e,
  )
]

Kept-rest :
    (id : Bytes) (x : Entry) (es fs : List Entry) {e : Entry}
    → find_entry id (x ∷ es) ≡ some e
    → (find_entry id es ≡ some e → Kept id e fs)
    → Kept id e (x ∷ fs)
Kept-rest id x es fs {e} h k = elim (Bool-cases (equal x.request.id id)) [
  | inl t ↦ (e, find_here id x fs t ∙ ap some (first_found id x es t h), Continues-refl e)
  | inr f ↦
      let (e', found, c) = k (sym (find_there id x es f) ∙ h) in
      (e', find_there id x fs f ∙ found, c)
]

pub Kept-put :
    (id id' : Bytes) (es : List Entry) {e old new : Entry}
    → find_entry id es ≡ some e
    → find_entry id' es ≡ some old
    → Continues old new
    → Kept id e (put_entry id' new es)
unfolding find_entry
Kept-put id id' [] h h' c = absurd (cc h)
Kept-put id id' (x ∷ es) {e} {old} {new} h h' c = elim (Bool-cases (equal x.request.id id')) [
  | inl t ↦
      subst (Kept id e) (sym (put_here id' new x es t)) (
        Kept-first id x new es h (subst (λ y. Continues y new) (sym (first_found id' x es t h')) c))
  | inr f ↦ subst (Kept id e) (sym (put_there id' new x es f)) (
      Kept-rest id x es (put_entry id' new es) h
        (λ k. Kept-put id id' es k (sym (find_there id' x es f) ∙ h') c))
]

-- Every entry changed.
pub Kept-map :
    (id : Bytes) (f : Entry → Entry) (es : List Entry) {e : Entry}
    → ((x : Entry) → Continues x (f x))
    → find_entry id es ≡ some e
    → Kept id e (map f es)
unfolding find_entry
Kept-map id f [] c h = absurd (cc h)
Kept-map id f (x ∷ es) {e} c h = elim (Bool-cases (equal x.request.id id)) [
  | inl t ↦ (
    f x,
    find_here id (f x) (map f es) (ap (λ r. equal r.id id) (c x).same_request ∙ t),
    subst (λ y. Continues y (f x)) (first_found id x es t h) (c x),
  )
  | inr n ↦
      let (e', found, k) = Kept-map id f es c (sym (find_there id x es n) ∙ h) in
      (
        e',
        find_there id (f x) (map f es) (ap (λ r. equal r.id id) (c x).same_request ∙ n) ∙ found,
        k,
      )
]

-- The entry put under its id is the one found there.
pub find_entry-put_entry :
    (id : Bytes) (es : List Entry) {old new : Entry}
    → find_entry id es ≡ some old
    → new.request ≡ old.request
    → find_entry id (put_entry id new es) ≡ some new
unfolding find_entry
find_entry-put_entry id [] h r = absurd (cc h)
find_entry-put_entry id (x ∷ es) {old} {new} h r = elim (Bool-cases (equal x.request.id id)) [
  | inl t ↦
      ap (find_entry id) (put_here id new x es t)
      ∙ find_here id new es
          (ap (λ q. equal q.id id) (r ∙ ap (λ y. y.request) (sym (first_found id x es t h))) ∙ t)
  | inr f ↦
      ap (find_entry id) (put_there id new x es f)
      ∙ find_there id x (put_entry id new es) f
      ∙ find_entry-put_entry id es (sym (find_there id x es f) ∙ h) r
]

-- An entry with a new id in front.
pub Kept-new :
    (id : Bytes) (new : Entry) (es : List Entry) {e : Entry}
    → find_entry new.request.id es ≡ none
    → find_entry id es ≡ some e
    → Kept id e (new ∷ es)
Kept-new id new es {e} n h = elim (Bool-cases (equal new.request.id id)) [
  | inl t ↦ absurd (cc (ap (λ i. find_entry i es) (equal→eq new.request.id id t), n, h))
  | inr f ↦ (e, find_there id new es f ∙ h, Continues-refl e)
]
