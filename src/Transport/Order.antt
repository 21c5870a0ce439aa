-- ===== src/Transport/Order.antt =====
-- src/inproc_transport.cpp: the order of the messages.
use gtlibcpp.Common.{
  ◌≡◌, refl, sym, ap, ◌∙◌, Bool, true, false, not, List, [], ◌∷◌, ◌++◌, map, append_assoc,
  append-nil, Bytes,
}
use gtlibcpp.Result.{Result, ok}
use gtlibcpp.Transport.{InProcTransportPair, send, receive, incoming, popped, close}

-- One end sends these messages, one after the other.
abbrev pub send_all : Bool → List Bytes → InProcTransportPair → InProcTransportPair
send_all side [] p = p
send_all side (m ∷ ms) p = send_all side ms (send side m p).1

-- The replies to as many calls of `receive` as the list is long.
abbrev pub receive_all : Bool → List Bytes → InProcTransportPair → List (Result Bytes)
receive_all side [] p = []
receive_all side (m ∷ ms) p = (receive side p).0 ∷ receive_all side ms (receive side p).1

incoming-send :
    (side : Bool) (m : Bytes) (p : InProcTransportPair)
    → p.closed ≡ false
    → (incoming (not side) (send side m p).1 ≡ incoming (not side) p ++ m ∷ [])
      × ((send side m p).1.closed ≡ false)
unfolding send
incoming-send true m p h = (rw (h, send) refl, rw (h, send) refl)
incoming-send false m p h = (rw (h, send) refl, rw (h, send) refl)

incoming-send_all :
    (side : Bool) (ms : List Bytes) (p : InProcTransportPair)
    → p.closed ≡ false
    → incoming (not side) (send_all side ms p) ≡ incoming (not side) p ++ ms
incoming-send_all side [] p h = sym (append-nil (incoming (not side) p))
incoming-send_all side (m ∷ ms) p h =
    let (e, open') = incoming-send side m p h in
    incoming-send_all side ms (send side m p).1 open'
    ∙ ap (λ q. q ++ ms) e
    ∙ append_assoc (incoming (not side) p) (m ∷ []) ms

receive_all-incoming :
    (side : Bool) (ms : List Bytes) (p : InProcTransportPair)
    → incoming side p ≡ ms
    → receive_all side ms p ≡ map ok ms
unfolding receive
receive_all-incoming side [] p h = refl
receive_all-incoming true (m ∷ ms) p h =
    rw (h, receive) (ap (◌∷◌ (ok m)) (receive_all-incoming true ms (popped true ms p) refl))
receive_all-incoming false (m ∷ ms) p h =
    rw (h, receive) (ap (◌∷◌ (ok m)) (receive_all-incoming false ms (popped false ms p) refl))

-- Over an open pair with nothing under way to the other end: what one end sends, the other receives,
-- each message once and in order, even when the pair is closed in between.
pub receive_all-send_all :
    (side : Bool) (ms : List Bytes) (p : InProcTransportPair)
    → p.closed ≡ false
    → incoming (not side) p ≡ []
    → (receive_all (not side) ms (send_all side ms p) ≡ map ok ms)
      × (receive_all (not side) ms (close (send_all side ms p)) ≡ map ok ms)
receive_all-send_all side ms p h none_waits =
    let arrived = incoming-send_all side ms p h ∙ ap (λ q. q ++ ms) none_waits in
    (
      receive_all-incoming (not side) ms (send_all side ms p) arrived,
      receive_all-incoming (not side) ms (close (send_all side ms p)) arrived,
    )
