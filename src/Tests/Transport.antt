-- ===== src/Tests/Transport.antt =====
-- Two messages from the client to the server.
use gtlibcpp.Common.{◌≡◌, refl, true, false, [], ◌∷◌, codes}
use gtlibcpp.Result.{ok}
use gtlibcpp.Transport.{InProcTransportPair, close}
use gtlibcpp.Transport.Order.{send_all, receive_all, receive_all-send_all}

abbrev new_pair : InProcTransportPair
new_pair = record { client_to_server = []; server_to_client = []; closed = false }

receive_all-send_all_example :
    (receive_all false
        (codes "a" ∷ codes "b" ∷ [])
        (send_all true (codes "a" ∷ codes "b" ∷ []) new_pair)
      ≡ ok (codes "a") ∷ ok (codes "b") ∷ [])
    × (receive_all false
          (codes "a" ∷ codes "b" ∷ [])
          (close (send_all true (codes "a" ∷ codes "b" ∷ []) new_pair))
        ≡ ok (codes "a") ∷ ok (codes "b") ∷ [])
receive_all-send_all_example =
    receive_all-send_all true (codes "a" ∷ codes "b" ∷ []) new_pair refl refl
