-- ===== src/Transport.antt =====
-- src/inproc_transport.cpp, include/gtlibcpp/inproc_transport.hpp: the two queues between a client
-- and a server of one process. Each call runs under the mutex; `receive` is taken at the moment in
-- which its wait of at most 50 ms ends. A transport without a pair is not modelled.
pub mod Order
use gtlibcpp.Common.{Bool, true, false, List, [], ◌∷◌, ◌++◌, if◌then◌else◌, Bytes, codes, Exec}
use gtlibcpp.Result.{not_connected, timeout, Error, Result, ok, err, make_error}

pub record InProcTransportPair : Type 0 where
  pub client_to_server : List Bytes
  pub server_to_client : List Bytes
  pub closed : Bool

abbrev pub closed_error : Bytes → Error
closed_error operation = make_error not_connected (codes "transport closed") operation 0 0

abbrev pub timeout_error : Error
timeout_error =
    make_error timeout (codes "no message available") (codes "InProcTransport::receive") 0 0

-- The end that is used is the client's or the server's.
unfoldable pub send : Bool → Bytes → Exec InProcTransportPair (Result Unit)
send client_side json p =
    if p.closed
    then (err (closed_error (codes "InProcTransport::send")), p)
    else if client_side
    then (ok tt, record p { client_to_server = p.client_to_server ++ json ∷ [] })
    else (ok tt, record p { server_to_client = p.server_to_client ++ json ∷ [] })

abbrev pub incoming : Bool → InProcTransportPair → List Bytes
incoming client_side p = if client_side then p.server_to_client else p.client_to_server

abbrev pub popped : Bool → List Bytes → InProcTransportPair → InProcTransportPair
popped true rest p = record p { server_to_client = rest }
popped false rest p = record p { client_to_server = rest }

abbrev pub taken : Bool → List Bytes → InProcTransportPair → Result Bytes × InProcTransportPair
taken client_side [] p =
    if p.closed
    then (err (closed_error (codes "InProcTransport::receive")), p)
    else (err timeout_error, p)
taken client_side (out ∷ rest) p = (ok out, popped client_side rest p)

unfoldable pub receive : Bool → Exec InProcTransportPair (Result Bytes)
receive client_side p = taken client_side (incoming client_side p) p

abbrev pub close : InProcTransportPair → InProcTransportPair
close p = record p { closed = true }
