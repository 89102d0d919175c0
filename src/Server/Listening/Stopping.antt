-- ===== src/Server/Listening/Stopping.antt =====
-- server.go: what Stop does to the goroutine of Serve.
use iip.Prelude.{◌≡◌, refl, true, false, List, [], ◌∷◌, some, if_false}
use iip.Server.Listening.{
  Listening, Arrival, listen_error, accept_conn, stop, close_sockets, crashed, returned,
  after_accept, serve_round,
}

stop-open :
    (m : Listening)
    → m.notify_closed ≡ false
    → stop m
      ≡ some (record m {
        notify_closed = true;
        listener_open = false;
        heap = close_sockets m.connections m.heap;
        connections = [];
      })
unfolding stop
stop-open m h = if_false m.notify_closed _ _ h

-- A server that serves is stopped: if its goroutine is between two rounds, it returns; if it waits in
-- Accept, which fails as the listener is closed, it calls Stop again, and the program panics.
pub stop_while_accepting :
    (m : Listening) (more : List Arrival)
    → m.notify_closed ≡ false
    → (m' : Listening) × (stop m ≡ some m')
      × (m'.connections ≡ [])
      × (serve_round m' more ≡ returned m')
      × (after_accept (accept_conn m' (listen_error ∷ more)) ≡ crashed)
unfolding serve_round after_accept accept_conn stop
stop_while_accepting m more h = (_, stop-open m h, refl, refl, refl)
