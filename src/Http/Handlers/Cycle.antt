-- ===== src/Http/Handlers/Cycle.antt =====
-- handleEvent's two calls for a request that arrives whole, handleRead and then handleConn: whether
-- the connection waits for more or is closed.
use jinyi.Http.Analysis.Response.{analysis_request_keeps}
use jinyi.Http.Analysis.{Site, asks_keep_alive, default_keep_alive_time}
use jinyi.Http.Conn.{
  Conn, LoopCall, update_poller, shutdown_write, close_later, is_empty, epoll_in, epoll_out,
  epoll_et, default_expired_time,
}
use jinyi.Http.Handlers.Request.{IsIdle, Request, request_text, IsRequest, understood}
use jinyi.Http.Handlers.Served.{answer, renewed, handle_read-renewed}
use jinyi.Http.Handlers.{done, handle_read, handle_conn}
use jinyi.Http.Reset.{seperate_timer_unlinked}
use jinyi.Http.Types.{analysis_success, connected}
use jinyi.Prelude.Bits.{set_bit}
use jinyi.Prelude.{
  ℕ, suc, ◌≡◌, ◌∙◌, append_assoc, Bool, true, false, ◌||◌, some, List, [], ◌∷◌, ◌++◌, arith,
  if◌then◌else◌,
}
use jinyi.Util.{got, writen}

-- What is asked of the loop behind a request: to wait until the rest of the response can be written;
-- for the next request; or to close the connection.
abbrev pub next_calls : Bool → Bool → List LoopCall
next_calls false keep =
    update_poller (set_bit epoll_et (set_bit epoll_out 0))
      (if keep then default_keep_alive_time else default_expired_time)
    ∷ []
next_calls true true =
    update_poller (set_bit epoll_et (set_bit epoll_in 0)) default_keep_alive_time ∷ []
next_calls true false = shutdown_write ∷ close_later ∷ []

abbrev next_events : Bool → Bool → ℕ
next_events false keep = set_bit epoll_et (set_bit epoll_out 0)
next_events true true = set_bit epoll_et (set_bit epoll_in 0)
next_events true false = 0

abbrev pub asked : Conn → Bool → Bool → Conn
asked c written keep = record c {
  http = record c.http { events = next_events written keep };
  calls = c.calls ++ next_calls written keep;
}

pub handle_conn-next_calls :
    (c : Conn) (fuel : ℕ)
    → c.http.error ≡ false
    → c.http.connection_state ≡ connected
    → c.http.timer_linked ≡ false
    → c.http.events ≡ (if is_empty c.http.out_buffer then 0 else set_bit epoll_out 0)
    → handle_conn fuel c ≡ done (asked c (is_empty c.http.out_buffer) c.http.keep_alive)
unfolding handle_conn
handle_conn-next_calls c fuel ne o unlinked ev = ground (
  arith,
  seperate_timer_unlinked fuel c.http unlinked,
  append_assoc c.calls (shutdown_write ∷ []) (close_later ∷ []),
)

-- A request that arrives whole on an idle connection, with events_ at 0 as handleEvent sets it, is
-- read and answered, and then handleConn asks the loop for one thing: to wait for room for the rest
-- of the response if there is one; otherwise for the next request if this request or an earlier one
-- asked to keep the connection; otherwise to close it.
pub handle_conn-Served :
    (site : Site) (c : Conn) (q : Request) (fuel n : ℕ)
    → IsIdle c
    → IsRequest q
    → c.socket.incoming ≡ got (request_text q) ∷ []
    → (answer site c q).0 ≡ analysis_success
    → (writen (answer site c q).2 (answer site c q).1.out_buffer).0.written ≡ some n
    → c.http.events ≡ 0
    → (c' c'' : Conn) × (handle_read (suc fuel) site c ≡ done c')
      × (handle_conn fuel c' ≡ done c'')
      × (c''.calls
          ≡ c.calls
            ++ next_calls
                (is_empty c'.http.out_buffer)
                (asks_keep_alive (understood c.http q) || c.http.keep_alive))
handle_conn-Served site c q fuel n idle good e ok w ev =
    let kept =
      analysis_request_keeps site (understood c.http q) (record c.socket { incoming = [] }) in
    let (f, runs) = handle_read-renewed site c q fuel n idle good e ok w in
    let c' = renewed site c q f.e f.left f.s in
    (
      c',
      asked c' (is_empty c'.http.out_buffer) c'.http.keep_alive,
      runs,
      handle_conn-next_calls c' fuel (kept.0 ∙ idle.no_error) (kept.1 ∙ idle.is_open)
          (kept.3 ∙ idle.unlinked) (ground (arith, f.events, kept.4)),
      ground (arith, kept.5),
    )
