-- ===== src/Http/Handlers.antt =====
-- HttpData::handleRead, handleConn, newEvent and handleClose.
pub mod Request
pub mod Served
pub mod Progress
pub mod Returns
pub mod Malformed
pub mod Cycle
pub mod SplitLine
use jinyi.Http.Analysis.{Site, default_keep_alive_time}
use jinyi.Http.Conn.{
  epoll_in, epoll_out, epoll_et, default_event, default_expired_time, LoopCall, update_poller,
  add_to_poller, shutdown_write, close_later, remove_from_poller, Conn, is_disconnecting,
  is_disconnected, is_connected, is_empty, handle_write,
}
use jinyi.Http.Phases.{leave, proceed, broken, read_block}
use jinyi.Http.Reset.{reset, seperate_timer}
use jinyi.Http.Types.{
  ProcessState, state_parse_uri, state_parse_headers, state_recv_body, state_analysis, state_finish,
  UriState, parse_uri_again, parse_uri_error, parse_uri_success, HeaderState, parse_header_success,
  parse_header_again, parse_header_error, AnalysisState, analysis_success, analysis_error,
  ConnectionState, connected, disconnecting, disconnected, HttpData,
}
use jinyi.Prelude.Bits.{has, set_bit}
use jinyi.Prelude.{
  ℕ, zero, suc, Bool, true, false, not, ◌&&◌, ◌||◌, Option, none, some, List, [], ◌∷◌, ◌++◌, Bytes,
  codes, length, ltb, ◌==◌, if◌then◌else◌,
}

-- What stands behind the block ends the call, or calls handleRead again.
pub data Turn : Type 0 where
  stop : Conn → Turn
  again : Conn → Turn
  unfinished : Turn
  undefined_turn : Turn

abbrev pub is_finish : ProcessState → Bool
is_finish state_finish = true
is_finish _ = false

reset_done : Conn → Option HttpData → Turn
reset_done c none = unfinished
reset_done c (some d) =
    let c' = record c { http = d } in
    if not (is_empty d.in_buffer) && not (is_disconnecting d.connection_state)
    then again c'
    else stop c'

-- The second half of the code behind the block, after the writing.
write_tried : ℕ → Conn → Turn
unfolding reset_done
write_tried fuel c =
    if not c.http.error && is_finish c.http.state
    then reset_done c (reset fuel c.http)
    else if not c.http.error && not (is_disconnected c.http.connection_state)
    then stop (record c { http = record c.http { events = set_bit epoll_in c.http.events } })
    else stop c

unfoldable pub conclude_read : ℕ → Conn → Turn
unfolding write_tried
conclude_read fuel c =
    if not c.http.error
    then write_tried fuel (if is_empty c.http.out_buffer then c else handle_write c)
    else stop c

-- One call of handleRead up to its call of itself.
unfoldable pub turn : ℕ → Site → Conn → Turn
turn fuel site c = elim (read_block site c) [
  | leave c' ↦ conclude_read fuel c'
  | proceed c' ↦ conclude_read fuel c'
  | broken ↦ undefined_turn
]

pub data Outcome : Type 0 where
  done : Conn → Outcome
  out_of_fuel : Outcome
  undefined_behaviour : Outcome

unfoldable pub handle_read : ℕ → Site → Conn → Outcome
handle_read zero site c = out_of_fuel
handle_read (suc fuel) site c = elim (turn (suc fuel) site c) [
  | stop c' ↦ done c'
  | again c' ↦ handle_read fuel site c'
  | unfinished ↦ out_of_fuel
  | undefined_turn ↦ undefined_behaviour
]

-- Adds a call on the loop.
abbrev pub call : Conn → LoopCall → Conn
call c k = record c { calls = c.calls ++ k ∷ [] }

abbrev pub with_events : Conn → ℕ → Conn
with_events c e = record c { http = record c.http { events = e } }

-- handleConn behind seperateTimer. `EPOLLLET` in its second branch is read as EPOLLET.
conn_done : Conn → Conn
conn_done c =
    let e = c.http.events in
    if not c.http.error && is_connected c.http.connection_state
    then if not (e == 0)
      then (let timeout =
            if c.http.keep_alive then default_keep_alive_time else default_expired_time in
          let one = if has epoll_in e && has epoll_out e then set_bit epoll_out 0 else e in
          let e' = set_bit epoll_et one in call (with_events c e') (update_poller e' timeout))
      else if c.http.keep_alive
      then (let e' = set_bit epoll_et (set_bit epoll_in e) in
          call (with_events c e') (update_poller e' default_keep_alive_time))
      else call (call c shutdown_write) close_later
    else if not c.http.error && is_disconnecting c.http.connection_state && has epoll_out e
    then with_events c (set_bit epoll_et (set_bit epoll_out 0))
    else call c close_later

conn_separated : Conn → Option HttpData → Outcome
unfolding conn_done
conn_separated c none = out_of_fuel
conn_separated c (some d) = done (conn_done (record c { http = d }))

unfoldable pub handle_conn : ℕ → Conn → Outcome
unfolding conn_separated
handle_conn fuel c = conn_separated c (seperate_timer fuel c.http)

unfoldable pub new_event : Conn → Conn
new_event c = call (with_events c default_event) (add_to_poller default_event default_expired_time)

unfoldable pub handle_close : Conn → Conn
handle_close c =
    call (record c { http = record c.http { connection_state = disconnected } }) remove_from_poller
