-- ===== src/Http/Session.antt =====
-- One connection over several events (net/Channel.h, net/HttpData.cpp, net/EventLoop.cpp): each time
-- EPOLLIN is reported, handleEvent clears events_ and calls handleRead and then handleConn, as the
-- constructor of HttpData set them. In the loop's own thread runInLoop calls handleClose at once; a
-- connection that was closed gets no events.
pub mod Behind
pub mod Answers
use jinyi.Http.Analysis.{Site}
use jinyi.Http.Conn.{Conn, receives, LoopCall, close_later, is_disconnected}
use jinyi.Http.Handlers.{
  Outcome, done, out_of_fuel, undefined_behaviour, handle_read, handle_conn, handle_close,
}
use jinyi.Prelude.{ℕ, Bool, true, false, List, [], ◌∷◌, Bytes, if◌then◌else◌}

abbrev pub asks_close : List LoopCall → Bool
asks_close [] = false
asks_close (close_later ∷ calls) = true
asks_close (call ∷ calls) = asks_close calls

-- The callback that handleConn handed to runInLoop.
abbrev pub close_asked : Conn → Conn
close_asked c = if asks_close c.calls then handle_close c else c

unfoldable pub conn_handled : Outcome → Outcome
conn_handled (done c) = done (close_asked c)
conn_handled out_of_fuel = out_of_fuel
conn_handled undefined_behaviour = undefined_behaviour

unfoldable pub read_handled : ℕ → Outcome → Outcome
unfolding conn_handled
read_handled fuel (done c) = conn_handled (handle_conn fuel c)
read_handled fuel out_of_fuel = out_of_fuel
read_handled fuel undefined_behaviour = undefined_behaviour

-- handleEvent for EPOLLIN.
unfoldable pub input_event : ℕ → Site → Conn → Outcome
unfolding read_handled
input_event fuel site c =
    read_handled fuel (handle_read fuel site (record c { http = record c.http { events = 0 } }))

-- The events of a connection, each with the text that has arrived.
unfoldable pub serve_events : ℕ → Site → List Bytes → Conn → Outcome
unfolding input_event
serve_events fuel site [] c = done c
serve_events fuel site (text ∷ texts) c =
    if is_disconnected c.http.connection_state
    then done c
    else elim (input_event fuel site (receives c text)) [
      | done c' ↦ serve_events fuel site texts c'
      | out_of_fuel ↦ out_of_fuel
      | undefined_behaviour ↦ undefined_behaviour
    ]
