-- ===== src/Loop/Serving.antt =====
-- One connection and its loop's poller together (net/EventLoop.cpp, net/EventLoop.h, net/Channel.h,
-- net/HttpData.cpp): an event of its descriptor is looked up by getEventsRequest, handleEvent calls
-- the channel's handlers, and what they ask of the loop is done to the poller. The handlers run in
-- the loop's own thread, and nothing that the poller does is seen by them, so that their calls are
-- carried out behind them, in order. How epoll_ctl answers a change of a descriptor is a parameter.
pub mod Registered
pub mod Events
pub mod Sessions
pub mod Rounds
pub mod Opened
use jinyi.Http.Analysis.{Site}
use jinyi.Http.Conn.{
  Conn, receives, LoopCall, update_poller, add_to_poller, shutdown_write, close_later,
  remove_from_poller, handle_write, epoll_in,
}
use jinyi.Http.Handlers.{Outcome, done, out_of_fuel, undefined_behaviour, handle_read, handle_conn}
use jinyi.Http.Session.{conn_handled}
use jinyi.Loop.Channel.{
  HandlerCall, error_handler, read_handler, write_handler, conn_handler, Handled, handled,
  bad_function_call, handle_event,
}
use jinyi.Loop.Poller.{Epoll, set_events, epoll_add, epoll_mod, epoll_del, get_events_request}
use jinyi.Prelude.Bits.{set_bit}
use jinyi.Prelude.{ℕ, Bool, Option, none, some, List, [], ◌∷◌, Bytes}

-- The kernel's answer to epoll_ctl for a descriptor, given its list: whether the call succeeds.
abbrev pub Ctl : Type 0
Ctl = (ℕ → Option ℕ) → ℕ → Bool

-- A call on the loop of a connection whose channel is `ch`. The events that it waits for are those of
-- the channel. shutdown does nothing to the poller, and handleClose's own calls follow close_later.
unfoldable pub perform : Ctl → ℕ → Epoll → LoopCall → Epoll
unfolding set_events epoll_add epoll_mod epoll_del
perform ctl ch p (update_poller ev timeout) =
    let q = set_events p ch ev in epoll_mod (ctl q.interest (q.channels ch).fd) q ch
perform ctl ch p (add_to_poller ev timeout) =
    let q = set_events p ch ev in epoll_add (ctl q.interest (q.channels ch).fd) q ch
perform ctl ch p shutdown_write = p
perform ctl ch p close_later = p
perform ctl ch p remove_from_poller = epoll_del (ctl p.interest (p.channels ch).fd) p ch

abbrev pub perform_all : Ctl → ℕ → Epoll → List LoopCall → Epoll
perform_all ctl ch p [] = p
perform_all ctl ch p (call ∷ calls) = perform_all ctl ch (perform ctl ch p call) calls

-- The handlers that HttpData's constructor sets. It sets no error handler.
handler_run : ℕ → Site → HandlerCall → Conn → Outcome
unfolding conn_handled
handler_run fuel site error_handler c = done c
handler_run fuel site read_handler c = handle_read fuel site c
handler_run fuel site write_handler c = done (handle_write c)
handler_run fuel site conn_handler c = conn_handled (handle_conn fuel c)

handlers_run : ℕ → Site → List HandlerCall → Conn → Outcome
unfolding handler_run
handlers_run fuel site [] c = done c
handlers_run fuel site (h ∷ hs) c = elim (handler_run fuel site h c) [
  | done c' ↦ handlers_run fuel site hs c'
  | out_of_fuel ↦ out_of_fuel
  | undefined_behaviour ↦ undefined_behaviour
]

-- handleEvent of the connection's channel, whose `events_` the handlers see.
unfoldable pub event_handled : ℕ → Site → Conn → Handled → Outcome
unfolding handlers_run
event_handled fuel site c (handled hs ch) =
    handlers_run fuel site hs (record c { http = record c.http { events = ch.events } })
event_handled fuel site c (bad_function_call hs ch) = undefined_behaviour

-- The connection and the poller behind an event, or no more events: out of fuel, or an exception or
-- undefined behaviour in a handler.
pub data Turn : Type 0 where
  next : Conn → Epoll → Turn
  stopped : Turn

-- No call is left open.
unfoldable pub event_done : Ctl → ℕ → Epoll → Outcome → Turn
unfolding perform
event_done ctl ch p (done c) = next (record c { calls = [] }) (perform_all ctl ch p c.calls)
event_done ctl ch p out_of_fuel = stopped
event_done ctl ch p undefined_behaviour = stopped

-- The handlers of a channel that was found, on its connection.
unfoldable pub channel_event : Ctl → ℕ → Site → ℕ → Epoll → Conn → Turn
unfolding event_done event_handled handle_event
channel_event ctl fuel site ch p c =
    event_done ctl ch p (event_handled fuel site c (handle_event (p.channels ch)))

-- There is one connection, and a channel that is found is its channel.
unfoldable pub found_event : Ctl → ℕ → Site → Conn → List ℕ × Epoll → Turn
unfolding channel_event
found_event ctl fuel site c ([], p) = next c p
found_event ctl fuel site c (ch ∷ chs, p) = channel_event ctl fuel site ch p c

-- The text arrives, and the kernel reports EPOLLIN for the descriptor.
unfoldable pub polled_event : Ctl → ℕ → Site → ℕ → Bytes → Epoll → Conn → Turn
unfolding found_event get_events_request
polled_event ctl fuel site fd text p c =
    found_event ctl fuel site (receives c text)
      (get_events_request p ((fd, set_bit epoll_in 0) ∷ []))

-- Texts that arrive one after the other. The kernel reports a descriptor that is in its list.
unfoldable pub serve_polled : Ctl → ℕ → Site → ℕ → List Bytes → Epoll → Conn → Turn
unfolding polled_event
serve_polled ctl fuel site fd [] p c = next c p
serve_polled ctl fuel site fd (text ∷ texts) p c = elim (p.interest fd) [
  | none ↦ next c p
  | some e ↦ elim (polled_event ctl fuel site fd text p c) [
    | next c' p' ↦ serve_polled ctl fuel site fd texts p' c'
    | stopped ↦ stopped
  ]
]
