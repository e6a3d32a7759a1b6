-- ===== src/Loop/Serving/Events.antt =====
-- One event of a connection that is looked up in the poller: handleEvent with EPOLLIN.
use jinyi.Http.Analysis.{Site}
use jinyi.Http.Conn.{Conn, receives, epoll_in}
use jinyi.Http.Session.{input_event, read_handled, conn_handled}
use jinyi.Loop.Channel.{Channel, read_handler, conn_handler, handled, handle_event, tested_calls}
use jinyi.Loop.Poller.{Epoll}
use jinyi.Loop.Poller.Active.{reported, get_events_request_step}
use jinyi.Loop.Serving.{Ctl, event_handled, event_done, found_event, channel_event, polled_event}
use jinyi.Loop.Serving.Registered.{Listening, reported-Listening}
use jinyi.Prelude.Bits.{set_bit}
use jinyi.Prelude.{ℕ, ◌≡◌, ap, ◌∙◌, true, [], ◌∷◌, arith, Bytes}

-- For EPOLLIN alone handleEvent calls handleRead and then handleConn.
handle_event-input :
    (ch : Channel)
    → ch.revents ≡ set_bit epoll_in 0
    → ch.has_read_handler ≡ true
    → ch.has_conn_handler ≡ true
    → handle_event ch ≡ handled (read_handler ∷ conn_handler ∷ []) (record ch { events = 0 })
unfolding handle_event tested_calls
handle_event-input ch ev reads connects = ground (arith, ev, reads, connects)

event_handled-input :
    (fuel : ℕ) (site : Site) (c : Conn) (ch : Channel)
    → event_handled fuel site c
        (handled (read_handler ∷ conn_handler ∷ []) (record ch { events = 0 }))
      ≡ input_event fuel site c
unfolding event_handled input_event read_handled conn_handled
event_handled-input fuel site c ch = ground arith

-- With EPOLLIN reported, the event of a listening connection is input_event, and then its calls on the
-- poller.
pub channel_event-input :
    (ctl : Ctl) (fuel : ℕ) (site : Site) (ch fd : ℕ) (p : Epoll) (c : Conn)
    → Listening p ch fd
    → (p.channels ch).revents ≡ set_bit epoll_in 0
    → channel_event ctl fuel site ch p c ≡ event_done ctl ch p (input_event fuel site c)
unfolding channel_event
channel_event-input ctl fuel site ch fd p c l ev =
    ap (λ h. event_done ctl ch p (event_handled fuel site c h))
      (handle_event-input (p.channels ch) ev l.reads l.connects)
    ∙ ap (event_done ctl ch p) (event_handled-input fuel site c (p.channels ch))

pub polled_event-input :
    (ctl : Ctl) (fuel : ℕ) (site : Site) (ch fd : ℕ) (text : Bytes) (p : Epoll) (c : Conn)
    → Listening p ch fd
    → polled_event ctl fuel site fd text p c
      ≡ event_done ctl ch
          (reported p ch (set_bit epoll_in 0))
          (input_event fuel site (receives c text))
unfolding polled_event found_event
polled_event-input ctl fuel site ch fd text p c l =
    ap (found_event ctl fuel site (receives c text))
      (get_events_request_step p fd (set_bit epoll_in 0) ch [] l.placed)
    ∙ channel_event-input ctl fuel site ch fd (reported p ch (set_bit epoll_in 0)) (receives c text)
        (reported-Listening p ch fd (set_bit epoll_in 0) l) (ground arith)
