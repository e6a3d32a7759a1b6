-- ===== src/Loop/Serving/Opened.antt =====
-- A new connection (the constructor of HttpData in net/HttpData.cpp, and newEvent) and its entry in the
-- poller.
use jinyi.Http.Conn.{Conn, default_event}
use jinyi.Http.Handlers.{new_event}
use jinyi.Http.Handlers.Request.{IsIdle}
use jinyi.Http.Types.{new_http_data}
use jinyi.Loop.Channel.{Channel, new_channel, set_read_handle, set_write_handle, set_conn_handler}
use jinyi.Loop.Poller.{Epoll, at, set_events, epoll_add}
use jinyi.Loop.Poller.Coherent.{IsCoherent, epoll_add-IsCoherent, set_events-IsCoherent}
use jinyi.Loop.Serving.{Ctl, perform, perform_all}
use jinyi.Loop.Serving.Registered.{Listening, SameOthers}
use jinyi.Loop.Serving.Rounds.{Loop}
use jinyi.Loop.Serving.Sessions.{calm}
use jinyi.Prelude.{ℕ, ◌≡◌, refl, sym, true, false, none, some, [], ◌==◌, arith}
use jinyi.Util.{Socket}
use mathlib.Core.Path.{subst}

-- The channel that the constructor makes, with its three handlers.
abbrev pub http_channel : ℕ → ℕ → Channel
http_channel revents fd =
    set_conn_handler true (set_write_handle true (set_read_handle true (new_channel revents fd)))

abbrev pub new_conn : Socket → Conn
new_conn socket = record { http = new_http_data; socket = socket; calls = [] }

-- The constructor at a new address `ch` of a channel, and then newEvent with its call on the poller.
unfoldable pub open_connection : Ctl → ℕ → ℕ → ℕ → Socket → Loop → Loop
unfolding perform new_event
open_connection ctl revents ch fd socket s =
    let p = record s.poller { channels = at s.poller.channels ch (http_channel revents fd) } in
    let c = new_event (new_conn socket) in
    record { poller = perform_all ctl ch p c.calls; conns = at s.conns ch (calm c) }

-- No descriptor in the list is served by channel `ch`.
abbrev pub IsUnused : ℕ → Epoll → Type 0
IsUnused ch p = (j c e : ℕ) → p.interest j ≡ some e → p.fd2chan j ≡ some c → (c == ch) ≡ false

made-IsCoherent :
    (p : Epoll) (ch : ℕ) (made : Channel)
    → IsUnused ch p
    → IsCoherent p
    → IsCoherent (record p { channels = at p.channels ch made })
made-IsCoherent p ch made unused coherent j e h =
    let (c, placed, at_fd, last) = coherent j e h in
    let other = unused j c e h placed in
    (c, placed, ground (arith, other, at_fd), ground (arith, other, last))

opened-IsIdle : (socket : Socket) → IsIdle (calm (new_event (new_conn socket)))
unfolding new_event
opened-IsIdle socket = record {
  state_is = refl;
  header_state = refl;
  position = refl;
  no_error = refl;
  is_open = refl;
  read_all = refl;
  written_all = refl;
  no_headers = refl;
  unlinked = refl;
}

-- What a new connection comes to.
pub record Opened (ch fd : ℕ) (socket : Socket) (s s' : Loop) : Type 0 where
  pub listens : Listening s'.poller ch fd
  pub idle : IsIdle (s'.conns ch)
  pub none_open : (s'.conns ch).calls ≡ []
  pub socket_is : (s'.conns ch).socket ≡ socket
  pub entries : SameOthers fd s.poller s'.poller
  pub channels :
      (k : ℕ)
      → (k == ch) ≡ false
      → (s'.poller.channels k ≡ s.poller.channels k) × (s'.conns k ≡ s.conns k)

-- A connection that is opened at a descriptor that is not in the kernel's list, with a new channel, is
-- idle and listens, whatever `revents_` was left at, if epoll_ctl adds it. All other connections,
-- channels and entries are as they were, and table and list still agree.
pub open_connection-Opened :
    (ctl : Ctl) (revents ch fd : ℕ) (socket : Socket) (s : Loop)
    → s.poller.interest fd ≡ none
    → ctl s.poller.interest fd ≡ true
    → IsUnused ch s.poller
    → IsCoherent s.poller
    → Opened ch fd socket s (open_connection ctl revents ch fd socket s)
unfolding open_connection perform new_event set_events epoll_add
open_connection-Opened ctl revents ch fd socket s free added unused coherent =
    let made : Epoll = record s.poller {
      channels = at s.poller.channels ch (http_channel revents fd);
    } in
    let q = set_events made ch default_event in
    let coherent_q =
      set_events-IsCoherent made ch default_event
        (made-IsCoherent s.poller ch (http_channel revents fd) unused coherent) in
    let here : at s.conns ch (calm (new_event (new_conn socket))) ch
        ≡ calm (new_event (new_conn socket)) =
      ground arith in
    record {
      listens = record {
        word = default_event;
        listed = ground (arith, added);
        waits = refl;
        placed = ground (arith, added);
        at_fd = ground (arith, added);
        reads = ground (arith, added);
        connects = ground (arith, added);
        coherent =
            epoll_add-IsCoherent (ctl q.interest (q.channels ch).fd) q ch (ground (arith, free))
              coherent_q;
      };
      idle = subst IsIdle (sym here) (opened-IsIdle socket);
      none_open = ground arith;
      socket_is = ground arith;
      entries = λ j other. ground (arith, added, other);
      channels = λ k other. ground (arith, added, other);
    }
