-- ===== src/Loop/Channel.antt =====
-- Channel (net/Channel.h): which handlers an event calls. An empty std::function that is called throws
-- bad_function_call. A handler may change the channel's events; `revents_` is set by the poller only.
use jinyi.Http.Conn.{epoll_in, epoll_out}
use jinyi.Prelude.Bits.{has}
use jinyi.Prelude.{
  ℕ, ◌≡◌, Bool, true, false, not, ◌&&◌, ◌||◌, List, [], ◌∷◌, ◌++◌, arith, if◌then◌else◌,
}

pub record Channel : Type 0 where
  pub fd : ℕ
  pub events : ℕ
  pub revents : ℕ
  pub last_events : ℕ
  pub has_read_handler : Bool
  pub has_write_handler : Bool
  pub has_error_handler : Bool
  pub has_conn_handler : Bool

-- The constructor, which leaves `revents_` as it is, and no handler is set.
abbrev pub new_channel : ℕ → ℕ → Channel
new_channel revents fd = record {
  fd = fd;
  events = 0;
  revents = revents;
  last_events = 0;
  has_read_handler = false;
  has_write_handler = false;
  has_error_handler = false;
  has_conn_handler = false;
}

-- The setters, each given whether the function is not empty.
abbrev pub set_read_handle : Bool → Channel → Channel
set_read_handle given c = record c { has_read_handler = given }

abbrev pub set_write_handle : Bool → Channel → Channel
set_write_handle given c = record c { has_write_handler = given }

abbrev pub set_conn_handler : Bool → Channel → Channel
set_conn_handler given c = record c { has_conn_handler = given }

abbrev pub set_revents : ℕ → Channel → Channel
set_revents ev c = record c { revents = ev }

pub data HandlerCall : Type 0 where
  error_handler : HandlerCall
  read_handler : HandlerCall
  write_handler : HandlerCall
  conn_handler : HandlerCall

-- The handlers called, in order, with the channel; and whether the call ends by an exception.
pub data Handled : Type 0 where
  handled : List HandlerCall → Channel → Handled
  bad_function_call : List HandlerCall → Channel → Handled

abbrev when : Bool → HandlerCall → List HandlerCall
when true h = h ∷ []
when false h = []

-- Bits of the event word.
abbrev pub epoll_pri : ℕ
epoll_pri = 1

abbrev pub epoll_err : ℕ
epoll_err = 3

abbrev pub epoll_hup : ℕ
epoll_hup = 4

abbrev pub epoll_rdhup : ℕ
epoll_rdhup = 13

abbrev pub is_hang_up : ℕ → Bool
is_hang_up r = has epoll_hup r && not (has epoll_in r)

abbrev pub is_readable : ℕ → Bool
is_readable r = has epoll_in r || has epoll_pri r || has epoll_rdhup r

-- The three handlers that are tested before they are called.
unfoldable pub tested_calls : Channel → List HandlerCall
tested_calls c =
    when (has epoll_err c.revents && c.has_error_handler) error_handler
    ++ (when (is_readable c.revents && c.has_read_handler) read_handler
        ++ when (has epoll_out c.revents && c.has_write_handler) write_handler)

unfoldable pub handle_event : Channel → Handled
unfolding tested_calls
handle_event c =
    let quiet = record c { events = 0 } in
    if is_hang_up c.revents
    then handled [] quiet
    else if c.has_conn_handler
    then handled (tested_calls c ++ conn_handler ∷ []) quiet
    else bad_function_call (tested_calls c) quiet

-- The channel of an event loop's eventfd, as EventLoop's constructor and handleRead set it up: it has
-- a read handler and no other.
abbrev pub wakeup_channel : ℕ → ℕ → ℕ → Channel
wakeup_channel fd revents events = record (set_read_handle true (new_channel revents fd)) {
  events = events;
}

-- Whatever else is reported with EPOLLIN, handleEvent of a loop's own channel calls handleRead and
-- then throws, since connHandler_ is called without a test.
handle_event-wakeup_channel :
    (fd revents events : ℕ)
    → has epoll_in revents ≡ true
    → handle_event (wakeup_channel fd revents events)
      ≡ bad_function_call (read_handler ∷ []) (wakeup_channel fd revents 0)
unfolding handle_event
handle_event-wakeup_channel fd revents events h = ground arith
