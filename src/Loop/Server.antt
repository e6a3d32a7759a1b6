-- ===== src/Loop/Server.antt =====
-- Server (net/Server.cpp): the loop that accepts connections. The answers of accept are given, one
-- for each round: `none` is -1. `acceptChannel_` is null until something is put there, which no code
-- does; a use of the null pointer, and a failed assertion of the pool, are `broken`.
pub mod Accept
use jinyi.Http.Conn.{epoll_in, epoll_et}
use jinyi.Loop.Channel.{Channel}
use jinyi.Loop.Pool.{EventLoopThreadPool, new_pool, start, get_next_loop}
use jinyi.Prelude.Bits.{set_bit}
use jinyi.Prelude.{
  ℕ, zero, suc, ◌+◌, Bool, true, false, Option, none, some, List, [], ◌∷◌, ◌++◌, leb, if◌then◌else◌,
}

abbrev pub maxfds : ℕ
maxfds = 10000

pub record Server : Type 0 where
  pub pool : EventLoopThreadPool
  pub started : Bool
  pub accept_channel : Option Channel
  pub listen_fd : ℕ
  -- the calls of close, setSocketNonBlocking and setSocketNodelay so far, and the loops chosen
  pub closed : List ℕ
  pub made_non_blocking : List ℕ
  pub made_no_delay : List (Option ℕ)
  pub chosen : List ℕ

pub data Outcome : Type 0 where
  finished : Server → Outcome
  still_running : Server → Outcome
  broken : Outcome

set_channel_events : ℕ → Server → Option Channel → Outcome
set_channel_events events s none = broken
set_channel_events events s (some c) =
    finished (record s { accept_channel = some (record c { events = events }) })

set_channel_fd : ℕ → Server → Option Channel → Outcome
set_channel_fd fd s none = broken
set_channel_fd fd s (some c) = finished (record s { accept_channel = some (record c { fd = fd }) })

-- The constructor, for a pool of `n` threads. That setSocketNonBlocking succeeds is not asked: setFd is
-- called before.
unfoldable pub new_server : ℕ → ℕ → ℕ → Outcome
unfolding set_channel_fd new_pool
new_server base n listen_fd = elim (new_pool base n) [
  | none ↦ broken
  | some pool ↦
      let s : Server = record {
        pool = pool;
        started = false;
        accept_channel = none;
        listen_fd = listen_fd;
        closed = [];
        made_non_blocking = [];
        made_no_delay = [];
        chosen = [];
      } in
      set_channel_fd listen_fd s s.accept_channel
]

-- `start`, whose addToPoller is that of the poller.
unfoldable pub start_server : (ℕ → ℕ) → Server → Outcome
unfolding set_channel_events
start_server start_loop s =
    let running = record s { pool = start start_loop s.pool; started = true } in
    set_channel_events (set_bit epoll_et (set_bit epoll_in 0)) running s.accept_channel

-- `accept_fd < 0` as an int: the descriptor that setSocketNonBlocking is given.
abbrev pub is_negative : Option ℕ → ℕ
is_negative none = 1
is_negative (some fd) = 0

abbrev pub is_too_big : Option ℕ → Bool
is_too_big none = false
is_too_big (some fd) = leb maxfds fd

abbrev pub fd_list : Option ℕ → List ℕ
fd_list none = []
fd_list (some fd) = fd ∷ []

-- The body of the loop, for the answer of accept.
unfoldable pub accept_round : Option ℕ → Server → Option Server
accept_round accept_fd s = elim (get_next_loop s.pool) [
  | none ↦ none
  | some (loop, pool) ↦
      let c = record s { pool = pool; chosen = s.chosen ++ loop ∷ [] } in
      if is_too_big accept_fd
      then some (record c { closed = s.closed ++ fd_list accept_fd })
      else some (record c {
        made_non_blocking = s.made_non_blocking ++ is_negative accept_fd ∷ [];
        made_no_delay = s.made_no_delay ++ accept_fd ∷ [];
      })
]

-- `(accept_fd = accept(…),&client_addr_len) > 0` compares the address of a local variable.
abbrev pub loop_condition : Option ℕ → Bool
loop_condition accept_fd = true

-- handNewConn for `fuel` rounds from round `i` on. Behind the loop stands
-- `setEvents(EPOLLIN || EPOLLET)`, where `||` makes 1.
unfoldable pub hand_new_conn : (ℕ → Option ℕ) → ℕ → ℕ → Server → Outcome
unfolding accept_round set_channel_events
hand_new_conn answers zero i s = still_running s
hand_new_conn answers (suc fuel) i s =
    if loop_condition (answers i)
    then elim (accept_round (answers i) s) [
      | none ↦ broken
      | some s' ↦ hand_new_conn answers fuel (i + 1) s'
    ]
    else set_channel_events 1 s s.accept_channel
