-- ===== src/Http/Conn.antt =====
-- A connection as its handlers see it, the event bits, and HttpData::handleWrite.
use jinyi.Http.Types.{ConnectionState, connected, disconnecting, disconnected, HttpData}
use jinyi.Prelude.Bits.{set_bit}
use jinyi.Prelude.{
  ℕ, Bool, true, false, not, ◌&&◌, Option, none, some, List, [], ◌∷◌, Bytes, if◌then◌else◌,
}
use jinyi.Util.{got, Socket, WriteDone, writen}

-- The bits of epoll's event words that the code names.
abbrev pub epoll_in : ℕ
epoll_in = 0

abbrev pub epoll_out : ℕ
epoll_out = 2

abbrev pub epoll_oneshot : ℕ
epoll_oneshot = 30

abbrev pub epoll_et : ℕ
epoll_et = 31

abbrev pub default_expired_time : ℕ
default_expired_time = 2000

-- EPOLLIN | EPOLLET | EPOLLONESHOT
abbrev pub default_event : ℕ
default_event = set_bit epoll_oneshot (set_bit epoll_et (set_bit epoll_in 0))

-- What the handlers ask of the event loop, in order.
pub data LoopCall : Type 0 where
  update_poller add_to_poller : ℕ → ℕ → LoopCall
  shutdown_write close_later remove_from_poller : LoopCall

pub record Conn : Type 0 where
  pub http : HttpData
  pub socket : Socket
  pub calls : List LoopCall

-- The connection with a text that the kernel has for it.
abbrev pub receives : Conn → Bytes → Conn
receives c text = record c { socket = record c.socket { incoming = got text ∷ [] } }

abbrev pub is_disconnecting : ConnectionState → Bool
is_disconnecting disconnecting = true
is_disconnecting _ = false

abbrev pub is_disconnected : ConnectionState → Bool
is_disconnected disconnected = true
is_disconnected _ = false

abbrev pub is_connected : ConnectionState → Bool
is_connected connected = true
is_connected _ = false

abbrev pub is_empty : Bytes → Bool
is_empty [] = true
is_empty (c ∷ cs) = false

-- `events_ = 0; error_ = true` if `writen` gave -1.
write_checked : Option ℕ → HttpData → HttpData
write_checked none d = record d { events = 0; error = true }
write_checked (some n) d = d

-- What handleWrite does with the result of `writen`.
write_done : Conn → WriteDone × Bytes → Conn
unfolding write_checked
write_done c (w, left) =
    let after_write = record c.http { out_buffer = left } in
    let checked = write_checked w.written after_write in
    record c {
      http =
          if is_empty left
          then checked
          else record checked { events = set_bit epoll_out checked.events };
      socket = w.socket;
    }

unfoldable pub handle_write : Conn → Conn
unfolding write_done
handle_write c =
    if not c.http.error && not (is_disconnected c.http.connection_state)
    then write_done c (writen c.socket c.http.out_buffer)
    else c
