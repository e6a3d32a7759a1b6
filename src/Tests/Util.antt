-- ===== src/Tests/Util.antt =====
-- net/Util.cpp on concrete sockets.
use jinyi.Prelude.Int.{ℤ, pos, negsuc}
use jinyi.Prelude.{ℕ, ◌≡◌, refl, true, false, some, none, [], ◌∷◌, ◌++◌, List, codes, take, drop}
use jinyi.Util.Listen.{
  Answers, Call, set_reuse_addr, bind, listen, close, socket_bind_listen, set_socket_non_blocking,
}
use jinyi.Util.Transfer.{Received, readn-Received, writen_lem}
use jinyi.Util.{
  Socket, got, read_interrupted, read_would_block, room, write_interrupted, write_would_block,
  readn, writen,
}

abbrev busy : Socket
busy = record {
  incoming =
      read_interrupted
      ∷ got (codes "ab")
      ∷ got (codes "c")
      ∷ read_would_block
      ∷ got (codes "d")
      ∷ [];
  outgoing = room 2 ∷ write_interrupted ∷ room 1 ∷ write_would_block ∷ [];
  sent = codes "x";
}

readn_runs : readn busy (codes "z") ≡ record {
  count = some 3;
  buffer = codes "zabc";
  zero_read = false;
  unread = got (codes "d") ∷ [];
}
unfolding readn
readn_runs = refl

writen_runs : (writen busy (codes "hello")).1 ≡ codes "lo"
unfolding writen
writen_runs = refl

readn-Received_example : Received (codes "z") 0 busy.incoming (readn busy (codes "z"))
readn-Received_example = readn-Received busy (codes "z")

writen_lem_example :
    ((n : ℕ)
      → (writen busy (codes "hello")).0.written ≡ some n
      → ((writen busy (codes "hello")).0.socket.sent ≡ codes "x" ++ take n (codes "hello"))
        × ((writen busy (codes "hello")).1 ≡ drop n (codes "hello")))
    × ((writen busy (codes "hello")).0.written ≡ none
        → (writen busy (codes "hello")).1 ≡ codes "hello")
writen_lem_example = writen_lem busy (codes "hello")

abbrev all_well : Answers
all_well = record { socket = some 3; option_set = true; bound = true; listening = true }

abbrev opened : ℤ × List Call
opened = (pos 3, set_reuse_addr 3 ∷ bind 3 8080 ∷ listen 3 2048 ∷ [])

socket_bind_listen_runs : socket_bind_listen all_well (pos 8080) ≡ opened
unfolding socket_bind_listen
socket_bind_listen_runs = refl

-- bind() fails: the socket is closed again.
bind_fails :
    socket_bind_listen (record all_well { bound = false }) (pos 80)
    ≡ (negsuc 0, set_reuse_addr 3 ∷ bind 3 80 ∷ close (pos 3) ∷ [])
unfolding socket_bind_listen
bind_fails = refl

set_socket_non_blocking_runs :
    set_socket_non_blocking (record { flags = some 2; set_ok = true }) ≡ (pos 0, some 2050)
unfolding set_socket_non_blocking
set_socket_non_blocking_runs = refl
