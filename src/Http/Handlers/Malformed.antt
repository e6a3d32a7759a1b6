-- ===== src/Http/Handlers/Malformed.antt =====
-- A request line that names no method, on an idle connection: PARSE_URI_ERROR is tested twice in
-- handleRead, and the first test leaves the block with no reply.
use jinyi.Http.Analysis.{Site}
use jinyi.Http.Conn.{Conn, epoll_in}
use jinyi.Http.Handlers.Request.{IsIdle, receive_text}
use jinyi.Http.Handlers.{done, conclude_read, turn, handle_read}
use jinyi.Http.Phases.{leave, proceed, receive, uri_phase, read_block}
use jinyi.Http.Uri.{parse_method, parse_request_line}
use jinyi.Http.Uri.Line.{parse_uri-line}
use jinyi.Prelude.Bits.{set_bit}
use jinyi.Prelude.{ℕ, suc, ◌≡◌, refl, none, [], ◌∷◌, ◌++◌, arith, Bytes, Lacks}
use jinyi.Util.{got}

pub text-cons : (line rest : Bytes) → (b : ℕ) × (bs : Bytes) × (line ++ b'\r' ∷ rest ≡ b ∷ bs)
text-cons [] rest = (b'\r', rest, refl)
text-cons (b ∷ line) rest = (b, line ++ b'\r' ∷ rest, refl)

abbrev received : Conn → Bytes → Conn
received c text = record c {
  http = record c.http { in_buffer = text };
  socket = record c.socket { incoming = [] };
}

receive-received :
    (c : Conn) (line rest : Bytes)
    → IsIdle c
    → c.socket.incoming ≡ got (line ++ b'\r' ∷ rest) ∷ []
    → receive c ≡ proceed (received c (line ++ b'\r' ∷ rest))
receive-received c line rest idle arrives =
    let (b, bs, t) = text-cons line rest in
    receive_text c (line ++ b'\r' ∷ rest) bs b t arrives idle.is_open idle.read_all

uri_phase_nameless :
    (c : Conn) (line rest : Bytes)
    → IsIdle c
    → Lacks b'\r' line
    → parse_method line ≡ none
    → uri_phase (received c (line ++ b'\r' ∷ rest)) ≡ leave (received c rest)
unfolding uri_phase parse_request_line
uri_phase_nameless c line rest idle unbroken nameless = ground (
  arith,
  parse_uri-line (received c (line ++ b'\r' ∷ rest)).http line rest idle.position refl unbroken,
  idle.state_is,
)

-- A line with no method in it is dropped with no reply: handleRead returns, nothing is sent, no error
-- is noted, and the rest of the input waits for the next call as the start of a request.
pub handle_read_nameless :
    (site : Site) (c : Conn) (line rest : Bytes) (fuel : ℕ)
    → IsIdle c
    → Lacks b'\r' line
    → parse_method line ≡ none
    → c.socket.incoming ≡ got (line ++ b'\r' ∷ rest) ∷ []
    → handle_read (suc fuel) site c
      ≡ done (record c {
        http = record c.http { in_buffer = rest; events = set_bit epoll_in c.http.events };
        socket = record c.socket { incoming = [] };
      })
unfolding handle_read turn read_block conclude_read
handle_read_nameless site c line rest fuel idle unbroken nameless arrives = ground (
  arith,
  receive-received c line rest idle arrives,
  uri_phase_nameless c line rest idle unbroken nameless,
  idle.no_error,
  idle.written_all,
  idle.state_is,
  idle.is_open,
)
