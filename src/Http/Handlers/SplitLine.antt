-- ===== src/Http/Handlers/SplitLine.antt =====
-- A request line that arrives in two parts: PARSE_URI_AGAIN falls through in handleRead, and the first
-- part is parsed as the name of a header field.
use jinyi.Http.Analysis.{Site}
use jinyi.Http.Conn.{receives, Conn, epoll_in}
use jinyi.Http.Handlers.Malformed.{text-cons}
use jinyi.Http.Handlers.Request.{IsIdle, receive_text}
use jinyi.Http.Handlers.{done, conclude_read, turn, handle_read}
use jinyi.Http.Headers.Scan.{IsKeyByte, at_key, scan_key, scan_first_start}
use jinyi.Http.Headers.{conclude, step_in, refused, scan, entry, returned, parse_headers}
use jinyi.Http.Phases.{proceed, receive, uri_phase, headers_phase, read_block}
use jinyi.Http.Reply.{handle_error, after_error, Returned, handle_error_lem}
use jinyi.Http.Types.{
  parse_header_again, parse_header_error, state_parse_headers, connected, h_start, h_key, HttpData,
}
use jinyi.Http.Uri.{parse_uri}
use jinyi.Prelude.Bits.{set_bit}
use jinyi.Prelude.{
  some, ℕ, suc, ◌≡◌, refl, ap, sym, ◌∙◌, true, false, [], ◌∷◌, ◌++◌, arith, Bytes, codes, All,
  All-append, Lacks, find_byte-Lacks, append_assoc, append-nil,
}
use jinyi.Util.{got, readn}

Lacks-key : (text : Bytes) → All IsKeyByte text → Lacks b'\r' text
Lacks-key [] k = tt
Lacks-key (c ∷ cs) (h, k) = (ground (arith, h), Lacks-key cs k)

-- The first part: the loop of parseHeaders ends in H_KEY.
parse_headers-part :
    (d : HttpData) (b : ℕ) (bs : Bytes)
    → d.in_buffer ≡ b ∷ bs
    → d.h_state ≡ h_start
    → All IsKeyByte (b ∷ bs)
    → parse_headers d ≡ returned parse_header_again (record d { h_state = h_key })
unfolding parse_headers scan
parse_headers-part d b bs e h k =
    let str = d.in_buffer in
    let named = at_key 0 0 (entry d) in
    ap (conclude d) (
      ap (λ s. scan str s 0 (entry d)) e
      ∙ scan_first_start str bs b 0 (entry d) h refl k.0.1
      ∙ ap (λ s. scan str s 1 named) (sym (append-nil bs))
      ∙ scan_key str bs [] 1 named refl refl k.1)

-- The line end behind the name of a header field.
scan_key_end :
    (str text rest : Bytes) (d : HttpData)
    → d.h_state ≡ h_key
    → All IsKeyByte text
    → scan str (text ++ b'\r' ∷ rest) 0 (entry d) ≡ refused (entry d)
unfolding scan step_in
scan_key_end str text rest d h k =
    scan_key str text (b'\r' ∷ rest) 0 (entry d) h refl k ∙ ground (arith, h)

parse_headers-refused :
    (d : HttpData) (text rest : Bytes)
    → d.in_buffer ≡ text ++ b'\r' ∷ rest
    → d.h_state ≡ h_key
    → All IsKeyByte text
    → parse_headers d ≡ returned parse_header_error d
unfolding parse_headers
parse_headers-refused d text rest e h k =
    ap (conclude d)
      (ap (λ s. scan d.in_buffer s 0 (entry d)) e ∙ scan_key_end d.in_buffer text rest d h k)

-- Behind the first part.
abbrev half_read : Conn → Bytes → Conn
half_read c text = record c {
  http = record c.http {
    in_buffer = text;
    state = state_parse_headers;
    h_state = h_key;
    events = set_bit epoll_in c.http.events;
  };
  socket = record c.socket { incoming = [] };
}

handle_read_half :
    (site : Site) (c : Conn) (b : ℕ) (bs : Bytes) (fuel : ℕ)
    → IsIdle c
    → All IsKeyByte (b ∷ bs)
    → c.socket.incoming ≡ got (b ∷ bs) ∷ []
    → handle_read (suc fuel) site c ≡ done (half_read c (b ∷ bs))
unfolding handle_read turn read_block conclude_read uri_phase headers_phase parse_uri
handle_read_half site c b bs fuel idle k arrives =
    let d = record c.http { in_buffer = b ∷ bs; state = state_parse_headers } in
    ground (
      arith,
      receive_text c (b ∷ bs) bs b refl arrives idle.is_open idle.read_all,
      find_byte-Lacks b'\r' (b ∷ bs) (Lacks-key (b ∷ bs) k),
      parse_headers-part d b bs refl idle.header_state k,
      idle.position,
      idle.state_is,
      idle.no_error,
      idle.written_all,
      idle.is_open,
    )

receive_more :
    (c : Conn) (text more : Bytes) (b : ℕ) (bs : Bytes)
    → more ≡ b ∷ bs
    → c.http.connection_state ≡ connected
    → receive (receives (half_read c text) more)
      ≡ proceed (record (half_read c text) {
        http = record (half_read c text).http { in_buffer = text ++ more };
      })
unfolding receive readn
receive_more c text more b bs m o = ground arith

-- The connection with the error page written to it.
abbrev refused_conn : Conn → Bytes → Conn
refused_conn c text = record (half_read c text) {
  http = record (half_read c text).http { error = true };
  socket = after_error 400 (codes "Bad Request") (record c.socket { incoming = [] });
}

handle_read_rest :
    (site : Site) (c : Conn) (text more rest : Bytes) (fuel : ℕ)
    → IsIdle c
    → All IsKeyByte text
    → All IsKeyByte more
    → handle_read (suc fuel) site (receives (half_read c text) (more ++ b'\r' ∷ rest))
      ≡ done (refused_conn c (text ++ (more ++ b'\r' ∷ rest)))
unfolding handle_read turn read_block conclude_read uri_phase headers_phase
handle_read_rest site c text more rest fuel idle k km =
    let (b, bs, m) = text-cons more rest in
    let all = text ++ (more ++ b'\r' ∷ rest) in
    let d = record (half_read c text).http { in_buffer = all } in
    ground (
      arith,
      receive_more c text (more ++ b'\r' ∷ rest) b bs m idle.is_open,
      parse_headers-refused d (text ++ more) rest (sym (append_assoc text more (b'\r' ∷ rest))) refl
          (All-append IsKeyByte text more km k),
    )

-- A request line without ':' that arrives in two parts is refused, well-formed or not: handleRead
-- takes the first part for the beginning of a header field, and when the rest of the line is there
-- the peer is sent a 400 page and the connection is in error.
pub handle_read_split :
    (site : Site) (c : Conn) (b : ℕ) (bs more rest : Bytes) (fuel : ℕ)
    → IsIdle c
    → All IsKeyByte (b ∷ bs)
    → All IsKeyByte more
    → c.socket.incoming ≡ got (b ∷ bs) ∷ []
    → (c₁ c₂ : Conn) × (handle_read (suc fuel) site c ≡ done c₁)
      × (handle_read (suc fuel) site (receives c₁ (more ++ b'\r' ∷ rest)) ≡ done c₂)
      × (c₁.http.error ≡ false)
      × (c₂.http.error ≡ true)
      × (handle_error 400 (codes "Bad Request") (record c.socket { incoming = [] })
          ≡ some c₂.socket)
handle_read_split site c b bs more rest fuel idle k km arrives = (
  half_read c (b ∷ bs),
  refused_conn c ((b ∷ bs) ++ (more ++ b'\r' ∷ rest)),
  handle_read_half site c b bs fuel idle k arrives,
  handle_read_rest site c (b ∷ bs) more rest fuel idle k km,
  idle.no_error,
  refl,
  page.returns ∙ ap some (sym page.taken),
)
  where
    page : Returned 400 (codes "Bad Request") (record c.socket { incoming = [] })
    page = (handle_error_lem 400 [] (record c.socket { incoming = [] })).1
