-- ===== src/Http/Uri/Line.antt =====
-- parseURI cuts the first line off the buffer (net/HttpData.cpp).
use mathlib.Core.Path.{ap₂}
use jinyi.Http.Types.{HttpData}
use jinyi.Http.Uri.{parse_request_line, parse_uri, cut_behind}
use jinyi.Prelude.{
  ◌≡◌, some, [], ◌∷◌, ◌++◌, arith, Bytes, length, find_byte, Lacks, length-append, find_byte-zero,
  take-append, drop-append-add,
}

cut_behind-line : (text rest : Bytes) → cut_behind (length text) (text ++ b'\r' ∷ rest) ≡ rest
cut_behind-line text [] = ground (arith, length-append text (b'\r' ∷ []))
cut_behind-line text (c ∷ rest) =
    ground (arith, length-append text (b'\r' ∷ c ∷ rest), drop-append-add text (b'\r' ∷ c ∷ rest) 1)

-- The first line is cut off the buffer, its '\r' with it, and handed on.
pub parse_uri-line :
    (d : HttpData) (text rest : Bytes)
    → d.now_read_pos ≡ 0
    → d.in_buffer ≡ text ++ b'\r' ∷ rest
    → Lacks b'\r' text
    → parse_uri d ≡ parse_request_line (record d { in_buffer = rest }) text
unfolding parse_uri
parse_uri-line d text rest start e h =
    rw (found, parse_uri)
      (ap₂ (λ b t. parse_request_line (record d { in_buffer = b }) t)
        (rw e (cut_behind-line text rest)) (rw e (take-append text (b'\r' ∷ rest))))
  where
    found : find_byte b'\r' d.now_read_pos d.in_buffer ≡ some (length text)
    found = rw (start, e) (find_byte-zero b'\r' text rest h)
