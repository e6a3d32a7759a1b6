-- ===== src/Http/Headers/Split.antt =====
-- What parseHeaders does with a field that arrives in two parts: the state `h_key` outlives the
-- call, the start of the name does not.
use jinyi.Http.Types.{parse_header_again, h_start, h_key, h_value, HttpData}
use jinyi.Http.Headers.{
  Cursor, step_in, rules_broken, scan, entry, returned, undefined, conclude, parse_headers,
}
use jinyi.Http.Headers.Scan.{
  IsKeyByte, IsKey, IsValue, field_text, scan_key, scan_value, scan_first_start, scan_newline,
  at_key,
}
use jinyi.Prelude.{
  ℕ, ◌+◌, ◌<◌, ◌≡◌, refl, ap, ◌∙◌, true, none, some, [], ◌∷◌, ◌++◌, arith, Bytes, length, drop, All,
  append-nil, append_assoc, All-append, sym,
}

scan_colon_unplaced :
    (str rest : Bytes) (c b : ℕ) (cur : Cursor)
    → cur.h_state ≡ h_key
    → cur.not_finish ≡ true
    → cur.key_start ≡ none
    → scan str (b':' ∷ b' ' ∷ c ∷ rest) b cur
      ≡ scan str rest
          (b + 3)
          (record cur { h_state = h_value; key_end = some b; value_start = some (b + 2) })
unfolding scan step_in
scan_colon_unplaced str rest c b cur h n s = ground arith

scan_line_end_unplaced :
    (str rest : Bytes) (w u : ℕ) (cur : Cursor)
    → cur.h_state ≡ h_value
    → cur.not_finish ≡ true
    → cur.key_start ≡ none
    → cur.value_start ≡ some u
    → u < w
    → scan str (b'\r' ∷ b'\n' ∷ rest) w cur ≡ rules_broken
unfolding scan step_in
scan_line_end_unplaced str rest w u cur h n p r lt = ground arith

scan_unplaced :
    (str cs v rest : Bytes) (cur : Cursor)
    → cur.h_state ≡ h_key
    → cur.not_finish ≡ true
    → cur.key_start ≡ none
    → All IsKeyByte cs
    → IsValue v
    → scan str (field_text cs v rest) 0 cur ≡ rules_broken
scan_unplaced str cs [] rest cur h n s k val = absurd val
scan_unplaced str cs (c ∷ v) rest cur h n s k val =
    let b = 0 + length cs in
    let inside = record cur { h_state = h_value; key_end = some b; value_start = some (b + 2) } in
    scan_key str cs _ 0 cur h n k
    ∙ scan_colon_unplaced str (v ++ (b'\r' ∷ b'\n' ∷ rest)) c b cur h n s
    ∙ scan_value str v (b'\r' ∷ b'\n' ∷ rest) (b + 3) (b + 2) inside refl n refl (omega arith) val.1
    ∙ scan_line_end_unplaced str rest (b + 3 + length v) (b + 2) inside refl n s refl (omega arith)

-- A call that begins in state `h_key` and meets a whole field reads in front of the buffer.
pub parse_headers_unplaced :
    (d : HttpData) (cs v rest : Bytes)
    → d.h_state ≡ h_key
    → d.in_buffer ≡ field_text cs v rest
    → All IsKeyByte cs
    → IsValue v
    → parse_headers d ≡ undefined
unfolding parse_headers
parse_headers_unplaced d cs v rest h e k val = ap (conclude d) (
    ap (λ s. scan d.in_buffer s 0 (entry d)) e
    ∙ scan_unplaced d.in_buffer cs v rest (entry d) h refl refl k val)

-- The first part: the name is kept in the buffer, and so is the state.
parse_headers_partial :
    (d : HttpData) (k : Bytes)
    → d.h_state ≡ h_start
    → d.in_buffer ≡ b'\n' ∷ k
    → IsKey k
    → parse_headers d ≡ returned parse_header_again (record d { in_buffer = k; h_state = h_key })
unfolding parse_headers scan
parse_headers_partial d [] h e key = absurd key
parse_headers_partial d (c ∷ cs) h e key =
    let str = d.in_buffer in
    let named = at_key 1 1 (entry d) in
    ap (conclude d) (
      ap (λ s. scan str s 0 (entry d)) e
      ∙ scan_newline str (c ∷ cs) (entry d) h refl
      ∙ scan_first_start str cs c 1 (entry d) h refl key.0.1
      ∙ ap (λ s. scan str s 2 named) (sym (append-nil cs))
      ∙ scan_key str cs [] 2 named refl refl key.1)
    ∙ ap (λ b. returned parse_header_again (record d { in_buffer = drop 1 b; h_state = h_key })) e

IsKey-bytes : (k : Bytes) → IsKey k → All IsKeyByte k
IsKey-bytes [] h = absurd h
IsKey-bytes (c ∷ cs) h = h

-- A request whose bytes arrive in two parts, cut inside the name of its first field, is first kept
-- for later ("again"), and as soon as the rest of the field is there parseHeaders has undefined
-- behaviour: it copies the name from position -1.
pub parse_headers_split :
    (d : HttpData) (first second v rest : Bytes)
    → d.h_state ≡ h_start
    → d.in_buffer ≡ b'\n' ∷ first
    → IsKey first
    → All IsKeyByte second
    → IsValue v
    → (d' : HttpData) × (parse_headers d ≡ returned parse_header_again d')
      × (parse_headers (record d' { in_buffer = d'.in_buffer ++ field_text second v rest })
          ≡ undefined)
parse_headers_split d first second v rest h e k k' val = (
  record d { in_buffer = first; h_state = h_key },
  parse_headers_partial d first h e k,
  parse_headers_unplaced _ (first ++ second) v rest refl (sym (append_assoc first second _))
      (All-append IsKeyByte first second k' (IsKey-bytes first k)) val,
)
