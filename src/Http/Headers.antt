-- ===== src/Http/Headers.antt =====
-- HttpData::parseHeaders: one switch over the parse state for each byte. The four positions that the
-- source starts at -1 are `none` there; copying from such a position, `str.begin() - 1`, is
-- undefined behaviour, and the model says so. Positions are below 2 ^ 31, as `int` requires.
pub mod Scan
pub mod RoundTrip
pub mod Defined
pub mod Split
pub mod Consumed
use jinyi.Http.Types.{
  HeaderState, parse_header_success, parse_header_again, parse_header_error, ParseState, h_start,
  h_key, h_colon, h_spaces_after_colon, h_value, h_cr, h_lf, h_blank_line_cr, h_blank_line_lf,
  Headers, insert, HttpData,
}
use jinyi.Prelude.{
  ℕ, ◌+◌, ◌-◌, Bool, true, false, ◌||◌, Option, none, some, [], ◌∷◌, Bytes, take, drop, ltb, ◌==◌,
  if◌then◌else◌,
}

-- The local variables, with the members that the loop changes.
pub record Cursor : Type 0 where
  pub h_state : ParseState
  pub headers : Headers
  pub key_start : Option ℕ
  pub key_end : Option ℕ
  pub value_start : Option ℕ
  pub value_end : Option ℕ
  pub line_begin : ℕ
  pub not_finish : Bool

-- What one round does: go on, return PARSE_HEADER_ERROR, or behave undefined.
pub data Round : Type 0 where
  go : Cursor → Round
  refuse : Cursor → Round
  break_rules : Round

-- `i - start`, also where `start` is still -1.
abbrev pub gap : ℕ → Option ℕ → ℕ
gap i none = i + 1
gap i (some a) = i - a

abbrev pub slice : ℕ → ℕ → Bytes → Bytes
slice a b str = take (b - a) (drop a str)

abbrev pub is_line_end : ℕ → Bool
is_line_end c = c == b'\n' || c == b'\r'

-- `headers_[key] = value` at the '\n' that ends a field.
store : Bytes → ℕ → Cursor → Option ℕ → Option ℕ → Option ℕ → Option ℕ → Round
store str i cur (some a) (some b) (some v) (some w) = go (record cur {
  h_state = h_lf;
  headers = insert (slice a b str) (slice v w str) cur.headers;
  line_begin = i;
})
store str i cur _ _ _ _ = break_rules

unfoldable pub step_in : ParseState → Bytes → ℕ → ℕ → Cursor → Round
unfolding store
step_in h_start str i c cur =
    if is_line_end c
    then go cur
    else go (record cur { h_state = h_key; key_start = some i; line_begin = i })
step_in h_key str i c cur =
    if c == b':'
    then if gap i cur.key_start == 0
      then refuse (record cur { key_end = some i })
      else go (record cur { key_end = some i; h_state = h_colon })
    else if is_line_end c
    then refuse cur
    else go cur
step_in h_colon str i c cur =
    if c == b' ' then go (record cur { h_state = h_spaces_after_colon }) else refuse cur
step_in h_spaces_after_colon str i c cur =
    go (record cur { h_state = h_value; value_start = some i })
step_in h_value str i c cur =
    if c == b'\r'
    then (let cur' = record cur { h_state = h_cr; value_end = some i } in
        if gap i cur.value_start == 0 then refuse cur' else go cur')
    else if ltb 255 (gap i cur.value_start)
    then refuse cur
    else go cur
step_in h_cr str i c cur =
    if c == b'\n'
    then store str i cur cur.key_start cur.key_end cur.value_start cur.value_end
    else refuse cur
step_in h_lf str i c cur =
    if c == b'\r'
    then go (record cur { h_state = h_blank_line_cr })
    else go (record cur { key_start = some i; h_state = h_key })
step_in h_blank_line_cr str i c cur =
    if c == b'\n' then go (record cur { h_state = h_blank_line_lf }) else refuse cur
step_in h_blank_line_lf str i c cur = go (record cur { not_finish = false })

-- How the loop ends: at position `i`, by an error return, or undefined.
pub data Scanned : Type 0 where
  stopped : ℕ → Cursor → Scanned
  refused : Cursor → Scanned
  rules_broken : Scanned

abbrev pub after : Round → (Cursor → Scanned) → Scanned
after (go cur) next = next cur
after (refuse cur) next = refused cur
after break_rules next = rules_broken

-- The loop at position `i`, where `cs` is what stands from there on in `str`.
unfoldable pub scan : Bytes → Bytes → ℕ → Cursor → Scanned
scan str [] i cur = stopped i cur
scan str (c ∷ cs) i cur =
    if cur.not_finish
    then after (step_in cur.h_state str i c cur) (scan str cs (i + 1))
    else stopped i cur

abbrev pub entry : HttpData → Cursor
entry d = record {
  h_state = d.h_state;
  headers = d.headers;
  key_start = none;
  key_end = none;
  value_start = none;
  value_end = none;
  line_begin = 0;
  not_finish = true;
}

pub data HeaderResult : Type 0 where
  returned : HeaderState → HttpData → HeaderResult
  undefined : HeaderResult

abbrev pub is_blank_line_lf : ParseState → Bool
is_blank_line_lf h_blank_line_lf = true
is_blank_line_lf _ = false

-- What stands behind the loop.
abbrev pub conclude : HttpData → Scanned → HeaderResult
conclude d (stopped i cur) =
    let d' = record d { h_state = cur.h_state; headers = cur.headers } in
    if is_blank_line_lf cur.h_state
    then returned parse_header_success (record d' { in_buffer = drop i d.in_buffer })
    else returned parse_header_again (record d' { in_buffer = drop cur.line_begin d.in_buffer })
conclude d (refused cur) =
    returned parse_header_error (record d { h_state = cur.h_state; headers = cur.headers })
conclude d rules_broken = undefined

unfoldable pub parse_headers : HttpData → HeaderResult
unfolding scan
parse_headers d = conclude d (scan d.in_buffer d.in_buffer 0 (entry d))
