-- ===== src/Http/Headers/Scan.antt =====
-- Running the loop of parseHeaders over one field, wherever it stands in the buffer.
use jinyi.Http.Types.{h_start, h_key, h_value, h_lf, insert}
use jinyi.Http.Headers.{Cursor, slice, is_line_end, step_in, stopped, scan}
use jinyi.Prelude.{
  ℕ, suc, ◌+◌, ◌≤◌, ◌<◌, ◌≡◌, refl, ap, ◌∙◌, ◌⊎◌, inl, inr, true, false, some, [], ◌∷◌, ◌++◌, arith,
  Bytes, length, ◌==◌, All, Lacks,
}

-- The loop has read the byte behind the blank line, and stops.
pub scan_finished :
    (str cs : Bytes) (i : ℕ) (cur : Cursor)
    → cur.not_finish ≡ false
    → scan str cs i cur ≡ stopped i cur
unfolding scan
scan_finished str [] i cur n = refl
scan_finished str (c ∷ cs) i cur n = rw n

-- Bytes of a field name.
abbrev pub IsKeyByte : ℕ → Type 0
IsKeyByte c = ((c == b':') ≡ false) × (is_line_end c ≡ false)

pub scan_key :
    (str cs rest : Bytes) (i : ℕ) (cur : Cursor)
    → cur.h_state ≡ h_key
    → cur.not_finish ≡ true
    → All IsKeyByte cs
    → scan str (cs ++ rest) i cur ≡ scan str rest (i + length cs) cur
unfolding scan step_in
scan_key str [] rest i cur h n k = ap (λ j. scan str rest j cur) (omega arith)
scan_key str (c ∷ cs) rest i cur h n k = ground (arith, scan_key str cs rest (i + 1) cur)

pub scan_value :
    (str cs rest : Bytes) (i a : ℕ) (cur : Cursor)
    → cur.h_state ≡ h_value
    → cur.not_finish ≡ true
    → cur.value_start ≡ some a
    → i + length cs ≤ a + 256
    → Lacks b'\r' cs
    → scan str (cs ++ rest) i cur ≡ scan str rest (i + length cs) cur
unfolding scan step_in
scan_value str [] rest i a cur h n v le k = ap (λ j. scan str rest j cur) (omega arith)
scan_value str (c ∷ cs) rest i a cur h n v le k =
    ground (arith, scan_value str cs rest (i + 1) a cur)

-- A field name: not empty, and without ':' and line ends.
abbrev pub IsKey : Bytes → Type 0
IsKey [] = ⊥
IsKey (c ∷ cs) = IsKeyByte c × All IsKeyByte cs

-- A field value: 1 to 256 bytes without '\r'.
abbrev pub IsValue : Bytes → Type 0
IsValue [] = ⊥
IsValue (c ∷ cs) = ((c == b'\r') ≡ false) × Lacks b'\r' cs × (length cs ≤ 255)

abbrev pub field_text : Bytes → Bytes → Bytes → Bytes
field_text k v rest = k ++ (b':' ∷ b' ' ∷ (v ++ (b'\r' ∷ b'\n' ∷ rest)))

scan_colon :
    (str rest : Bytes) (c b a : ℕ) (cur : Cursor)
    → cur.h_state ≡ h_key
    → cur.not_finish ≡ true
    → cur.key_start ≡ some a
    → a < b
    → scan str (b':' ∷ b' ' ∷ c ∷ rest) b cur
      ≡ scan str rest
          (b + 3)
          (record cur { h_state = h_value; key_end = some b; value_start = some (b + 2) })
unfolding scan step_in
scan_colon str rest c b a cur h n s lt = ground arith

scan_line_end :
    (str rest : Bytes) (w a b u : ℕ) (cur : Cursor)
    → cur.h_state ≡ h_value
    → cur.not_finish ≡ true
    → cur.key_start ≡ some a
    → cur.key_end ≡ some b
    → cur.value_start ≡ some u
    → u < w
    → scan str (b'\r' ∷ b'\n' ∷ rest) w cur
      ≡ scan str rest (w + 2) (record cur {
        h_state = h_lf;
        headers = insert (slice a b str) (slice u w str) cur.headers;
        value_end = some w;
        line_begin = w + 1;
      })
unfolding scan step_in
scan_line_end str rest w a b u cur h n p q r lt = ground arith

-- Where a field whose name began at `a` leaves the loop: `b` is the place of its colon, and `len`
-- the length of its value.
abbrev pub stored : Bytes → ℕ → ℕ → ℕ → Cursor → Cursor
stored str a b len cur = record cur {
  h_state = h_lf;
  headers = insert (slice a b str) (slice (b + 2) (b + 2 + len) str) cur.headers;
  key_end = some b;
  value_start = some (b + 2);
  value_end = some (b + 2 + len);
  line_begin = b + 2 + len + 1;
}

-- From inside the name to the end of the line.
pub scan_rest_of_field :
    (str cs v rest : Bytes) (i a : ℕ) (cur : Cursor)
    → cur.h_state ≡ h_key
    → cur.not_finish ≡ true
    → cur.key_start ≡ some a
    → a < i
    → All IsKeyByte cs
    → IsValue v
    → scan str (field_text cs v rest) i cur
      ≡ scan str rest
          (i + length cs + 2 + length v + 2)
          (stored str a (i + length cs) (length v) cur)
scan_rest_of_field str cs [] rest i a cur h n s lt k val = absurd val
scan_rest_of_field str cs (c ∷ v) rest i a cur h n s lt k val =
    let b = i + length cs in
    let inside = record cur { h_state = h_value; key_end = some b; value_start = some (b + 2) } in
    let end : b + 3 + length v ≡ b + 2 + suc (length v) = omega arith in
    scan_key str cs _ i cur h n k
    ∙ scan_colon str (v ++ (b'\r' ∷ b'\n' ∷ rest)) c b a cur h n s (omega arith)
    ∙ scan_value str v (b'\r' ∷ b'\n' ∷ rest) (b + 3) (b + 2) inside refl n refl (omega arith) val.1
    ∙ ap (λ w. scan str (b'\r' ∷ b'\n' ∷ rest) w inside) end
    ∙ scan_line_end str rest (b + 2 + suc (length v)) a b (b + 2) inside refl n s refl refl
        (omega arith)

-- The first byte of a name, at the start of the buffer and behind a line end.
abbrev pub at_key : ℕ → ℕ → Cursor → Cursor
at_key i begin cur = record cur { h_state = h_key; key_start = some i; line_begin = begin }

pub scan_first_start :
    (str rest : Bytes) (c i : ℕ) (cur : Cursor)
    → cur.h_state ≡ h_start
    → cur.not_finish ≡ true
    → is_line_end c ≡ false
    → scan str (c ∷ rest) i cur ≡ scan str rest (i + 1) (at_key i i cur)
unfolding scan step_in
scan_first_start str rest c i cur h n k = ground arith

scan_first :
    (str rest : Bytes) (c i : ℕ) (cur : Cursor)
    → (cur.h_state ≡ h_start) ⊎ (cur.h_state ≡ h_lf)
    → cur.not_finish ≡ true
    → is_line_end c ≡ false
    → (begin : ℕ) × (scan str (c ∷ rest) i cur ≡ scan str rest (i + 1) (at_key i begin cur))
unfolding scan step_in
scan_first str rest c i cur (inl h) n k = (i, scan_first_start str rest c i cur h n k)
scan_first str rest c i cur (inr h) n k = (cur.line_begin, ground arith)

pub scan_newline :
    (str rest : Bytes) (cur : Cursor)
    → cur.h_state ≡ h_start
    → cur.not_finish ≡ true
    → scan str (b'\n' ∷ rest) 0 cur ≡ scan str rest 1 cur
unfolding scan step_in
scan_newline str rest cur h n = ground arith

-- A whole field, from the start of the buffer or behind a line end.
pub scan_field :
    (str k v rest : Bytes) (i : ℕ) (cur : Cursor)
    → (cur.h_state ≡ h_start) ⊎ (cur.h_state ≡ h_lf)
    → cur.not_finish ≡ true
    → IsKey k
    → IsValue v
    → scan str (field_text k v rest) i cur
      ≡ scan str rest
          (i + length k + 2 + length v + 2)
          (stored str i (i + length k) (length v) (record cur { key_start = some i }))
scan_field str [] v rest i cur h n k val = absurd k
scan_field str (c ∷ cs) v rest i cur h n k val =
    let (begin, first) = scan_first str (field_text cs v rest) c i cur h n k.0.1 in
    let colon : i + 1 + length cs ≡ i + suc (length cs) = omega arith in
    first
    ∙ scan_rest_of_field str cs v rest (i + 1) i (at_key i begin cur) refl n refl (omega arith) k.1
        val
    ∙ ap
        (λ b.
          scan str rest (b + 2 + length v + 2)
            (stored str i b (length v) (record cur { key_start = some i })))
        colon
