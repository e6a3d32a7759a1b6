-- ===== src/Http/Headers/RoundTrip.antt =====
-- Reading back a header block: parseHeaders on the fields that a client writes.
use mathlib.Core.Path.{ap₂}
use jinyi.Http.Types.{
  parse_header_success, h_start, h_lf, h_blank_line_lf, Headers, insert, HttpData,
}
use jinyi.Http.Headers.{
  Cursor, slice, step_in, Scanned, stopped, scan, entry, returned, conclude, parse_headers,
}
use jinyi.Http.Headers.Scan.{
  IsKey, IsValue, field_text, stored, scan_field, scan_finished, scan_newline,
}
use jinyi.Prelude.{
  ℕ, ◌+◌, ◌-◌, ◌≡◌, refl, sym, ap, ◌∙◌, ◌⊎◌, inl, inr, true, false, some, List, [], ◌∷◌, ◌++◌,
  arith, Bytes, length, drop, All, codes, append_assoc, length-append, drop-append, drop-append-add,
  take-append,
}

-- The fields, then the blank line, then `rest`.
abbrev pub block : List (Bytes × Bytes) → Bytes → Bytes
block [] rest = b'\r' ∷ b'\n' ∷ rest
block ((k, v) ∷ fs) rest = field_text k v (block fs rest)

abbrev pub insert_all : List (Bytes × Bytes) → Headers → Headers
insert_all [] hs = hs
insert_all ((k, v) ∷ fs) hs = insert_all fs (insert k v hs)

abbrev pub IsField : Bytes × Bytes → Type 0
IsField f = IsKey f.0 × IsValue f.1

-- The loop stops in the state that means success, with the fields stored and `left` unread.
record Ends (str left : Bytes) (hs : Headers) (r : Scanned) : Type 0 where
  place : ℕ
  cur : Cursor
  stops : r ≡ stopped place cur
  state_is : cur.h_state ≡ h_blank_line_lf
  stores : cur.headers ≡ hs
  leaves : drop place str ≡ left

-- The blank line, and one byte more.
scan_blank_line :
    (str pre rest : Bytes) (cur : Cursor)
    → str ≡ pre ++ (b'\r' ∷ b'\n' ∷ rest)
    → cur.h_state ≡ h_lf
    → cur.not_finish ≡ true
    → Ends str (drop 1 rest) cur.headers (scan str (b'\r' ∷ b'\n' ∷ rest) (length pre) cur)
unfolding scan step_in
scan_blank_line str pre [] cur e h n = record {
  place = length pre + 2;
  cur = record cur { h_state = h_blank_line_lf };
  stops = ground arith;
  state_is = refl;
  stores = refl;
  leaves = rw e (drop-append-add pre (b'\r' ∷ b'\n' ∷ []) 2);
}
scan_blank_line str pre (c ∷ rest) cur e h n = record {
  place = length pre + 3;
  cur = record cur { h_state = h_blank_line_lf; not_finish = false };
  stops =
      let last = record cur { h_state = h_blank_line_lf; not_finish = false } in
      ground (arith, scan_finished str rest (length pre + 3) last);
  state_is = refl;
  stores = refl;
  leaves = rw e (drop-append-add pre (b'\r' ∷ b'\n' ∷ c ∷ rest) 3);
}

-- The two copies that the '\n' of a field makes are its name and its value.
module _ (pre k v rest : Bytes) where
  abbrev text : Bytes
  text = pre ++ field_text k v rest

  slice_key : slice (length pre) (length pre + length k) text ≡ k
  slice_key =
      let e : length pre + length k - length pre ≡ length k = omega arith in
      rw (e, drop-append pre (field_text k v rest)) (take-append k _)

  value_regroup : text ≡ (pre ++ (k ++ codes ": ")) ++ (v ++ (b'\r' ∷ b'\n' ∷ rest))
  value_regroup = simp append_assoc

  slice_value : slice (length pre + length k + 2) (length pre + length k + 2 + length v) text ≡ v
  slice_value =
      let front = pre ++ (k ++ codes ": ") in
      let at : length pre + length k + 2 ≡ length front =
        omega (arith, length-append pre (k ++ codes ": "), length-append k (codes ": ")) in
      let e : length front + length v - length front ≡ length v = omega arith in
      rw (at, value_regroup, e, drop-append front (v ++ (b'\r' ∷ b'\n' ∷ rest)))
        (take-append v (b'\r' ∷ b'\n' ∷ rest))

  -- The text up to the end of the field.
  abbrev through : Bytes
  through = pre ++ (k ++ (codes ": " ++ (v ++ codes "\r\n")))

  length-through : length through ≡ length pre + length k + 2 + length v + 2
  length-through = omega (
    arith,
    length-append pre (k ++ (codes ": " ++ (v ++ codes "\r\n"))),
    length-append k (codes ": " ++ (v ++ codes "\r\n")),
    length-append v (codes "\r\n"),
  )

  text_regroup : text ≡ through ++ rest
  text_regroup = simp append_assoc

  stored_is :
      (cur : Cursor)
      → (stored text (length pre) (length pre + length k) (length v) cur).headers
        ≡ insert k v cur.headers
  stored_is cur = ap₂ (λ a b. insert a b cur.headers) slice_key slice_value

-- The loop goes on behind the field as `r` does.
Ends-field :
    (str pre k v rest left : Bytes) (cur : Cursor) (hs : Headers)
    → str ≡ pre ++ field_text k v rest
    → (cur.h_state ≡ h_start) ⊎ (cur.h_state ≡ h_lf)
    → cur.not_finish ≡ true
    → IsField (k, v)
    → ((next : Cursor)
        → next.h_state ≡ h_lf
        → next.not_finish ≡ true
        → next.headers ≡ insert k v cur.headers
        → Ends str left hs (scan str rest (length (through pre k v rest)) next))
    → Ends str left hs (scan str (field_text k v rest) (length pre) cur)
Ends-field str pre k v rest left cur hs e h n ok continue =
    let next =
      stored str (length pre) (length pre + length k) (length v)
        (record cur { key_start = some (length pre) }) in
    let stores : next.headers ≡ insert k v cur.headers =
      rw e (stored_is pre k v rest (record cur { key_start = some (length pre) })) in
    let later = continue next refl n stores in
    record {
      place = later.place;
      cur = later.cur;
      stops =
          scan_field str k v rest (length pre) cur h n ok.0 ok.1
          ∙ ap (λ i. scan str rest i next) (sym (length-through pre k v rest))
          ∙ later.stops;
      state_is = later.state_is;
      stores = later.stores;
      leaves = later.leaves;
    }

scan_fields :
    (fs : List (Bytes × Bytes)) (str pre rest : Bytes) (cur : Cursor)
    → str ≡ pre ++ block fs rest
    → cur.h_state ≡ h_lf
    → cur.not_finish ≡ true
    → All IsField fs
    → Ends str (drop 1 rest) (insert_all fs cur.headers) (scan str (block fs rest) (length pre) cur)
scan_fields [] str pre rest cur e h n ok = scan_blank_line str pre rest cur e h n
scan_fields ((k, v) ∷ fs) str pre rest cur e h n ok =
    let behind = block fs rest in
    Ends-field str pre k v behind (drop 1 rest) cur (insert_all fs (insert k v cur.headers)) e
      (inr h) n ok.0
      λ next h' n' stores. rw (← stores) (
        scan_fields fs str (through pre k v behind) rest next (e ∙ text_regroup pre k v behind) h'
          n' ok.1)

conclude-Ends :
    (d : HttpData) (left : Bytes) (hs : Headers) (r : Scanned)
    → Ends d.in_buffer left hs r
    → conclude d r
      ≡ returned parse_header_success
          (record d { in_buffer = left; h_state = h_blank_line_lf; headers = hs })
conclude-Ends d left hs r t = rw t.stops (rw (t.state_is, t.stores, t.leaves) refl)

-- Reading back a header block: with the parser in its first state, on the '\n' that parseURI leaves,
-- one or more well-formed fields and the blank line, parseHeaders succeeds, stores every field (a
-- later one replaces an earlier one of that name), and leaves what stands behind the blank line
-- less its first byte, which the loop consumes.
pub parse_headers-block :
    (d : HttpData) (f : Bytes × Bytes) (fs : List (Bytes × Bytes)) (rest : Bytes)
    → d.h_state ≡ h_start
    → d.in_buffer ≡ b'\n' ∷ block (f ∷ fs) rest
    → All IsField (f ∷ fs)
    → parse_headers d
      ≡ returned parse_header_success (record d {
        in_buffer = drop 1 rest;
        h_state = h_blank_line_lf;
        headers = insert_all (f ∷ fs) d.headers;
      })
unfolding parse_headers
parse_headers-block d (k, v) fs rest h e ok =
    let str = d.in_buffer in
    let behind = block fs rest in
    let ends =
      Ends-field str (codes "\n") k v behind (drop 1 rest) (entry d)
        (insert_all fs (insert k v d.headers)) e (inl h) refl ok.0
        (λ next h' n' stores. rw (← stores) (
          scan_fields fs str (through (codes "\n") k v behind) rest next
            (e ∙ text_regroup (codes "\n") k v behind) h' n' ok.1)) in
    ap (conclude d) (
      ap (λ s. scan str s 0 (entry d)) e
      ∙ scan_newline str (field_text k v behind) (entry d) h refl)
    ∙ conclude-Ends d (drop 1 rest) (insert_all fs (insert k v d.headers)) _ ends
