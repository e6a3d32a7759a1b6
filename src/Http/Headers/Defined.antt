-- ===== src/Http/Headers/Defined.antt =====
-- parseHeaders (net/HttpData.cpp): the positions that its states have set when it copies.
use jinyi.Http.Types.{
  ParseState, h_start, h_key, h_colon, h_spaces_after_colon, h_value, h_cr, Headers, insert,
  HttpData,
}
use jinyi.Http.Headers.{
  Cursor, Round, go, refuse, break_rules, store, slice, step_in, Scanned, stopped, refused,
  rules_broken, after, scan, entry, HeaderResult, returned, undefined, conclude, parse_headers,
}
use jinyi.Prelude.{
  ℕ, ◌+◌, ◌<◌, ◌≤◌, ◌≡◌, refl, Bool, true, false, Option, none, some, [], ◌∷◌, arith, Bytes,
  bytes_eq, length, drop, length-take, length-drop, All, inl, inr, ◌-◌, if◌then◌else◌, Bool-cases,
}

-- Both positions are set, and in order.
abbrev Before : Option ℕ → Option ℕ → Type 0
Before (some a) (some b) = a < b
Before _ _ = ⊥

-- The positions that each state has set, in front of position `i`.
abbrev Placed : ParseState → ℕ → Cursor → Type 0
Placed h_key i cur = Before cur.key_start (some i)
Placed h_colon i cur = Before cur.key_start cur.key_end × Before cur.key_end (some i)
Placed h_spaces_after_colon i cur = Before cur.key_start cur.key_end × Before cur.key_end (some i)
Placed h_value i cur =
    Before cur.key_start cur.key_end
    × Before cur.key_end cur.value_start
    × Before cur.value_start (some i)
Placed h_cr i cur =
    Before cur.key_start cur.key_end
    × Before cur.key_end cur.value_start
    × Before cur.value_start cur.value_end
    × Before cur.value_end (some i)
Placed _ i cur = Unit

abbrev pub IsFilled : Bytes × Bytes → Type 0
IsFilled f = (0 < length f.0) × (0 < length f.1)

insert-IsFilled :
    (k v : Bytes) (hs : Headers)
    → 0 < length k
    → 0 < length v
    → All IsFilled hs
    → All IsFilled (insert k v hs)
unfolding insert
insert-IsFilled k v [] hk hv ok = ((hk, hv), tt)
insert-IsFilled k v ((j, w) ∷ hs) hk hv ok = elim (Bool-cases (bytes_eq j k)) [
  | inl same ↦ rw same ((hk, hv), ok.1)
  | inr other ↦ rw other (ok.0, insert-IsFilled k v hs hk hv ok.1)
]

slice_pos : (a b : ℕ) (str : Bytes) → a < b → b ≤ length str → 0 < length (slice a b str)
slice_pos a b str lt le = omega (arith, length-take (b - a) (drop a str), length-drop a str)

abbrev Kept : ℕ → Round → Type 0
Kept i (go cur) = Placed cur.h_state i cur × All IsFilled cur.headers
Kept i (refuse cur) = All IsFilled cur.headers
Kept i break_rules = ⊥

store-Kept :
    (str : Bytes) (i : ℕ) (cur : Cursor) (a b v w : Option ℕ)
    → i < length str
    → Before a b
    → Before b v
    → Before v w
    → Before w (some i)
    → All IsFilled cur.headers
    → Kept (i + 1) (store str i cur a b v w)
unfolding store
store-Kept str i cur (some a) (some b) (some v) (some w) lt ab bv vw wi ok = (
  tt,
  insert-IsFilled _ _ cur.headers (slice_pos a b str ab (omega arith))
      (slice_pos v w str vw (omega arith)) ok,
)
store-Kept str i cur none _ _ _ lt ab bv vw wi ok = absurd ab
store-Kept str i cur (some a) none _ _ lt ab bv vw wi ok = absurd ab
store-Kept str i cur (some a) (some b) none _ lt ab bv vw wi ok = absurd bv
store-Kept str i cur (some a) (some b) (some v) none lt ab bv vw wi ok = absurd vw

step_in-Kept :
    (h : ParseState) (str : Bytes) (i c : ℕ) (cur : Cursor)
    → i < length str
    → cur.h_state ≡ h
    → Placed h i cur
    → All IsFilled cur.headers
    → Kept (i + 1) (step_in h str i c cur)
unfolding step_in
step_in-Kept h_cr str i c cur lt e p ok =
    ground (arith, store-Kept str i cur cur.key_start cur.key_end cur.value_start cur.value_end)
step_in-Kept _ str i c cur lt e p ok = ground arith

abbrev KeptAll : Scanned → Type 0
KeptAll (stopped i cur) = All IsFilled cur.headers
KeptAll (refused cur) = All IsFilled cur.headers
KeptAll rules_broken = ⊥

after-KeptAll :
    (r : Round) (i : ℕ) (next : Cursor → Scanned)
    → Kept i r
    → ((cur : Cursor) → Placed cur.h_state i cur → All IsFilled cur.headers → KeptAll (next cur))
    → KeptAll (after r next)
after-KeptAll (go cur) i next k later = later cur k.0 k.1
after-KeptAll (refuse cur) i next k later = k
after-KeptAll break_rules i next k later = k

if-KeptAll : (b : Bool) (x y : Scanned) → KeptAll x → KeptAll y → KeptAll (if b then x else y)
if-KeptAll true x y hx hy = hx
if-KeptAll false x y hx hy = hy

scan-KeptAll :
    (str cs : Bytes) (i : ℕ) (cur : Cursor)
    → i + length cs ≡ length str
    → Placed cur.h_state i cur
    → All IsFilled cur.headers
    → KeptAll (scan str cs i cur)
unfolding scan
scan-KeptAll str [] i cur e p ok = ok
scan-KeptAll str (c ∷ cs) i cur e p ok =
    if-KeptAll cur.not_finish _ _
      (after-KeptAll (step_in cur.h_state str i c cur) (i + 1) (scan str cs (i + 1))
        (step_in-Kept cur.h_state str i c cur (omega arith) refl p ok)
        (λ next p' ok'. scan-KeptAll str cs (i + 1) next (omega arith) p' ok'))
      ok

-- The call returns, with well-formed headers.
abbrev pub ReturnsFilled : HeaderResult → Type 0
ReturnsFilled (returned s d) = All IsFilled d.headers
ReturnsFilled undefined = ⊥

conclude-ReturnsFilled : (d : HttpData) (r : Scanned) → KeptAll r → ReturnsFilled (conclude d r)
conclude-ReturnsFilled d (stopped i cur) k = ground arith
conclude-ReturnsFilled d (refused cur) k = k
conclude-ReturnsFilled d rules_broken k = k

-- Entered in its first state, whatever the buffer holds, parseHeaders returns without undefined
-- behaviour, and no field that it stores has an empty name or an empty value.
pub parse_headers-ReturnsFilled :
    (d : HttpData) → d.h_state ≡ h_start → All IsFilled d.headers → ReturnsFilled (parse_headers d)
unfolding parse_headers
parse_headers-ReturnsFilled d h ok =
    conclude-ReturnsFilled d _
      (scan-KeptAll d.in_buffer d.in_buffer 0 (entry d) (omega arith) (rw h tt) ok)
