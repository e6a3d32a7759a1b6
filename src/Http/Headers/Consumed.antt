-- ===== src/Http/Headers/Consumed.antt =====
-- parseHeaders (net/HttpData.cpp) and the length of the input buffer.
use mathlib.Core.Path.{subst}
use jinyi.Http.Types.{parse_header_success, h_start, HttpData}
use jinyi.Http.Headers.{
  Cursor, Round, go, refuse, break_rules, step_in, Scanned, stopped, refused, rules_broken, after,
  scan, entry, HeaderResult, returned, undefined, is_blank_line_lf, conclude, parse_headers,
}
use jinyi.Prelude.{
  ℕ, ◌+◌, ◌≤◌, ◌<◌, ◌≡◌, refl, Bool-cases, inl, inr, Bool, true, false, if◌then◌else◌, [], ◌∷◌,
  arith, Bytes, length, length-drop,
}

-- The loop ends behind `i`, if it ends with no error.
abbrev Beyond : ℕ → Scanned → Type 0
Beyond i (stopped j cur) = i ≤ j
Beyond i (refused cur) = Unit
Beyond i rules_broken = Unit

after-Beyond :
    (i : ℕ) (r : Round) (next : Cursor → Scanned)
    → ((cur : Cursor) → Beyond i (next cur))
    → Beyond i (after r next)
after-Beyond i (go cur) next h = h cur
after-Beyond i (refuse cur) next h = tt
after-Beyond i break_rules next h = tt

Beyond-less : (i : ℕ) (r : Scanned) → Beyond (i + 1) r → Beyond i r
Beyond-less i (stopped j cur) h = omega arith
Beyond-less i (refused cur) h = tt
Beyond-less i rules_broken h = tt

if-Beyond :
    (i : ℕ) (b : Bool) (x y : Scanned) → Beyond i x → Beyond i y → Beyond i (if b then x else y)
if-Beyond i true x y p q = p
if-Beyond i false x y p q = q

scan-Beyond : (str cs : Bytes) (i : ℕ) (cur : Cursor) → Beyond i (scan str cs i cur)
unfolding scan
scan-Beyond str [] i cur = omega arith
scan-Beyond str (c ∷ cs) i cur =
    if-Beyond i cur.not_finish _ (stopped i cur)
      (Beyond-less i _ (
        after-Beyond (i + 1) (step_in cur.h_state str i c cur) (scan str cs (i + 1))
          (scan-Beyond str cs (i + 1))))
      (omega arith)

-- The result leaves what decides how handleRead goes on alone, but for the buffer.
pub record Shrunk (d d' : HttpData) : Type 0 where
  pub timer : d'.timer_linked ≡ d.timer_linked
  pub state : d'.state ≡ d.state
  pub shorter : length d'.in_buffer ≤ length d.in_buffer

abbrev pub Shrinks : HttpData → HeaderResult → Type 0
Shrinks d (returned flag d') =
    Shrunk d d'
    × (flag ≡ parse_header_success → d.h_state ≡ h_start → length d'.in_buffer < length d.in_buffer)
Shrinks d undefined = Unit

conclude-Shrinks :
    (d : HttpData) (r : Scanned)
    → (d.h_state ≡ h_start
        → (j : ℕ) (cur : Cursor) → r ≡ stopped j cur
        → is_blank_line_lf cur.h_state ≡ true
        → (1 ≤ j) × (1 ≤ length d.in_buffer))
    → Shrinks d (conclude d r)
conclude-Shrinks d (stopped i cur) late = elim (Bool-cases (is_blank_line_lf cur.h_state)) [
  | inl blank ↦ rw blank (
    record { timer = refl; state = refl; shorter = omega (arith, length-drop i d.in_buffer) },
    λ e h. omega (arith, length-drop i d.in_buffer, late h i cur refl blank),
  )
  | inr other ↦ rw other (
    record {
      timer = refl;
      state = refl;
      shorter = omega (arith, length-drop cur.line_begin d.in_buffer);
    },
    λ e h. ground arith,
  )
]
conclude-Shrinks d (refused cur) late =
    (record { timer = refl; state = refl; shorter = omega arith }, λ e h. ground arith)
conclude-Shrinks d rules_broken late = tt

scan_past_first :
    (str cs : Bytes) (c : ℕ) (cur : Cursor)
    → cur.not_finish ≡ true
    → Beyond 1 (scan str (c ∷ cs) 0 cur)
unfolding scan
scan_past_first str cs c cur n =
    simp n (after-Beyond 1 (step_in cur.h_state str 0 c cur) (scan str cs 1) (scan-Beyond str cs 1))

-- From H_START the loop comes to the end of a block only behind a byte.
scan_block :
    (str cs : Bytes) (cur : Cursor)
    → cur.not_finish ≡ true
    → cur.h_state ≡ h_start
    → (j : ℕ) (cur' : Cursor) → scan str cs 0 cur ≡ stopped j cur'
    → is_blank_line_lf cur'.h_state ≡ true
    → (1 ≤ j) × (1 ≤ length cs)
unfolding scan
scan_block str [] cur n h j cur' e blank = ground arith
scan_block str (c ∷ cs) cur n h j cur' e blank =
    (subst (Beyond 1) e (scan_past_first str cs c cur n), omega arith)

-- parseHeaders keeps the timer and the state and never makes the input buffer longer; from its first
-- state, success makes it shorter.
pub parse_headers-Shrinks : (d : HttpData) → Shrinks d (parse_headers d)
unfolding parse_headers
parse_headers-Shrinks d =
    conclude-Shrinks d (scan d.in_buffer d.in_buffer 0 (entry d))
      (scan_block d.in_buffer d.in_buffer (entry d) refl)
