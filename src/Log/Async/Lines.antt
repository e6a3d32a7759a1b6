-- ===== src/Log/Async/Lines.antt =====
-- AsyncLogging: where a log line goes, and what is left in the queued buffers.
use jinyi.Log.Async.{AsyncLogging, append, append_next, append_at, new_buffer, set_at, System}
use jinyi.Log.Async.Run.{Event, run, started}
use jinyi.Log.Async.Safe.{hits, count, missing, IsSafe}
use jinyi.Log.Async.Thread.{run-IsSafe}
use mathlib.Core.Option.{some-injective}
use mathlib.Core.Path.{subst}
use jinyi.Log.Stream.{FixedBuffer, avail, large_buffer, reset}
use jinyi.Log.Stream.{append as append_text}
use jinyi.Prelude.{
  ℕ, ◌+◌, ◌≤◌, ◌<◌, ◌≡◌, refl, sym, ap, ◌∙◌, Option, none, some, List, [], ◌∷◌, ◌++◌, arith, Bytes,
  length, true, ltb, Option-cases, Bool-cases, inl, inr, All,
}

abbrev pub text_at : AsyncLogging → Option ℕ → Bytes
text_at a none = []
text_at a (some p) = (a.heap p).text

abbrev pub current_text : AsyncLogging → Bytes
current_text a = text_at a a.current_buffer

-- The line is behind the text of the current buffer; or the current buffer is queued, its text is
-- gone, and the line is the text of another one.
pub data Stored (line : Bytes) (a a' : AsyncLogging) : Type 0 where
  kept : a'.buffers ≡ a.buffers → current_text a' ≡ current_text a ++ line → Stored line a a'
  lost :
      (p : ℕ)
      → a.current_buffer ≡ some p
      → a'.buffers ≡ a.buffers ++ p ∷ []
      → (a'.heap p).text ≡ []
      → current_text a' ≡ line
      → Stored line a a'

pub length-zero : (xs : Bytes) → length xs ≤ 0 → xs ≡ []
length-zero [] h = refl
length-zero (x ∷ xs) h = absurd (omega arith)

pub append_text-fits :
    (b : FixedBuffer) (line : Bytes)
    → ltb (length line) (avail b) ≡ true
    → (append_text b line).text ≡ b.text ++ line
unfolding append_text
append_text-fits b line h = ground arith

append_text-empty :
    (b : FixedBuffer) (line : Bytes)
    → length line < b.size
    → b.text ≡ []
    → (append_text b line).text ≡ line
unfolding append_text
append_text-empty b line h e = ground (arith, ap length e)

pub set_at-same : (heap : ℕ → FixedBuffer) (p : ℕ) (b : FixedBuffer) → set_at heap p b p ≡ b
set_at-same heap p b = ground arith

Stored-full :
    (a : AsyncLogging) (p : ℕ) (next : Option ℕ) (line : Bytes)
    → a.current_buffer ≡ some p
    → a.next_buffer ≡ next
    → length line < large_buffer
    → ((i : ℕ) → hits i a.current_buffer + hits i a.next_buffer ≤ 1)
    → ((i : ℕ) → a.fresh ≤ i → hits i a.current_buffer ≤ 0)
    → ((i : ℕ) → 1 ≤ hits i a.next_buffer → length (a.heap i).text ≤ 0)
    → ((i : ℕ) → (a.heap i).size ≡ large_buffer)
    → Stored line a (
        append_next
          (record a { buffers = a.buffers ++ p ∷ []; heap = set_at a.heap p (reset (a.heap p)) })
          next
          line)
unfolding reset
Stored-full a p none line e n short once unused blank sizes =
    lost p e refl (ground (arith, unused p, e)) (
      ap (λ b. b.text)
        (set_at-same (set_at (set_at a.heap p (reset (a.heap p))) a.fresh new_buffer) a.fresh _)
      ∙ ap (λ b. (append_text b line).text)
          (set_at-same (set_at a.heap p (reset (a.heap p))) a.fresh new_buffer)
      ∙ append_text-empty new_buffer line short refl)
Stored-full a p (some q) line e n short once unused blank sizes =
    lost p e refl (ground (arith, once p, e, n)) (
      ground (
        arith,
        once p,
        e,
        n,
        sizes q,
        append_text-empty (a.heap q) line,
        length-zero (a.heap q).text,
        blank q,
      ))

-- A line shorter than a whole buffer is never refused. Either it goes behind the text of the
-- current buffer, or it is the first text of another buffer; then the full one stands in the queue
-- for the back-end thread, but empty, and what it held is lost.
pub append-Stored :
    (s : System) (line : Bytes)
    → IsSafe s
    → length line < large_buffer
    → (a' : AsyncLogging) × (append s.logging line ≡ some a') × Stored line s.logging a'
unfolding append
append-Stored s line safe short =
    let a = s.logging in
    let o = safe.owned in
    elim (Option-cases a.current_buffer) [
      | inl n ↦ absurd (omega (arith, o.present, ap missing n))
      | inr (p, e) ↦ elim (Bool-cases (ltb (length line) (avail (a.heap p)))) [
        | inl fits ↦ (
          append_at a p line,
          rw (e, fits) refl,
          kept refl (
              ap (text_at (append_at a p line)) e
              ∙ ap (λ b. b.text) (set_at-same a.heap p _)
              ∙ append_text-fits (a.heap p) line fits
              ∙ ap (λ o. text_at a o ++ line) (sym e)),
        )
        | inr full ↦ (
          _,
          rw (e, full) refl,
          Stored-full a p a.next_buffer line e refl short (λ i. omega (arith, o.once i))
              (λ i h. omega (arith, o.unused i h)) (λ i h. o.queue i (omega arith)) o.sizes,
        )
      ]
    ]

All-blank :
    (heap : ℕ → FixedBuffer) (ps : List ℕ)
    → ((i : ℕ) → 1 ≤ count i ps → length (heap i).text ≤ 0)
    → All (λ p. (heap p).text ≡ []) ps
All-blank heap [] h = tt
All-blank heap (p ∷ ps) h =
    (length-zero _ (h p (ground arith)), All-blank heap ps (λ i here. h i (omega arith)))

-- After any run, every buffer that waits in the queue for the back-end thread is empty.
run_queue_blank :
    (es : List Event) (s : System)
    → run es started ≡ some s
    → All (λ p. (s.logging.heap p).text ≡ []) s.logging.buffers
run_queue_blank es s e =
    let (t, there, safe) = run-IsSafe es in
    let same = some-injective t s (sym there ∙ e) in
    subst (λ u. All (λ p. (u.logging.heap p).text ≡ []) u.logging.buffers) same
      (All-blank t.logging.heap t.logging.buffers (λ i h. safe.owned.queue i (omega arith)))
