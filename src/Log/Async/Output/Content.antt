-- ===== src/Log/Async/Output/Content.antt =====
-- The content of the log of AsyncLogging (base/AsyncLogging.cpp) in order: what was written, what is
-- about to be and the current buffer; and what `append` does to it.
use mathlib.Core.Option.{some-injective}
use mathlib.Core.Path.{subst, ap₂}
use jinyi.Log.Async.{AsyncLogging, append, append_at, set_at, System, texts}
use jinyi.Log.Async.Lines.{current_text, text_at, append_text-fits, set_at-same, length-zero}
use jinyi.Log.Async.Run.{log, step}
use jinyi.Log.Async.Safe.{hit, hits, count, missing, IsSafe}
use jinyi.Log.Stream.{FixedBuffer, avail, large_buffer}
use jinyi.Log.Stream.{append as append_text}
use jinyi.Prelude.{
  ℕ, ◌+◌, ◌≤◌, ◌<◌, ◌≡◌, refl, sym, ap, ◌∙◌, true, Option, none, some, List, [], ◌∷◌, ◌++◌, arith,
  Bytes, length, length-append, ltb, append-nil, append_assoc, Option-cases, inl, inr,
}

abbrev pub joined : List Bytes → Bytes
joined [] = []
joined (x ∷ xs) = x ++ joined xs

-- What was handed to LogFile, what the thread is about to hand over, and the current buffer.
abbrev pub content : System → Bytes
content s =
    joined s.output ++ (joined (texts s.logging.heap s.buffers_to_write) ++ current_text s.logging)

pub record Plain (logged : Bytes) (s : System) : Type 0 where
  pub no_queue : s.logging.buffers ≡ []
  pub short : length s.buffers_to_write ≤ 1
  pub same : content s ≡ logged

pub joined-append : (xs : List Bytes) (x : Bytes) → joined (xs ++ x ∷ []) ≡ joined xs ++ x
joined-append [] x = append-nil x
joined-append (y ∷ ys) x = ap (◌++◌ y) (joined-append ys x) ∙ sym (append_assoc y (joined ys) x)

-- A change at a buffer that is not among them leaves the texts alone.
pub texts-set_at :
    (heap : ℕ → FixedBuffer) (p : ℕ) (b : FixedBuffer) (ps : List ℕ)
    → count p ps ≤ 0
    → texts (set_at heap p b) ps ≡ texts heap ps
texts-set_at heap p b [] h = refl
texts-set_at heap p b (q ∷ qs) h = ground (arith, texts-set_at heap p b qs)

pub hit_self : (p : ℕ) → hit p p ≡ 1
hit_self p = ground arith

regroup : (a b c d : Bytes) → a ++ (b ++ (c ++ d)) ≡ (a ++ (b ++ c)) ++ d
regroup a b c d = simp append_assoc

pub length-nil : (ps : List ℕ) → length ps ≤ 0 → ps ≡ []
length-nil [] h = refl
length-nil (p ∷ ps) h = absurd (omega arith)

-- An answer that is known carries over.
pub carry :
    {logged : Bytes} {r : Option System} (s s' : System)
    → r ≡ some s
    → r ≡ some s'
    → Plain logged s
    → Plain logged s'
carry {logged} s s' e e' plain = subst (Plain logged) (some-injective s s' (sym e ∙ e')) plain

log-content :
    (s : System) (logged line : Bytes) (p : ℕ)
    → IsSafe s
    → s.logging.current_buffer ≡ some p
    → content s ≡ logged
    → ltb (length line) (avail (s.logging.heap p)) ≡ true
    → content (record s { logging = append_at s.logging p line }) ≡ logged ++ line
log-content s logged line p safe e same fits =
    let a = s.logging in
    let alone : count p s.buffers_to_write ≤ 0 =
      omega (arith, safe.owned.once p, ap (hits p) e, hit_self p) in
    let before = ap (text_at a) e in
    let after =
      ap (text_at (append_at a p line)) e
      ∙ ap (λ b. b.text) (set_at-same a.heap p (append_text (a.heap p) line))
      ∙ append_text-fits (a.heap p) line fits in
    let texts_same =
      ap joined (texts-set_at a.heap p (append_text (a.heap p) line) s.buffers_to_write alone) in
    ap₂ (λ x y. joined s.output ++ (x ++ y)) texts_same (after ∙ ap (λ t. t ++ line) (sym before))
    ∙ regroup (joined s.output) (joined (texts a.heap s.buffers_to_write)) (current_text a) line
    ∙ ap (λ t. t ++ line) same

length-current :
    (s : System) (p : ℕ) (logged : Bytes)
    → s.logging.current_buffer ≡ some p
    → content s ≡ logged
    → length (s.logging.heap p).text ≤ length logged
length-current s p logged e same =
    let a = s.logging in
    let waiting_text = joined (texts a.heap s.buffers_to_write) in
    omega (
      arith,
      ap length same,
      length-append (joined s.output) (waiting_text ++ current_text a),
      length-append waiting_text (current_text a),
      ap (λ o. length (text_at a o)) e,
    )

append-fits :
    (a : AsyncLogging) (line : Bytes) (p : ℕ)
    → a.current_buffer ≡ some p
    → ltb (length line) (avail (a.heap p)) ≡ true
    → append a line ≡ some (append_at a p line)
unfolding append
append-fits a line p e fits = ground (arith, e, fits)

pub log-Plain :
    (s s' : System) (logged line : Bytes)
    → IsSafe s
    → Plain logged s
    → length logged + length line < large_buffer
    → step (log line) s ≡ some s'
    → Plain (logged ++ line) s'
unfolding step append
log-Plain s s' logged line safe plain room e = elim (Option-cases s.logging.current_buffer) [
  | inl n ↦ absurd (omega (arith, safe.owned.present, ap missing n))
  | inr (p, ep) ↦
      let small = length-current s p logged ep plain.same in
      let sized = safe.owned.sizes p in
      let fits : ltb (length line) (avail (s.logging.heap p)) ≡ true = ground arith in
      carry (record s { logging = append_at s.logging p line }) s'
        (rw (step, append-fits s.logging line p ep fits) refl) e
        (record {
          no_queue = plain.no_queue;
          short = plain.short;
          same = log-content s logged line p safe ep plain.same fits;
        })
]

pub blank-text :
    (a : AsyncLogging) (o : Option ℕ)
    → missing o ≤ 0
    → ((i : ℕ) → 1 ≤ hits i o → length (a.heap i).text ≤ 0)
    → text_at a o ≡ []
blank-text a none h blank = refl
blank-text a (some p) h blank = length-zero (a.heap p).text (blank p (omega (arith, hit_self p)))

pub text_at-set_at :
    (a : AsyncLogging) (o : Option ℕ) (p : ℕ) (b : FixedBuffer)
    → hits p o ≤ 0
    → text_at (record a { heap = set_at a.heap p b }) o ≡ text_at a o
text_at-set_at a none p b h = refl
text_at-set_at a (some q) p b h = ground arith
