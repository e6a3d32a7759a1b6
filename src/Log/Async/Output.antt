-- ===== src/Log/Async/Output.antt =====
-- AsyncLogging (base/AsyncLogging.cpp): the order of the log in runs in which no buffer fills up.
pub mod Content
mod Writer
use mathlib.Core.Option.{some-injective, none-ne-some}
use mathlib.Core.Path.{subst, ap₂}
use jinyi.Log.Async.{
  AsyncLogging, append, append_at, set_at, at_top, waiting, collected, finished, Phase, System,
  collect_from, collect, refill, refilled, refill_second, texts, dropped_to_two, write_out,
  is_blank, is_empty, thread_from, thread_func,
}
use jinyi.Log.Async.Lines.{current_text, text_at, append_text-fits, set_at-same, length-zero}
use jinyi.Log.Async.Run.{log, thread, stop, Event, step, run, started}
use jinyi.Log.Async.Safe.{hit, hits, count, missing, Owned, IsSafe, Ready}
use jinyi.Log.Async.Thread.{step-Safe, started-IsSafe, run-IsSafe, is_empty-some}
use jinyi.Log.Stream.{FixedBuffer, avail, large_buffer, reset}
use jinyi.Log.Stream.{append as append_text}
use jinyi.Prelude.{
  ℕ, zero, suc, ◌+◌, ◌≤◌, ◌<◌, ◌≡◌, refl, sym, ap, ◌∙◌, Bool, true, false, ◌&&◌, Option, none, some,
  List, [], ◌∷◌, ◌++◌, arith, Bytes, length, length-append, ltb, ◌==◌, if◌then◌else◌, append-nil,
  append_assoc, Option-cases, Bool-cases, inl, inr,
}
use jinyi.Log.Async.Output.Content.{
  content, joined, Plain, joined-append, texts-set_at, hit_self, length-nil, carry, log-Plain,
  blank-text, text_at-set_at,
}
use jinyi.Log.Async.Output.Writer.{thread_from-Plain}

-- The lines of a run, in order.
abbrev pub lines : List Event → Bytes
lines [] = []
lines (log line ∷ es) = line ++ lines es
lines (thread ∷ es) = lines es
lines (stop ∷ es) = lines es

-- The bytes that an event logs.
abbrev line_of : Event → Bytes
line_of (log line) = line
line_of _ = []

step-Plain :
    (e : Event) (s s' : System) (logged : Bytes)
    → IsSafe s
    → Plain logged s
    → length logged + length (line_of e) < large_buffer
    → step e s ≡ some s'
    → Plain (logged ++ line_of e) s'
unfolding step thread_func
step-Plain (log line) s s' logged safe plain room e = log-Plain s s' logged line safe plain room e
step-Plain thread s s' logged safe plain room e =
    rw (append-nil logged) (thread_from-Plain s.phase s s' logged safe plain safe.ready e)
step-Plain stop s s' logged safe plain room e = rw (append-nil logged) (
    carry (record s { logging = record s.logging { running = false } }) s' refl e
      (record { no_queue = plain.no_queue; short = plain.short; same = plain.same }))

lines-cons : (e : Event) (es : List Event) → lines (e ∷ es) ≡ line_of e ++ lines es
lines-cons (log line) es = refl
lines-cons thread es = refl
lines-cons stop es = refl

run-Plain :
    (es : List Event) (s s' : System) (logged : Bytes)
    → IsSafe s
    → Plain logged s
    → length logged + length (lines es) < large_buffer
    → run es s ≡ some s'
    → Plain (logged ++ lines es) s'
unfolding run
run-Plain [] s s' logged safe plain room e =
    rw (append-nil logged) (subst (Plain logged) (some-injective s s' e) plain)
run-Plain (ev ∷ es) s s' logged safe plain room e =
    let (t, here, safe_t) = step-Safe ev s safe in
    let size = ap length (lines-cons ev es) ∙ length-append (line_of ev) (lines es) in
    let plain_t = step-Plain ev s t logged safe plain (omega (arith, size)) here in
    let rest : run es t ≡ some s' = sym (rw (run, here) refl) ∙ e in
    let there =
      run-Plain es t s' (logged ++ line_of ev) safe_t plain_t
        (omega (arith, size, length-append logged (line_of ev))) rest in
    subst (λ b. Plain b s')
      (append_assoc logged (line_of ev) (lines es) ∙ ap (◌++◌ logged) (sym (lines-cons ev es)))
      there

-- While the lines of a run take less than one buffer together, nothing is lost and nothing changes
-- places: what LogFile was given, then what the back-end thread is about to give it, then the current
-- buffer, are the logged lines in the order of logging, wherever the thread stands.
pub run-content :
    (es : List Event)
    → length (lines es) < large_buffer
    → (s : System) × (run es started ≡ some s) × (content s ≡ lines es)
run-content es room =
    let (s, here, safe) = run-IsSafe es in
    (
      s,
      here,
      (run-Plain es started s [] started-IsSafe
          (record { no_queue = refl; short = omega arith; same = refl }) (omega arith) here).same,
    )
