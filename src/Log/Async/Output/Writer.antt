-- ===== src/Log/Async/Output/Writer.antt =====
-- The back-end thread (base/AsyncLogging.cpp) and the content of the log.
use mathlib.Core.Option.{some-injective, none-ne-some}
use mathlib.Core.Path.{subst, ap₂}
use jinyi.Log.Async.{
  AsyncLogging, set_at, at_top, waiting, collected, finished, Phase, System, collect_from, collect,
  refill, refilled, texts, write_out, is_blank, is_empty, thread_from,
}
use jinyi.Log.Async.Lines.{current_text, text_at}
use jinyi.Log.Async.Safe.{missing, IsSafe, Ready}
use jinyi.Log.Async.Thread.{is_empty-some}
use jinyi.Log.Stream.{reset}
use jinyi.Prelude.{
  ℕ, ◌+◌, ◌≤◌, ◌≡◌, refl, sym, ap, ◌∙◌, true, ◌&&◌, Option, none, some, List, [], ◌∷◌, ◌++◌, arith,
  Bytes, length, length-append, append-nil, append_assoc, Option-cases, Bool-cases, inl, inr,
}
use jinyi.Log.Async.Output.Content.{
  content, joined, Plain, joined-append, hit_self, length-nil, carry, blank-text, text_at-set_at,
}

collect-content :
    (s : System) (logged : Bytes) (p : ℕ)
    → s.logging.current_buffer ≡ some p
    → IsSafe s
    → missing s.new_buffer1 ≤ 0
    → length s.buffers_to_write ≤ 0
    → Plain logged s
    → content (collect_from s p) ≡ logged
collect-content s logged p ep safe news none_left plain =
    let a = s.logging in
    let out = joined s.output in
    let blank =
      blank-text (collect_from s p).logging s.new_buffer1 news
        (λ i h. safe.owned.queue i (omega arith)) in
    let taken =
      ap (λ b. joined (texts a.heap (b ++ p ∷ []))) plain.no_queue ∙ append-nil (a.heap p).text in
    let before : content s ≡ out ++ (a.heap p).text =
      ap₂ (λ tw t. out ++ (joined (texts a.heap tw) ++ t)) (length-nil s.buffers_to_write none_left)
        (ap (text_at a) ep) in
    ap₂ (λ x y. out ++ (x ++ y)) taken blank
    ∙ ap (◌++◌ out) (append-nil (a.heap p).text)
    ∙ sym before
    ∙ plain.same

-- The critical section of the back-end thread, with an empty vector to swap in.
collect-Plain :
    (s s' : System) (logged : Bytes)
    → IsSafe s
    → Plain logged s
    → missing s.new_buffer1 ≤ 0
    → length s.buffers_to_write ≤ 0
    → collect s ≡ some s'
    → Plain logged s'
unfolding collect
collect-Plain s s' logged safe plain news none_left e =
    elim (Option-cases s.logging.current_buffer) [
      | inl n ↦ absurd (omega (arith, safe.owned.present, ap missing n))
      | inr (p, ep) ↦ carry (collect_from s p) s' (rw ep refl) e (record {
        no_queue = length-nil s.buffers_to_write none_left;
        short = omega (arith, ap length plain.no_queue, length-append s.logging.buffers (p ∷ []));
        same = collect-content s logged p ep safe news none_left plain;
      })
    ]

abbrev sys : AsyncLogging → Phase → Option ℕ → Option ℕ → List ℕ → List Bytes → System
sys a ph n1 n2 tw out = record {
  logging = a;
  phase = ph;
  new_buffer1 = n1;
  new_buffer2 = n2;
  buffers_to_write = tw;
  output = out;
}

-- The texts of the buffer at `p` and of the current buffer `t`, before and behind the writing.
written-content :
    (out : List Bytes) (x t t' : Bytes)
    → t' ≡ t
    → joined (out ++ x ∷ []) ++ t' ≡ joined out ++ ((x ++ []) ++ t)
written-content out x t t' e =
    ap₂ ◌++◌ (joined-append out x) e
    ∙ append_assoc (joined out) x t
    ∙ ap (λ y. joined out ++ (y ++ t)) (sym (append-nil x))

abbrev written_sys : AsyncLogging → Phase → Option ℕ → Option ℕ → ℕ → List Bytes → System
written_sys a ph n1 n2 p out = sys a ph n1 n2 (p ∷ []) (out ++ (a.heap p).text ∷ [])

emptied-Plain :
    (s' : System) (logged : Bytes) (a : AsyncLogging) (p y x : ℕ) (out : List Bytes) (ph : Phase)
    (n1 n2 : Option ℕ)
    → IsSafe (sys a ph n1 n2 (p ∷ []) out)
    → Plain logged (sys a ph n1 n2 (p ∷ []) out)
    → some (refilled (written_sys a ph n1 n2 p out) (y, [], set_at a.heap p (reset (a.heap p))) x)
      ≡ some s'
    → Plain logged s'
emptied-Plain s' logged a p y x out ph n1 n2 safe plain e =
    carry (refilled (written_sys a ph n1 n2 p out) (y, [], set_at a.heap p (reset (a.heap p))) x) s'
      refl e
      (record {
        no_queue = plain.no_queue;
        short = omega arith;
        same =
            written-content out (a.heap p).text (current_text a) _ (
              text_at-set_at a a.current_buffer p (reset (a.heap p))
                (omega (arith, safe.owned.once p, hit_self p)))
            ∙ plain.same;
      })

write_out-Plain :
    (s' : System) (logged : Bytes) (a : AsyncLogging) (ph : Phase) (n1 n2 : Option ℕ) (tw : List ℕ)
    (out : List Bytes)
    → IsSafe (sys a ph n1 n2 tw out)
    → Plain logged (sys a ph n1 n2 tw out)
    → missing n1 + missing n2 ≤ length tw
    → 1 ≤ length tw
    → write_out (sys a ph n1 n2 tw out) ≡ some s'
    → Plain logged s'
unfolding write_out refill reset
write_out-Plain s' logged a ph n1 n2 [] out safe plain m1 m2 e = absurd (omega arith)
write_out-Plain s' logged a ph n1 n2 (p ∷ q ∷ qs) out safe plain m1 m2 e =
    absurd (omega (arith, plain.short))
write_out-Plain s' logged a ph none none (p ∷ []) out safe plain m1 m2 e = absurd (omega arith)
write_out-Plain s' logged a ph none (some y) (p ∷ []) out safe plain m1 m2 e =
    emptied-Plain s' logged a p y p out ph none (some y) safe plain e
write_out-Plain s' logged a ph (some x) none (p ∷ []) out safe plain m1 m2 e =
    emptied-Plain s' logged a p p x out ph (some x) none safe plain e
write_out-Plain s' logged a ph (some x) (some y) (p ∷ []) out safe plain m1 m2 e =
    carry (refilled (written_sys a ph (some x) (some y) p out) (y, p ∷ [], a.heap) x) s' refl e
      (record {
        no_queue = plain.no_queue;
        short = omega arith;
        same = written-content out (a.heap p).text (current_text a) _ refl ∙ plain.same;
      })

pub thread_from-Plain :
    (ph : Phase) (s s' : System) (logged : Bytes)
    → IsSafe s
    → Plain logged s
    → Ready ph s.new_buffer1 s.new_buffer2 s.buffers_to_write
    → thread_from ph s ≡ some s'
    → Plain logged s'
unfolding thread_from
thread_from-Plain at_top s s' logged safe plain ready e =
    let idle : is_empty s.logging.buffers ≡ true = ap is_empty plain.no_queue in
    let asserted =
      is_blank s.logging.heap s.new_buffer1
      && is_blank s.logging.heap s.new_buffer2
      && is_empty s.buffers_to_write in
    elim (Bool-cases s.logging.running) [
      | inl on ↦ elim (Bool-cases asserted) [
        | inl ok ↦
            carry (record s { phase = waiting }) s' (ground (arith, on, ok, idle)) e
              (record { no_queue = plain.no_queue; short = plain.short; same = plain.same })
        | inr fails ↦
            let stuck : thread_from at_top s ≡ none = ground (arith, on, fails) in
            absurd (none-ne-some s' (sym stuck ∙ e))
      ]
      | inr off ↦
          carry (record s { phase = finished }) s' (ground (arith, off)) e
            (record { no_queue = plain.no_queue; short = plain.short; same = plain.same })
    ]
thread_from-Plain waiting s s' logged safe plain ready e =
    collect-Plain s s' logged safe plain (omega (arith, ready.0)) ready.1 e
thread_from-Plain collected s s' logged safe plain ready e =
    let here : thread_from collected s ≡ write_out s =
      rw (thread_from, is_empty-some s.buffers_to_write ready.1) refl in
    write_out-Plain s' logged s.logging s.phase s.new_buffer1 s.new_buffer2 s.buffers_to_write
      s.output safe plain ready.0 ready.1 (sym here ∙ e)
thread_from-Plain finished s s' logged safe plain ready e =
    subst (Plain logged) (some-injective s s' e) plain
