-- ===== src/Log/Logger.antt =====
-- Logger (base/Logging.cpp, base/Logging.h): the line that one LOG statement builds, and where its
-- destructor sends it. What strftime writes for the time is given. `checks` is whether assertions are
-- compiled in. tidString and tidStringLength, which no file defines, are read as giving t_tidString and
-- t_tidStringLength.
-- The first call of `output` starts the AsyncLogging of this process once, and it stays.
use jinyi.Log.Async.{AsyncLogging, append, System}
use jinyi.Log.Async.Lines.{Stored, append-Stored}
use jinyi.Log.Async.Safe.{IsSafe}
use jinyi.Log.Convert.{convert, Is64}
use jinyi.Log.Stream.{
  FixedBuffer, Put, put_int, put_char, put_text, put_all, put, rendered, all_rendered, IsPut,
  small_buffer, put_all_lem, put_all-size,
}
use jinyi.Http.Reply.{c_str}
use jinyi.Prelude.Int.{ℤ}
use jinyi.Prelude.{
  ◌+◌, ◌<◌, ◌≡◌, refl, sym, ap, ◌∙◌, Option, none, some, ℕ, zero, suc, Bool, true, false, not, ◌&&◌,
  ◌==◌, if◌then◌else◌, take, List, [], ◌∷◌, ◌++◌, arith, Bytes, codes, length, All, All-append,
  append_assoc,
}

pub record Logger : Type 0 where
  pub stream : FixedBuffer
  pub basename : Bytes
  pub line : ℤ

abbrev pub empty_stream : FixedBuffer
empty_stream = record { size = small_buffer; text = [] }

-- `t_tidString`, an array of 32 bytes, and `t_tidStringLength`, of one thread. Their initial values stay:
-- cacheTid, which would set them, is never called, since tid() tests the 0 behind a comma.
pub record TidText : Type 0 where
  pub text : Bytes
  pub length_is : ℕ

abbrev zeros : ℕ → Bytes
zeros zero = []
zeros (suc n) = 0 ∷ zeros n

abbrev pub fresh_tid_text : TidText
fresh_tid_text = record { text = zeros 32; length_is = 6 }

-- The constructor of T, whose assertion compares strlen() with the length: `none` where it fails; and
-- what the operator appends.
unfoldable pub tid_operand : Bool → TidText → Option Put
unfolding c_str
tid_operand checks t =
    if checks && not (length (c_str t.text) == t.length_is)
    then none
    else some (put_text (some (take t.length_is t.text)))

-- Impl's constructor: the time by formatTime, then the thread's id; `none` at a failed assertion.
unfoldable pub new_logger : Bool → Bytes → Bytes → ℤ → Option Logger
unfolding tid_operand
new_logger checks time file line = elim (tid_operand checks fresh_tid_text) [
  | none ↦ none
  | some tid ↦ some (record {
    stream = put_all empty_stream (put_text (some time) ∷ tid ∷ []);
    basename = file;
    line = line;
  })
]

-- `LOG << a << b`
unfoldable pub write : Logger → List Put → Logger
write l ps = record l { stream = put_all l.stream ps }

-- What the destructor adds, and the text that it hands to `output`.
abbrev pub closing : Logger → List Put
closing l =
    put_text (some (codes " --"))
    ∷ put_text (some l.basename)
    ∷ put_char b':'
    ∷ put_int l.line
    ∷ put_char b'\n'
    ∷ []

unfoldable pub finished_line : Logger → Bytes
finished_line l = (put_all l.stream (closing l)).text

-- The destructor.
unfoldable pub destroy : Logger → AsyncLogging → Option AsyncLogging
unfolding finished_line
destroy l a = append a (finished_line l)

-- The six NUL bytes that stand for the thread's id.
abbrev pub no_tid : Bytes
no_tid = zeros 6

-- The line of a LOG statement in full.
abbrev pub whole_line : Bytes → Bytes → ℤ → List Put → Bytes
whole_line time file line ps =
    time
    ++ (no_tid
        ++ (all_rendered ps ++ (codes " --" ++ (file ++ (b':' ∷ (convert line ++ b'\n' ∷ []))))))

put_all-append :
    (b : FixedBuffer) (ps qs : List Put) → put_all b (ps ++ qs) ≡ put_all (put_all b ps) qs
unfolding put_all
put_all-append b [] qs = refl
put_all-append b (p ∷ ps) qs = put_all-append (put b p) ps qs

all_rendered-append :
    (ps qs : List Put) → all_rendered (ps ++ qs) ≡ all_rendered ps ++ all_rendered qs
all_rendered-append [] qs = refl
all_rendered-append (p ∷ ps) qs =
    ap (◌++◌ (rendered p)) (all_rendered-append ps qs)
    ∙ sym (append_assoc (rendered p) (all_rendered ps) (all_rendered qs))

abbrev opened : Bytes → Bytes → ℤ → Logger
opened time file line = record {
  stream = put_all empty_stream (put_text (some time) ∷ put_text (some no_tid) ∷ []);
  basename = file;
  line = line;
}

-- All that the constructor, the statement and the destructor write.
abbrev all_puts : Bytes → Bytes → ℤ → List Put → List Put
all_puts time file line ps =
    put_text (some time) ∷ put_text (some no_tid) ∷ (ps ++ closing (opened time file line))

finished_line-all_puts :
    (time file : Bytes) (line : ℤ) (ps : List Put)
    → finished_line (write (opened time file line) ps)
      ≡ (put_all empty_stream (all_puts time file line ps)).text
unfolding write finished_line put_all
finished_line-all_puts time file line ps =
    ap (λ b. b.text)
      (sym (
        put_all-append (put (put empty_stream (put_text (some time))) (put_text (some no_tid))) ps
          (closing (opened time file line))))

-- The line of a LOG statement is taken by AsyncLogging, and is whole where there is room.
pub record Logged (time file : Bytes) (line : ℤ) (ps : List Put) (a : AsyncLogging) (l : Logger)
    : Type 0 where
  pub taken :
      (a' : AsyncLogging) × (destroy (write l ps) a ≡ some a')
      × Stored (finished_line (write l ps)) a a'
  pub whole :
      length (whole_line time file line ps) + 32 < small_buffer
      → finished_line (write l ps) ≡ whole_line time file line ps

-- Every LOG statement fails the assertion of T where assertions are compiled in: t_tidString is empty,
-- and its length is taken for 6. Where they are not, the logger hands its line over, and AsyncLogging
-- takes it, if the line number and all integers are of at most 64 bits and doubles are written in less
-- than 32 bytes; and the line is whole, from the time and six NUL bytes for the thread's id to the line
-- end, where 32 bytes more than it fit the buffer.
pub destroy-Stored :
    (time file : Bytes) (line : ℤ) (ps : List Put) (s : System)
    → Is64 line
    → All IsPut ps
    → IsSafe s
    → (new_logger true time file line ≡ none)
      × (l : Logger) × (new_logger false time file line ≡ some l)
      × Logged time file line ps s.logging l
unfolding new_logger destroy
destroy-Stored time file line ps s line_ok puts_ok safe =
    let all = all_puts time file line ps in
    let end = closing (opened time file line) in
    let ok : All IsPut all =
      (tt, (tt, All-append IsPut ps end (tt, (tt, (tt, (line_ok, (tt, tt))))) puts_ok)) in
    let e = finished_line-all_puts time file line ps in
    let written = put_all_lem empty_stream all (omega arith) ok in
    let text : all_rendered all ≡ whole_line time file line ps =
      ap (λ t. time ++ (no_tid ++ t)) (all_rendered-append ps end) in
    (
      refl,
      opened time file line,
      refl,
      record {
        taken =
            append-Stored s (finished_line (write (opened time file line) ps)) safe (
              omega
                (arith, ap length e, written.0, put_all-size empty_stream all (omega arith) ok));
        whole = λ room. e ∙ written.1 (omega (arith, ap length text)) ∙ text;
      },
    )
