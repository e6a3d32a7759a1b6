-- ===== src/Log/Stream.antt =====
-- FixedBuffer and LogStream (base/LogStream.h, base/LogStream.cpp). A buffer is the text in front of
-- `cur_`; what `add` steps over is what `convert` or snprintf has just written there. The source's
-- `current()` has an empty body; it is read as returning `cur_`, which its callers need.
use jinyi.Log.Convert.{convert, Is64, length-convert}
use jinyi.Prelude.Int.{ℤ}
use jinyi.Prelude.{
  ℕ, ◌+◌, ◌-◌, ◌*◌, ◌<◌, ◌≤◌, ◌≡◌, refl, sym, ap, ◌∙◌, ◌⊎◌, Bool, true, false, Option, none, some,
  List, [], ◌∷◌, ◌++◌, arith, Bytes, codes, length, ltb, leb, if◌then◌else◌, All, append-nil,
  append_assoc, length-append,
}

pub record FixedBuffer : Type 0 where
  pub size : ℕ
  pub text : Bytes

-- `int`, and so below zero if `cur_` has left the array; the invariant below excludes that.
abbrev pub avail : FixedBuffer → ℕ
avail b = b.size - length b.text

unfoldable pub append : FixedBuffer → Bytes → FixedBuffer
append b buf = if ltb (length buf) (avail b) then record b { text = b.text ++ buf } else b

-- The bytes written at `current()`, and `add` of their number.
unfoldable pub add : FixedBuffer → Bytes → FixedBuffer
add b written = record b { text = b.text ++ written }

unfoldable pub reset : FixedBuffer → FixedBuffer
reset b = record b { text = [] }

abbrev pub small_buffer : ℕ
small_buffer = 4000

abbrev pub large_buffer : ℕ
large_buffer = 4000 * 1000

abbrev pub max_numeric_size : ℕ
max_numeric_size = 32

unfoldable pub formate_integer : FixedBuffer → ℤ → FixedBuffer
unfolding add
formate_integer b v = if leb max_numeric_size (avail b) then add b (convert v) else b

-- `operator<<(double)`: what snprintf("%.12g") writes is not part of the repository, and is given.
unfoldable pub put_double : FixedBuffer → Bytes → FixedBuffer
unfolding add
put_double b formatted = if ltb max_numeric_size (avail b) then add b formatted else b

-- The operators of LogStream, by the type of their operand. The narrower integers are cast to a
-- wider one, and so are `put_int`; a null `const char *` is `put_text none`.
pub data Put : Type 0 where
  put_bool : Bool → Put
  put_int : ℤ → Put
  put_float : Bytes → Put
  put_char : ℕ → Put
  put_text : Option Bytes → Put

unfoldable pub put : FixedBuffer → Put → FixedBuffer
unfolding append formate_integer put_double
put b (put_bool true) = append b (codes "1")
put b (put_bool false) = append b (codes "0")
put b (put_int v) = formate_integer b v
put b (put_float formatted) = put_double b formatted
put b (put_char c) = append b (c ∷ [])
put b (put_text none) = append b (codes "(null)")
put b (put_text (some s)) = append b s

-- `stream << a << b << ...`
unfoldable pub put_all : FixedBuffer → List Put → FixedBuffer
put_all b [] = b
put_all b (p ∷ ps) = put_all (put b p) ps

-- The text of an operand.
abbrev pub rendered : Put → Bytes
rendered (put_bool true) = codes "1"
rendered (put_bool false) = codes "0"
rendered (put_int v) = convert v
rendered (put_float formatted) = formatted
rendered (put_char c) = c ∷ []
rendered (put_text none) = codes "(null)"
rendered (put_text (some s)) = s

-- Integers of at most 64 bits; snprintf wrote less than the 32 bytes that it may use.
abbrev pub IsPut : Put → Type 0
IsPut (put_int v) = Is64 v
IsPut (put_float formatted) = length formatted < max_numeric_size
IsPut _ = Unit

-- `cur_` does not leave the array.
abbrev pub Fits : FixedBuffer → Type 0
Fits b = length b.text ≤ b.size

-- An operand is written whole or not at all, and fits; it is written where 32 bytes more than its
-- text are free.
record Written (b : FixedBuffer) (p : Put) (b' : FixedBuffer) : Type 0 where
  fits : Fits b'
  same_size : b'.size ≡ b.size
  whole : (b'.text ≡ b.text ++ rendered p) ⊎ (b'.text ≡ b.text)
  room : length b.text + length (rendered p) + 32 < b.size → b'.text ≡ b.text ++ rendered p

append-Written :
    (b : FixedBuffer) (s : Bytes)
    → Fits b
    → (Fits (append b s))
      × ((append b s).size ≡ b.size)
      × (((append b s).text ≡ b.text ++ s) ⊎ ((append b s).text ≡ b.text))
      × (length b.text + length s + 32 < b.size → (append b s).text ≡ b.text ++ s)
unfolding append
append-Written b s f = ground (arith, length-append b.text s)

put-Written : (b : FixedBuffer) (p : Put) → Fits b → IsPut p → Written b p (put b p)
unfolding put
put-Written b (put_bool true) f h = ground (arith, length-append b.text (codes "1"))
put-Written b (put_int v) f h = ground (arith, length-append b.text (convert v), length-convert v)
put-Written b p f h = ground (arith, length-append b.text (rendered p))

abbrev pub all_rendered : List Put → Bytes
all_rendered [] = []
all_rendered (p ∷ ps) = rendered p ++ all_rendered ps

-- Whatever is written, `cur_` stays within the array, and while the text with 32 bytes more fits
-- nothing is dropped: the buffer holds all operands in order.
pub put_all_lem :
    (b : FixedBuffer) (ps : List Put)
    → Fits b
    → All IsPut ps
    → (Fits (put_all b ps))
      × (length b.text + length (all_rendered ps) + 32 < b.size
          → (put_all b ps).text ≡ b.text ++ all_rendered ps)
unfolding put_all
put_all_lem b [] f h = (f, λ lt. sym (append-nil b.text))
put_all_lem b (p ∷ ps) f h =
    let w = put-Written b p f h.0 in
    let later = put_all_lem (put b p) ps w.fits h.1 in
    (
      later.0,
      λ lt.
          let sizes = length-append (rendered p) (all_rendered ps) in
          let here = w.room (omega (arith, sizes)) in
          later.1
            (omega (arith, sizes, ap length here, length-append b.text (rendered p), w.same_size))
          ∙ ap (λ t. t ++ all_rendered ps) here
          ∙ append_assoc b.text (rendered p) (all_rendered ps),
    )

put-size : (b : FixedBuffer) (p : Put) → Fits b → IsPut p → (put b p).size ≡ b.size
put-size b p f h = (put-Written b p f h).same_size

pub put_all-size :
    (b : FixedBuffer) (ps : List Put) → Fits b → All IsPut ps → (put_all b ps).size ≡ b.size
unfolding put_all
put_all-size b [] f h = refl
put_all-size b (p ∷ ps) f h =
    put_all-size (put b p) ps (put-Written b p f h.0).fits h.1 ∙ put-size b p f h.0
