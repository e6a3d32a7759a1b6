-- ===== src/Log/Async.antt =====
-- AsyncLogging (base/AsyncLogging.cpp, base/AsyncLogging.h): the front end that all threads call and
-- the back-end thread. The shared buffers are objects in a store: a `BufferPtr` is `none` when it is
-- null, and otherwise an address. The steps of a run are the critical sections and the thread's code
-- between them, in any order. A failed assertion and the use of a null pointer are `none`.
pub mod Run
pub mod Safe
pub mod Refill
pub mod Sections
pub mod Thread
pub mod Lines
pub mod Output
use jinyi.Log.Stream.{FixedBuffer, avail, large_buffer, reset}
use jinyi.Log.Stream.{append as append_text}
use jinyi.Prelude.{
  ℕ, ◌+◌, Bool, true, false, ◌&&◌, Option, none, some, List, [], ◌∷◌, ◌++◌, Bytes, length, take,
  ltb, ◌==◌, if◌then◌else◌,
}

pub record AsyncLogging : Type 0 where
  pub heap : ℕ → FixedBuffer
  -- the address of the next `new Buffer`
  pub fresh : ℕ
  pub running : Bool
  pub current_buffer : Option ℕ
  pub next_buffer : Option ℕ
  pub buffers : List ℕ

abbrev pub new_buffer : FixedBuffer
new_buffer = record { size = large_buffer; text = [] }

abbrev pub set_at : (ℕ → FixedBuffer) → ℕ → FixedBuffer → ℕ → FixedBuffer
set_at heap p b q = if q == p then b else heap q

-- `currentBuffer_->append(logline,len)` with `currentBuffer_` at `p`.
abbrev pub append_at : AsyncLogging → ℕ → Bytes → AsyncLogging
append_at a p line = record a { heap = set_at a.heap p (append_text (a.heap p) line) }

-- The end of the second branch. `currentBuffer_->reset(new Buffer)` is read as the reset of the
-- pointer, the only one that takes an argument.
abbrev pub append_next : AsyncLogging → Option ℕ → Bytes → AsyncLogging
append_next a (some q) line =
    append_at (record a { current_buffer = some q; next_buffer = none }) q line
append_next a none line =
    append_at
      (record a {
        heap = set_at a.heap a.fresh new_buffer;
        fresh = a.fresh + 1;
        current_buffer = some a.fresh;
      })
      a.fresh line

-- `append`. The reset behind push_back is the buffer's own.
abbrev pub append_full : AsyncLogging → ℕ → Bytes → AsyncLogging
append_full a p line =
    append_next
      (record a { buffers = a.buffers ++ p ∷ []; heap = set_at a.heap p (reset (a.heap p)) })
      a.next_buffer line

unfoldable pub append : AsyncLogging → Bytes → Option AsyncLogging
append a line = elim a.current_buffer [
  | none ↦ none
  | some p ↦
      if ltb (length line) (avail (a.heap p))
      then some (append_at a p line)
      else some (append_full a p line)
]

-- Where the back-end thread stands: at its loop's condition, in waitForSeconds, behind its critical
-- section, or behind the loop.
pub data Phase : Type 0 where
  at_top : Phase
  waiting : Phase
  collected : Phase
  finished : Phase

pub record System : Type 0 where
  pub logging : AsyncLogging
  pub phase : Phase
  pub new_buffer1 : Option ℕ
  pub new_buffer2 : Option ℕ
  pub buffers_to_write : List ℕ
  -- the calls of LogFile::append, which is not part of the repository
  pub output : List Bytes

abbrev pub is_none : Option ℕ → Bool
is_none none = true
is_none (some p) = false

-- The critical section behind the wait, with `currentBuffer_` at `p`.
abbrev pub collect_from : System → ℕ → System
collect_from s p =
    let a = s.logging in
    let short = is_none a.next_buffer in
    record s {
      phase = collected;
      new_buffer1 = none;
      new_buffer2 = if short then none else s.new_buffer2;
      buffers_to_write = a.buffers ++ p ∷ [];
      logging = record a {
        current_buffer = s.new_buffer1;
        next_buffer = if short then s.new_buffer2 else a.next_buffer;
        buffers = s.buffers_to_write;
      };
    }

unfoldable pub collect : System → Option System
collect s = elim s.logging.current_buffer [ none ↦ none | some p ↦ some (collect_from s p) ]

-- `back` and what `pop_back` leaves, for a vector that is not empty.
abbrev pub back : ℕ → List ℕ → ℕ
back p [] = p
back p (q ∷ qs) = back q qs

abbrev pub pop_back : ℕ → List ℕ → List ℕ
pop_back p [] = []
pop_back p (q ∷ qs) = p ∷ pop_back q qs

-- A missing new buffer is taken from the back of `buffersToWrite`, and emptied.
unfoldable pub refill :
    Option ℕ → List ℕ → (ℕ → FixedBuffer) → Option (ℕ × List ℕ × (ℕ → FixedBuffer))
refill (some p) ps heap = some (p, ps, heap)
refill none [] heap = none
refill none (q ∷ qs) heap =
    let p = back q qs in some (p, pop_back q qs, set_at heap p (reset (heap p)))

abbrev pub dropped_to_two : ℕ → List ℕ → List ℕ
dropped_to_two bound ps = if ltb bound (length ps) then take 2 ps else ps

abbrev pub texts : (ℕ → FixedBuffer) → List ℕ → List Bytes
texts heap [] = []
texts heap (p ∷ ps) = (heap p).text ∷ texts heap ps

abbrev pub refilled : System → ℕ × List ℕ × (ℕ → FixedBuffer) → ℕ → System
refilled s (p, ps, heap) q = record s {
  phase = at_top;
  new_buffer1 = some q;
  new_buffer2 = some p;
  buffers_to_write = [];
  logging = record s.logging { heap = heap };
}

unfoldable pub refill_second : System → ℕ × List ℕ × (ℕ → FixedBuffer) → Option System
refill_second s (q, ps, heap) = elim (refill s.new_buffer2 ps heap) [
  | none ↦ none
  | some r ↦ some (refilled s r q)
]

-- From the critical section to the end of the loop's body.
unfoldable pub write_out : System → Option System
unfolding refill_second
write_out s =
    let ps = dropped_to_two 25 s.buffers_to_write in
    let written = record s { output = s.output ++ texts s.logging.heap ps } in
    elim (refill s.new_buffer1 (dropped_to_two 2 ps) s.logging.heap) [
      | none ↦ none
      | some r ↦ refill_second written r
    ]

-- `p && p->length() == 0`
abbrev pub is_blank : (ℕ → FixedBuffer) → Option ℕ → Bool
is_blank heap none = false
is_blank heap (some p) = length (heap p).text == 0

abbrev pub is_empty : List ℕ → Bool
is_empty [] = true
is_empty (p ∷ ps) = false

unfoldable pub thread_from : Phase → System → Option System
thread_from at_top s =
    if s.logging.running
    then if is_blank s.logging.heap s.new_buffer1
        && is_blank s.logging.heap s.new_buffer2
        && is_empty s.buffers_to_write
      then if is_empty s.logging.buffers then some (record s { phase = waiting }) else collect s
      else none
    else some (record s { phase = finished })
thread_from waiting s = collect s
thread_from collected s = if is_empty s.buffers_to_write then none else write_out s
thread_from finished s = some s

unfoldable pub thread_func : System → Option System
unfolding thread_from
thread_func s = thread_from s.phase s
