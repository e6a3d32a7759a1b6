-- ===== src/Util.antt =====
-- net/Util.cpp: reading and writing a whole socket, and setting one up.
-- The kernel's answers to read() and write() are the lists `incoming` and `outgoing`, consumed in
-- order; where a list has ended the call would block (EAGAIN). They stand for the system calls,
-- which are not part of the repository.
pub mod Transfer
pub mod Listen
use jinyi.Prelude.{
  ℕ, zero, suc, ◌+◌, ◌-◌, Bool, true, false, List, [], ◌∷◌, ◌++◌, Option, none, some, Bytes, length,
  take, drop, ◌==◌, if◌then◌else◌,
}
use Prim.Native.Nat.{min}

-- What one read() answers. `got []` is the end of the stream.
pub data ReadAnswer : Type 0 where
  got : Bytes → ReadAnswer
  read_interrupted read_would_block read_failed : ReadAnswer

-- What one write() answers. With room for `n` bytes it takes `min n nleft`, never more than asked.
pub data WriteAnswer : Type 0 where
  room : ℕ → WriteAnswer
  write_interrupted write_would_block write_failed : WriteAnswer

pub record Socket : Type 0 where
  pub incoming : List ReadAnswer
  pub outgoing : List WriteAnswer
  pub sent : Bytes

-- `none` is the result -1.
pub record ReadDone : Type 0 where
  pub count : Option ℕ
  pub buffer : Bytes
  pub zero_read : Bool
  pub unread : List ReadAnswer

-- The loop of `readn`, with `inBuffer` and `readSum`.
unfoldable pub read_loop : List ReadAnswer → Bytes → ℕ → ReadDone
read_loop [] buf sum = record { count = some sum; buffer = buf; zero_read = false; unread = [] }
read_loop (read_interrupted ∷ ans) buf sum = read_loop ans buf sum
read_loop (read_would_block ∷ ans) buf sum = record {
  count = some sum;
  buffer = buf;
  zero_read = false;
  unread = ans;
}
read_loop (read_failed ∷ ans) buf sum = record {
  count = none;
  buffer = buf;
  zero_read = false;
  unread = ans;
}
read_loop (got [] ∷ ans) buf sum = record {
  count = some sum;
  buffer = buf;
  zero_read = true;
  unread = ans;
}
read_loop (got (b ∷ bs) ∷ ans) buf sum = read_loop ans (buf ++ (b ∷ bs)) (sum + length (b ∷ bs))

unfoldable pub readn : Socket → Bytes → ReadDone
unfolding read_loop
readn s buf = read_loop s.incoming buf 0

pub record WriteDone : Type 0 where
  pub written : Option ℕ
  pub socket : Socket

-- The loop that both functions named `writen` share: `ptr` with `nleft` is the list still to write.
unfoldable pub write_loop : List WriteAnswer → Bytes → ℕ → Bytes → List ReadAnswer → WriteDone
write_loop ans [] sum sent inc = record {
  written = some sum;
  socket = record { incoming = inc; outgoing = ans; sent = sent };
}
write_loop [] (b ∷ bs) sum sent inc = record {
  written = some sum;
  socket = record { incoming = inc; outgoing = []; sent = sent };
}
write_loop (write_interrupted ∷ ans) (b ∷ bs) sum sent inc = write_loop ans (b ∷ bs) sum sent inc
write_loop (write_would_block ∷ ans) (b ∷ bs) sum sent inc = record {
  written = some sum;
  socket = record { incoming = inc; outgoing = ans; sent = sent };
}
write_loop (write_failed ∷ ans) (b ∷ bs) sum sent inc = record {
  written = none;
  socket = record { incoming = inc; outgoing = ans; sent = sent };
}
write_loop (room n ∷ ans) (b ∷ bs) sum sent inc =
    let nwritten = min n (length (b ∷ bs)) in
    write_loop ans (drop nwritten (b ∷ bs)) (sum + nwritten) (sent ++ take nwritten (b ∷ bs)) inc

-- `writen(int fd, void *buff, size_t n)`
unfoldable pub writen_raw : Socket → Bytes → WriteDone
unfolding write_loop
writen_raw s data' = write_loop s.outgoing data' 0 s.sent s.incoming

-- What is left in `sbuff`.
abbrev pub keep_rest : Option ℕ → Bytes → Bytes
keep_rest none sbuff = sbuff
keep_rest (some n) sbuff = if n == length sbuff then [] else drop n sbuff

-- `writen(int fd, std::string &sbuff)`: the result, and the string afterwards.
unfoldable pub writen : Socket → Bytes → WriteDone × Bytes
unfolding write_loop
writen s sbuff =
    let r = write_loop s.outgoing sbuff 0 s.sent s.incoming in (r, keep_rest r.written sbuff)
