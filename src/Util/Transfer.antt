-- ===== src/Util/Transfer.antt =====
-- `readn` and `writen` neither lose nor reorder bytes, whatever the kernel answers.
use Prim.Native.Nat.{min}
use jinyi.Prelude.{
  ℕ, ◌+◌, ◌≡◌, refl, sym, ap, ◌∙◌, List, [], ◌∷◌, ◌++◌, none, some, arith, Bytes, length, take,
  drop, append_assoc, append-nil, length-append, take-add, drop-all,
}
use jinyi.Util.{
  ReadAnswer, got, read_interrupted, read_would_block, read_failed, WriteAnswer, room,
  write_interrupted, write_would_block, write_failed, Socket, ReadDone, read_loop, readn, WriteDone,
  write_loop, writen_raw, writen, keep_rest,
}

-- The bytes that the kernel has yet to hand over.
abbrev pub pending : List ReadAnswer → Bytes
pending [] = []
pending (got bs ∷ ans) = bs ++ pending ans
pending (read_interrupted ∷ ans) = pending ans
pending (read_would_block ∷ ans) = pending ans
pending (read_failed ∷ ans) = pending ans

-- The buffer has grown by the next pending bytes, and the result, if it is not -1, is their number.
pub record Received (buf : Bytes) (sum : ℕ) (ans : List ReadAnswer) (r : ReadDone) : Type 0 where
  pub conserved : r.buffer ++ pending r.unread ≡ buf ++ pending ans
  pub counted : (n : ℕ) → r.count ≡ some n → length r.buffer + sum ≡ length buf + n

read_loop-Received :
    (ans : List ReadAnswer) (buf : Bytes) (sum : ℕ) → Received buf sum ans (read_loop ans buf sum)
unfolding read_loop
read_loop-Received [] buf sum = record { conserved = refl; counted = λ n e. ground arith }
read_loop-Received (read_interrupted ∷ ans) buf sum =
    let r = read_loop-Received ans buf sum in
    record { conserved = r.conserved; counted = r.counted }
read_loop-Received (read_would_block ∷ ans) buf sum = record {
  conserved = refl;
  counted = λ n e. ground arith;
}
read_loop-Received (read_failed ∷ ans) buf sum = record { conserved = refl; counted = λ n e. cc }
read_loop-Received (got [] ∷ ans) buf sum = record {
  conserved = refl;
  counted = λ n e. ground arith;
}
read_loop-Received (got (b ∷ bs) ∷ ans) buf sum =
    let r = read_loop-Received ans (buf ++ (b ∷ bs)) (sum + length (b ∷ bs)) in
    record {
      conserved = r.conserved ∙ append_assoc buf (b ∷ bs) (pending ans);
      counted = λ n e. omega (arith, r.counted n e, length-append buf (b ∷ bs));
    }

-- Whatever the kernel answers, `readn` appends the next pending bytes in order, also when it fails
-- with -1, and a result other than -1 is the number of bytes that it appended.
pub readn-Received : (s : Socket) (buf : Bytes) → Received buf 0 s.incoming (readn s buf)
unfolding readn
readn-Received s buf = read_loop-Received s.incoming buf 0

-- The first `gone` bytes of `left` went out, and the result, if it is not -1, counts them too.
pub record Transmitted (left : Bytes) (sum : ℕ) (sent : Bytes) (r : WriteDone) : Type 0 where
  pub gone : ℕ
  pub ordered : r.socket.sent ≡ sent ++ take gone left
  pub counted : (n : ℕ) → r.written ≡ some n → n ≡ sum + gone

write_loop-Transmitted :
    (ans : List WriteAnswer) (left : Bytes) (sum : ℕ) (sent : Bytes) (inc : List ReadAnswer)
    → Transmitted left sum sent (write_loop ans left sum sent inc)
unfolding write_loop
write_loop-Transmitted ans [] sum sent inc = record {
  gone = 0;
  ordered = sym (append-nil sent);
  counted = λ n e. ground arith;
}
write_loop-Transmitted [] (b ∷ bs) sum sent inc = record {
  gone = 0;
  ordered = sym (append-nil sent);
  counted = λ n e. ground arith;
}
write_loop-Transmitted (write_interrupted ∷ ans) (b ∷ bs) sum sent inc =
    let r = write_loop-Transmitted ans (b ∷ bs) sum sent inc in
    record { gone = r.gone; ordered = r.ordered; counted = r.counted }
write_loop-Transmitted (write_would_block ∷ ans) (b ∷ bs) sum sent inc = record {
  gone = 0;
  ordered = sym (append-nil sent);
  counted = λ n e. ground arith;
}
write_loop-Transmitted (write_failed ∷ ans) (b ∷ bs) sum sent inc = record {
  gone = 0;
  ordered = sym (append-nil sent);
  counted = λ n e. cc;
}
write_loop-Transmitted (room n ∷ ans) (b ∷ bs) sum sent inc =
    let left = b ∷ bs in
    let k = min n (length left) in
    let r = write_loop-Transmitted ans (drop k left) (sum + k) (sent ++ take k left) inc in
    record {
      gone = k + r.gone;
      ordered =
          r.ordered
          ∙ append_assoc sent (take k left) (take r.gone (drop k left))
          ∙ ap (◌++◌ sent) (sym (take-add k r.gone left));
      counted = λ m e. omega (arith, r.counted m e);
    }

keep_rest-drop : (n : ℕ) (sbuff : Bytes) → keep_rest (some n) sbuff ≡ drop n sbuff
keep_rest-drop n sbuff = ground (arith, drop-all n sbuff)

-- A result n of the `writen` on strings means that the peer was sent the first n bytes of the
-- string and that the string keeps exactly the others; on -1 the string is unchanged.
pub writen_lem :
    (s : Socket) (sbuff : Bytes)
    → ((n : ℕ)
        → (writen s sbuff).0.written ≡ some n
        → ((writen s sbuff).0.socket.sent ≡ s.sent ++ take n sbuff)
          × ((writen s sbuff).1 ≡ drop n sbuff))
      × ((writen s sbuff).0.written ≡ none → (writen s sbuff).1 ≡ sbuff)
unfolding writen
writen_lem s sbuff =
    let r = write_loop-Transmitted s.outgoing sbuff 0 s.sent s.incoming in
    let result = write_loop s.outgoing sbuff 0 s.sent s.incoming in
    (
      λ n e. (
        let gone_eq : r.gone ≡ n = omega (arith, r.counted n e) in rw (← gone_eq) r.ordered,
        rw e (keep_rest-drop n sbuff),
      ),
      λ e. rw e,
    )

-- Both functions named `writen` send the same bytes and give the same result.
pub writen-writen_raw : (s : Socket) (sbuff : Bytes) → (writen s sbuff).0 ≡ writen_raw s sbuff
unfolding writen writen_raw
writen-writen_raw s sbuff = refl

-- The same of the `writen` on raw memory.
pub writen_raw-Transmitted :
    (s : Socket) (text : Bytes) → Transmitted text 0 s.sent (writen_raw s text)
unfolding writen_raw
writen_raw-Transmitted s text = write_loop-Transmitted s.outgoing text 0 s.sent s.incoming
