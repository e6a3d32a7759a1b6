-- ===== src/Http/Handlers/Progress.antt =====
-- The phases of handleRead's block (net/HttpData.cpp) and the bytes of input that they leave.
use jinyi.Http.Analysis.Response.{analysis_request_keeps, analysis_request_outcome}
use jinyi.Http.Analysis.{Site, not_found}
use jinyi.Http.Conn.{Conn}
use jinyi.Http.Handlers.{is_finish}
use jinyi.Http.Headers.Consumed.{Shrunk, parse_headers-Shrinks}
use jinyi.Http.Phases.{
  Phase, leave, proceed, broken, then_phase, receive, uri_phase, headers_phase, analysis_phase,
}
use jinyi.Http.Reply.{handle_error, after_error, sprintf, error_reply, c_str}
use jinyi.Http.Types.{
  ProcessState, state_parse_uri, state_parse_headers, ParseState, h_start, HttpData,
}
use jinyi.Http.Uri.{cut_behind, parse_request_line, parse_target, parse_version, parse_uri}
use jinyi.Prelude.{
  ℕ, ◌+◌, ◌≤◌, ◌<◌, ◌≡◌, refl, ap, true, false, List, [], ◌∷◌, inl, inr, Option-cases, arith, Bytes,
  length, length-append, length-drop, codes, find_byte, take,
}
use jinyi.Util.Transfer.{pending, readn-Received}
use jinyi.Util.{
  Socket, WriteAnswer, room, write_interrupted, write_would_block, write_failed, ReadAnswer,
  write_loop, writen_raw, writen, readn,
}

-- The bytes in the input buffer and those that the kernel has yet to hand over.
abbrev pub weight : Conn → ℕ
weight c = length c.http.in_buffer + length (pending c.socket.incoming)

abbrev pub AllPhase : (Conn → Type 0) → (Conn → Type 0) → Phase → Type 0
AllPhase P Q (leave c) = P c
AllPhase P Q (proceed c) = Q c
AllPhase P Q broken = Unit

pub then_phase-AllPhase :
    (P Q R : Conn → Type 0) (ph : Phase) (next : Conn → Phase)
    → AllPhase P Q ph
    → ((c : Conn) → Q c → AllPhase P R (next c))
    → AllPhase P R (then_phase ph next)
then_phase-AllPhase P Q R (leave c) next h k = h
then_phase-AllPhase P Q R (proceed c) next h k = k c h
then_phase-AllPhase P Q R broken next h k = tt

-- No timer is linked, `n` bytes at most are left, and the two parse states are these.
pub record Held (n : ℕ) (st : ProcessState) (hs : ParseState) (c : Conn) : Type 0 where
  pub timer : c.http.timer_linked ≡ false
  pub small : weight c ≤ n
  pub state : c.http.state ≡ st
  pub h_state : c.http.h_state ≡ hs

pub record Bound (n : ℕ) (c : Conn) : Type 0 where
  pub timer : c.http.timer_linked ≡ false
  pub small : weight c ≤ n

write_loop-incoming :
    (ans : List WriteAnswer) (left : Bytes) (sum : ℕ) (sent : Bytes) (inc : List ReadAnswer)
    → (write_loop ans left sum sent inc).socket.incoming ≡ inc
unfolding write_loop
write_loop-incoming ans [] sum sent inc = refl
write_loop-incoming [] (b ∷ bs) sum sent inc = refl
write_loop-incoming (write_interrupted ∷ ans) (b ∷ bs) sum sent inc =
    write_loop-incoming ans (b ∷ bs) sum sent inc
write_loop-incoming (write_would_block ∷ ans) (b ∷ bs) sum sent inc = refl
write_loop-incoming (write_failed ∷ ans) (b ∷ bs) sum sent inc = refl
write_loop-incoming (room n ∷ ans) (b ∷ bs) sum sent inc = write_loop-incoming ans _ _ _ inc

pub writen-incoming : (s : Socket) (text : Bytes) → (writen s text).0.socket.incoming ≡ s.incoming
unfolding writen
writen-incoming s text = write_loop-incoming s.outgoing text 0 s.sent s.incoming

pub after_error-incoming :
    (n : ℕ) (msg : Bytes) (s : Socket) → (after_error n msg s).incoming ≡ s.incoming
unfolding after_error handle_error sprintf writen_raw
after_error-incoming n msg s =
    ground (arith, write_loop-incoming s.outgoing (c_str (error_reply n msg)) 0 s.sent s.incoming)

pub receive-Held :
    (n : ℕ) (st : ProcessState) (hs : ParseState) (c : Conn)
    → Held n st hs c
    → AllPhase (Held n st hs) (Held n st hs) (receive c)
unfolding receive
receive-Held n st hs c h =
    let r = readn c.socket c.http.in_buffer in
    let conserved = ap length (readn-Received c.socket c.http.in_buffer).conserved in
    ground (
      arith,
      conserved,
      length-append r.buffer (pending r.unread),
      length-append c.http.in_buffer (pending c.socket.incoming),
      after_error-incoming 400 (codes "Bad Request") (record c.socket { incoming = r.unread }),
    )

parse_request_line-Same :
    (d : HttpData) (line : Bytes)
    → (let d' = (parse_request_line d line).1 in
        (d'.timer_linked ≡ d.timer_linked)
        × (d'.state ≡ d.state)
        × (d'.in_buffer ≡ d.in_buffer)
        × (d'.h_state ≡ d.h_state))
unfolding parse_request_line parse_target parse_version
parse_request_line-Same d line = ground arith

parse_uri-Kept : (d : HttpData) → Shrunk d (parse_uri d).1 × ((parse_uri d).1.h_state ≡ d.h_state)
unfolding parse_uri
parse_uri-Kept d = elim (Option-cases (find_byte b'\r' d.now_read_pos d.in_buffer)) [
  | inl e ↦ rw (parse_uri, e) (record { timer = refl; state = refl; shorter = omega arith }, refl)
  | inr (p, e) ↦
      let cut = record d { in_buffer = cut_behind p d.in_buffer } in
      let same = parse_request_line-Same cut (take p d.in_buffer) in
      rw (parse_uri, e)
        (
          record {
            timer = same.0;
            state = same.1;
            shorter = ground (arith, ap length same.2, length-drop (p + 1) d.in_buffer);
          },
          same.3,
        )
]

pub uri_phase-Bound : (n : ℕ) (c : Conn) → Bound n c → AllPhase (Bound n) (Bound n) (uri_phase c)
unfolding uri_phase
uri_phase-Bound n c h = let k = parse_uri-Kept c.http in ground (arith, k.0.timer, k.0.shorter)

pub uri_phase-Held :
    (n : ℕ) (c : Conn)
    → Held n state_parse_uri h_start c
    → AllPhase (Held n state_parse_uri h_start) (Held n state_parse_headers h_start) (uri_phase c)
unfolding uri_phase
uri_phase-Held n c h =
    let k = parse_uri-Kept c.http in ground (arith, k.0.timer, k.0.state, k.0.shorter, k.1)

pub headers_phase-Bound :
    (n : ℕ) (c : Conn) → Bound n c → AllPhase (Bound n) (Bound n) (headers_phase c)
unfolding headers_phase
headers_phase-Bound n c h =
    ground
      (arith, parse_headers-Shrinks c.http, after_error-incoming 400 (codes "Bad Request") c.socket)

-- Left behind, with a request that is not finished unless fewer than `n` bytes are left.
pub record Left (n : ℕ) (c : Conn) : Type 0 where
  pub timer : c.http.timer_linked ≡ false
  pub ending : is_finish c.http.state ≡ true → weight c < n

pub record Shorter (n : ℕ) (c : Conn) : Type 0 where
  pub timer : c.http.timer_linked ≡ false
  pub less : weight c < n

pub headers_phase-Held :
    (n : ℕ) (c : Conn)
    → Held n state_parse_headers h_start c
    → AllPhase (Left n) (Shorter n) (headers_phase c)
unfolding headers_phase
headers_phase-Held n c h =
    ground
      (arith, parse_headers-Shrinks c.http, after_error-incoming 400 (codes "Bad Request") c.socket)

pub analysis_phase-Shorter :
    (n : ℕ) (site : Site) (c : Conn)
    → Shorter n c
    → AllPhase (Left n) (Left n) (analysis_phase site c)
unfolding analysis_phase
analysis_phase-Shorter n site c h = ground (
  arith,
  analysis_request_keeps site c.http c.socket,
  analysis_request_outcome site c.http c.socket,
  after_error-incoming 404 not_found c.socket,
)
