-- ===== src/Http/Handlers/Returns.antt =====
-- handleRead (net/HttpData.cpp) and its calls of itself.
use jinyi.Http.Analysis.{Site}
use jinyi.Http.Conn.{Conn, is_empty, handle_write}
use jinyi.Http.Handlers.Progress.{
  weight, AllPhase, Held, Left, writen-incoming, Bound, Shorter, then_phase-AllPhase, receive-Held,
  uri_phase-Bound, uri_phase-Held, headers_phase-Bound, headers_phase-Held, analysis_phase-Shorter,
}
use jinyi.Http.Handlers.{
  is_finish, Turn, stop, again, unfinished, undefined_turn, conclude_read, turn, Outcome,
  out_of_fuel, undefined_behaviour, done, handle_read,
}
use jinyi.Http.Phases.{Phase, leave, proceed, broken, receive, uri_phase, headers_phase, read_block}
use jinyi.Http.Reset.{reset_unlinked}
use jinyi.Http.Types.{ProcessState, ParseState, state_parse_uri, state_parse_headers, h_start}
use jinyi.Prelude.{ℕ, zero, suc, ◌+◌, ◌≤◌, ◌<◌, ◌≡◌, ◌≢◌, refl, true, false, arith, if◌then◌else◌}

AllPhase-map :
    (P Q R : Conn → Type 0) (ph : Phase)
    → ((c : Conn) → P c → Q c)
    → AllPhase P R ph
    → AllPhase Q R ph
AllPhase-map P Q R (leave c) f h = f c h
AllPhase-map P Q R (proceed c) f h = h
AllPhase-map P Q R broken f h = tt

Held-Left :
    (n : ℕ) (st : ProcessState) (hs : ParseState)
    → is_finish st ≡ false
    → (c : Conn) → Held n st hs c
    → Left n c
Held-Left n st hs f c h = record { timer = h.timer; ending = λ e. ground (arith, h.state) }

Bound-Left : (n : ℕ) (c : Conn) → Bound n c → Left (n + 1) c
Bound-Left n c h = record { timer = h.timer; ending = λ e. omega (arith, h.small) }

receive-Bound :
    (c : Conn)
    → c.http.timer_linked ≡ false
    → AllPhase (Bound (weight c)) (Bound (weight c)) (receive c)
receive-Bound c h = go (receive c) (
    receive-Held (weight c) c.http.state c.http.h_state c
      (record { timer = h; small = omega arith; state = refl; h_state = refl }))
  where
    go :
        (ph : Phase)
        → AllPhase
            (Held (weight c) c.http.state c.http.h_state)
            (Held (weight c) c.http.state c.http.h_state)
            ph
        → AllPhase (Bound (weight c)) (Bound (weight c)) ph
    go (leave c') k = record { timer = k.timer; small = k.small }
    go (proceed c') k = record { timer = k.timer; small = k.small }
    go broken k = tt

-- Behind the block, entered with `n` bytes: in any state, and at the start of a request.
read_block-Left :
    (site : Site) (c : Conn)
    → c.http.timer_linked ≡ false
    → AllPhase (Left (weight c + 1)) (Left (weight c + 1)) (read_block site c)
unfolding read_block
read_block-Left site c h =
    let n = weight c in
    let widen = AllPhase-map (Bound n) (Left (n + 1)) (Bound n) in
    then_phase-AllPhase (Left (n + 1)) (Bound n) (Left (n + 1)) (receive c) _
      (widen (receive c) (Bound-Left n) (receive-Bound c h))
      (λ c₁ h₁.
        then_phase-AllPhase (Left (n + 1)) (Bound n) (Left (n + 1)) (uri_phase c₁) _
          (widen (uri_phase c₁) (Bound-Left n) (uri_phase-Bound n c₁ h₁))
          (λ c₂ h₂.
            then_phase-AllPhase (Left (n + 1)) (Bound n) (Left (n + 1)) (headers_phase c₂) _
              (widen (headers_phase c₂) (Bound-Left n) (headers_phase-Bound n c₂ h₂))
              (λ c₃ h₃.
                analysis_phase-Shorter (n + 1) site c₃
                  (record { timer = h₃.timer; less = omega (arith, h₃.small) }))))

read_block-Ready :
    (n : ℕ) (site : Site) (c : Conn)
    → Held n state_parse_uri h_start c
    → AllPhase (Left n) (Left n) (read_block site c)
unfolding read_block
read_block-Ready n site c h =
    let start = Held n state_parse_uri h_start in
    let named = Held n state_parse_headers h_start in
    then_phase-AllPhase (Left n) start (Left n) (receive c) _
      (AllPhase-map start (Left n) start (receive c) (Held-Left n state_parse_uri h_start refl)
        (receive-Held n state_parse_uri h_start c h))
      (λ c₁ h₁.
        then_phase-AllPhase (Left n) named (Left n) (uri_phase c₁) _
          (AllPhase-map start (Left n) named (uri_phase c₁)
            (Held-Left n state_parse_uri h_start refl) (uri_phase-Held n c₁ h₁))
          (λ c₂ h₂.
            then_phase-AllPhase (Left n) (Shorter n) (Left n) (headers_phase c₂) _
              (headers_phase-Held n c₂ h₂) (λ c₃ h₃. analysis_phase-Shorter n site c₃ h₃)))

-- What a turn leaves for the next call.
abbrev Continues : ℕ → Turn → Type 0
Continues n (stop c) = Unit
Continues n (again c) = Held n state_parse_uri h_start c × (weight c < n)
Continues n unfinished = true ≡ false
Continues n undefined_turn = Unit

-- Writing leaves the rest alone.
flush-Left :
    (n : ℕ) (c : Conn)
    → Left n c
    → Left n (if is_empty c.http.out_buffer then c else handle_write c)
unfolding handle_write
flush-Left n c h = ground (arith, writen-incoming c.socket c.http.out_buffer)

conclude_read-Continues :
    (fuel n : ℕ) (c : Conn) → Left n c → Continues n (conclude_read (suc fuel) c)
unfolding conclude_read
conclude_read-Continues fuel n c h =
    let c' = if is_empty c.http.out_buffer then c else handle_write c in
    let h' = flush-Left n c h in ground (arith, h', reset_unlinked fuel c'.http h'.timer)

block-Continues :
    (fuel n : ℕ) (site : Site) (c : Conn)
    → AllPhase (Left n) (Left n) (read_block site c)
    → Continues n (turn (suc fuel) site c)
unfolding turn
block-Continues fuel n site c h = go (read_block site c) h
  where
    go :
        (ph : Phase)
        → AllPhase (Left n) (Left n) ph
        → Continues n (elim ph [
          | leave c' ↦ conclude_read (suc fuel) c'
          | proceed c' ↦ conclude_read (suc fuel) c'
          | broken ↦ undefined_turn
        ])
    go (leave c') k = conclude_read-Continues fuel n c' k
    go (proceed c') k = conclude_read-Continues fuel n c' k
    go broken k = tt

-- What a call does behind its turn.
abbrev call_again : ℕ → Site → Turn → Outcome
call_again fuel site (stop c) = done c
call_again fuel site (again c) = handle_read fuel site c
call_again fuel site unfinished = out_of_fuel
call_again fuel site undefined_turn = undefined_behaviour

handle_read-call_again :
    (fuel : ℕ) (site : Site) (c : Conn)
    → handle_read (suc fuel) site c ≡ call_again fuel site (turn (suc fuel) site c)
unfolding handle_read
handle_read-call_again fuel site c = refl

call_again_returns :
    (fuel n : ℕ) (site : Site) (t : Turn)
    → ((c : Conn)
        → Held n state_parse_uri h_start c
        → weight c < n
        → handle_read fuel site c ≢ out_of_fuel)
    → Continues n t
    → call_again fuel site t ≢ out_of_fuel
call_again_returns fuel n site (stop c) next h = λ e. ground arith
call_again_returns fuel n site (again c) next h = next c h.0 h.1
call_again_returns fuel n site unfinished next h = λ e. ground arith
call_again_returns fuel n site undefined_turn next h = λ e. ground arith

Held-weight :
    (n : ℕ) (c : Conn)
    → Held n state_parse_uri h_start c
    → Held (weight c) state_parse_uri h_start c
Held-weight n c h = record {
  timer = h.timer;
  small = omega arith;
  state = h.state;
  h_state = h.h_state;
}

handle_read-Ready :
    (fuel n : ℕ) (site : Site) (c : Conn)
    → n ≤ fuel
    → Held n state_parse_uri h_start c
    → handle_read (suc fuel) site c ≢ out_of_fuel
handle_read-Ready zero n site c m h = rw (handle_read-call_again zero site c) (
    call_again_returns zero n site _ (λ c' h' less. absurd (omega arith))
      (block-Continues zero n site c (read_block-Ready n site c h)))
handle_read-Ready (suc fuel) n site c m h = rw (handle_read-call_again (suc fuel) site c) (
    call_again_returns (suc fuel) n site _
      (λ c' h' less. handle_read-Ready fuel (weight c') site c' (omega arith) (Held-weight n c' h'))
      (block-Continues (suc fuel) n site c (read_block-Ready n site c h)))

-- With no timer linked handleRead does not call itself without end, in whatever state it is entered and
-- whatever was received: it returns, or meets undefined behaviour, and its calls of itself are at most
-- one more than the bytes in the input buffer and in the kernel.
pub handle_read_returns :
    (fuel : ℕ) (site : Site) (c : Conn)
    → c.http.timer_linked ≡ false
    → weight c + 2 ≤ fuel
    → handle_read fuel site c ≢ out_of_fuel
handle_read_returns zero site c h m = absurd (omega arith)
handle_read_returns (suc zero) site c h m = absurd (omega arith)
handle_read_returns (suc (suc fuel)) site c h m = rw (handle_read-call_again (suc fuel) site c) (
    call_again_returns (suc fuel) (weight c + 1) site _
      (λ c' h' less.
        handle_read-Ready fuel (weight c') site c' (omega arith) (Held-weight (weight c + 1) c' h'))
      (block-Continues (suc fuel) (weight c + 1) site c (read_block-Left site c h)))
