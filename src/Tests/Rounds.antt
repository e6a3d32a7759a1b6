-- ===== src/Tests/Rounds.antt =====
-- One round of the loop with two connections, one of which asks to be kept.
use jinyi.Http.Conn.{Conn, default_event}
use jinyi.Http.Handlers.Request.{IsIdle, Request, request_text}
use jinyi.Http.Types.{new_http_data, lookup, insert}
use jinyi.Loop.Poller.{Epoll, wait_error, ready}
use jinyi.Loop.Poller.Coherent.{IsCoherent}
use jinyi.Loop.Serving.Opened.{open_connection, IsUnused, Opened, open_connection-Opened}
use jinyi.Loop.Serving.Rounds.{Loop, loop_round}
use jinyi.Loop.Serving.Rounds.Arrivals.{HasRequest, IsServed, Untouched}
use jinyi.Loop.Serving.Rounds.Answers.{Served, serve_rounds-Served}
use jinyi.Loop.Serving.Rounds.Many.{delivered, one_round, serve_rounds, IsServing}
use jinyi.Http.Analysis.{asks_keep_alive}
use mathlib.Core.Option.{some-injective}
use mathlib.Core.Path.{subst}
use jinyi.Loop.Serving.Rounds.Found.{Arrival, report}
use jinyi.Loop.Serving.Rounds.Served.{loop_round-Served}
use jinyi.Loop.Serving.Registered.{Listening}
use mathlib.Core.List.{map}
use jinyi.Prelude.{
  ℕ, ◌≡◌, refl, sym, ◌∙◌, true, false, none, some, [], ◌∷◌, arith, All, ◌==◌, if◌then◌else◌,
  Bool-cases, bytes_eq, inl, inr,
}
use jinyi.Tests.Data.{get_a, one_file, wide}
use jinyi.Tests.Session.{
  keep_a, get_a-IsRequest, keep_a-IsRequest, verdicts, lengths, is_listed,
  is_listed-FailsOnlyAbsent,
}
use jinyi.Util.{got, room}

-- Channels 40 at descriptor 7 and 41 at descriptor 9.
abbrev two : Epoll
two = record {
  channels = λ c. record {
    fd = if c == 40 then 7 else 9;
    events = default_event;
    revents = 0;
    last_events = default_event;
    has_read_handler = true;
    has_write_handler = true;
    has_error_handler = false;
    has_conn_handler = true;
  };
  fd2chan = λ fd. if fd == 7 then some 40 else if fd == 9 then some 41 else none;
  interest =
      λ fd. if fd == 7 then some default_event else if fd == 9 then some default_event else none;
}

two-IsCoherent : IsCoherent two
two-IsCoherent j e h = elim (Bool-cases (j == 7)) [
  | inl seven ↦ (40, ground arith, ground arith, ground (arith, h))
  | inr other ↦ (41, ground (arith, h, other), ground (arith, h, other), ground (arith, h, other))
]

abbrev come : Request → ℕ → Conn
come q space = record {
  http = new_http_data;
  socket = record wide { incoming = got (request_text q) ∷ []; outgoing = room space ∷ [] };
  calls = [];
}

abbrev loop : Loop
loop = record { poller = two; conns = λ k. if k == 40 then come keep_a 5000 else come get_a 400 }

abbrev first : Arrival
first = record { fd = 7; ch = 40; request = keep_a; space = 5000; answers = [] }

abbrev second : Arrival
second = record { fd = 9; ch = 41; request = get_a; space = 400; answers = [] }

first-Listening : Listening two 40 7
first-Listening = record {
  word = default_event;
  listed = refl;
  waits = refl;
  placed = refl;
  at_fd = refl;
  reads = refl;
  connects = refl;
  coherent = two-IsCoherent;
}

second-Listening : Listening two 41 9
second-Listening = record {
  word = default_event;
  listed = refl;
  waits = refl;
  placed = refl;
  at_fd = refl;
  reads = refl;
  connects = refl;
  coherent = two-IsCoherent;
}

come-IsIdle : (q : Request) (space : ℕ) → IsIdle (come q space)
come-IsIdle q space = ground arith

first-HasRequest : HasRequest one_file (loop.conns 40) first
first-HasRequest = record {
  idle = come-IsIdle keep_a 5000;
  none_open = refl;
  whole = keep_a-IsRequest;
  answerable = verdicts.0;
  arrived = refl;
  outgoing = refl;
  fits = lengths.0;
}

second-HasRequest : HasRequest one_file (loop.conns 41) second
second-HasRequest = record {
  idle = come-IsIdle get_a 400;
  none_open = refl;
  whole = get_a-IsRequest;
  answerable = verdicts.1;
  arrived = refl;
  outgoing = refl;
  fits = lengths.1;
}

loop_round-Served_example :
    (s' : Loop) × (loop_round is_listed 1 one_file
        (wait_error ∷ ready (map report (second ∷ first ∷ [])) ∷ [])
        loop
      ≡ some s')
    × All (IsServed one_file loop s') (second ∷ first ∷ [])
    × Untouched (second ∷ first ∷ []) loop s'
    × IsCoherent s'.poller
loop_round-Served_example =
    loop_round-Served is_listed 0 one_file loop (wait_error ∷ []) [] second (first ∷ [])
      is_listed-FailsOnlyAbsent (tt, tt) ((refl, tt), (tt, tt))
      ((second-Listening, second-HasRequest), ((first-Listening, first-HasRequest), tt))

two-IsUnused : IsUnused 42 two
two-IsUnused j c e h placed = ground (arith, placed)

-- A third connection at descriptor 11, with a channel whose `revents_` was 4095.
open_connection-Opened_example :
    Opened 42 11 wide loop (open_connection (λ list fd. true) 4095 42 11 wide loop)
open_connection-Opened_example =
    open_connection-Opened (λ list fd. true) 4095 42 11 wide loop refl refl two-IsUnused
      two-IsCoherent

abbrev fds : ℕ → ℕ
fds ch = if ch == 40 then 7 else 9

loop-IsServing : IsServing fds loop
loop-IsServing ch l = elim (Bool-cases (ch == 40)) [
  | inl same ↦ rw same (come-IsIdle keep_a 5000, refl)
  | inr other ↦ rw other (come-IsIdle get_a 400, refl)
]

-- The connection that asked to be kept listens behind the first round.
kept_listens :
    (s' : Loop)
    → one_round is_listed 1 one_file (second ∷ first ∷ []) loop ≡ some s'
    → Listening s'.poller 40 7
unfolding asks_keep_alive lookup insert bytes_eq
kept_listens s' e =
    let (s₀, runs, (_, ((c₁, b, same, kept), _)), _, _) =
      loop_round-Served is_listed 0 one_file (delivered (second ∷ first ∷ []) loop) [] [] second
        (first ∷ []) is_listed-FailsOnlyAbsent tt ((refl, tt), (tt, tt))
        ((second-Listening, second-HasRequest), ((first-Listening, first-HasRequest), tt)) in
    let keep : c₁.http.keep_alive ≡ true = b.kept in
    let listens : Listening s₀.poller 40 7 = elim kept [
      | inl (open_, l) ↦ l
      | inr (closed, gone) ↦ ground (arith, closed, keep, b.state_is)
    ] in
    subst (λ s. Listening s.poller 40 7) (some-injective s₀ s' (sym runs ∙ e)) listens

-- The next request on that connection.
abbrev third : Arrival
third = record { fd = 7; ch = 40; request = get_a; space = 400; answers = [] }

serve_rounds-Served_example :
    (s' : Loop) × (serve_rounds is_listed 1 one_file
        ((second ∷ first ∷ []) ∷ (third ∷ []) ∷ [])
        loop
      ≡ some s')
    × Served one_file fds loop ((second ∷ first ∷ []) ∷ (third ∷ []) ∷ []) s'
serve_rounds-Served_example =
    serve_rounds-Served is_listed 0 one_file fds ((second ∷ first ∷ []) ∷ (third ∷ []) ∷ []) loop
      is_listed-FailsOnlyAbsent loop-IsServing two-IsCoherent
      (
        ((refl, tt), (tt, tt)),
        (
          record {
            fd_is = refl;
            listening = second-Listening;
            whole = get_a-IsRequest;
            answerable = verdicts.1;
            fits = lengths.1;
          },
          (
            record {
              fd_is = refl;
              listening = first-Listening;
              whole = keep_a-IsRequest;
              answerable = verdicts.0;
              fits = lengths.0;
            },
            tt,
          ),
        ),
        λ s' e. (
          (tt, tt),
          (
            record {
              fd_is = refl;
              listening = kept_listens s' e;
              whole = get_a-IsRequest;
              answerable = verdicts.1;
              fits = lengths.1;
            },
            tt,
          ),
          λ s'' e'. tt,
        ),
      )
