-- ===== src/Loop/Serving/Rounds/Many.antt =====
-- Any number of rounds of EventLoop::loop (net/EventLoop.cpp): what each peer is sent.
use jinyi.Http.Analysis.{Site}
use jinyi.Http.Conn.{Conn}
use jinyi.Http.Handlers.Request.{IsIdle, request_text, IsRequest}
use jinyi.Http.Session.Behind.{verdict, response}
use jinyi.Http.Types.{analysis_success}
use jinyi.Loop.Poller.{ready}
use jinyi.Loop.Serving.{Ctl}
use jinyi.Loop.Serving.Registered.{Listening}
use jinyi.Loop.Serving.Rounds.{Loop, loop_round}
use jinyi.Loop.Serving.Rounds.Arrivals.{HasRequest, DistinctFds}
use jinyi.Loop.Serving.Rounds.Found.{Arrival, report, IsListening}
use mathlib.Core.List.{map}
use mathlib.Core.Path.{subst}
use jinyi.Prelude.{
  ℕ, ◌≤◌, ◌≡◌, refl, sym, ap, ◌∙◌, inl, inr, false, Option, none, some, List, [], ◌∷◌, ◌++◌, ◌==◌,
  arith, All, Bytes, length, Bool-cases, if◌then◌else◌,
}
use jinyi.Util.{got, room}

-- What the kernel has for a connection when its request has come.
abbrev pub come : Arrival → Conn → Conn
come a c = record c {
  socket = record c.socket {
    incoming = got (request_text a.request) ∷ [];
    outgoing = room a.space ∷ a.answers;
  };
}

abbrev pub deliver : List Arrival → (ℕ → Conn) → ℕ → Conn
deliver [] conns k = conns k
deliver (a ∷ rest) conns k = if k == a.ch then come a (conns k) else deliver rest conns k

abbrev pub delivered : List Arrival → Loop → Loop
delivered arrivals s = record s { conns = deliver arrivals s.conns }

-- The requests of a round come, and epoll_wait reports them.
abbrev pub one_round : Ctl → ℕ → Site → List Arrival → Loop → Option Loop
one_round ctl fuel site arrivals s =
    loop_round ctl fuel site (ready (map report arrivals) ∷ []) (delivered arrivals s)

unfoldable pub serve_rounds : Ctl → ℕ → Site → List (List Arrival) → Loop → Option Loop
unfolding loop_round
serve_rounds ctl fuel site [] s = some s
serve_rounds ctl fuel site (arrivals ∷ rounds) s = elim (one_round ctl fuel site arrivals s) [
  | none ↦ none
  | some s' ↦ serve_rounds ctl fuel site rounds s'
]

-- The responses to the requests of one connection, in order.
abbrev pub responses_to : Site → ℕ → List Arrival → Bytes
responses_to site ch [] = []
responses_to site ch (a ∷ rest) =
    (if ch == a.ch then response site a.request else []) ++ responses_to site ch rest

abbrev pub all_responses_to : Site → ℕ → List (List Arrival) → Bytes
all_responses_to site ch [] = []
all_responses_to site ch (arrivals ∷ rounds) =
    responses_to site ch arrivals ++ all_responses_to site ch rounds

-- A connection that listens is idle and has no call left open. `fds` has the descriptor of each channel.
abbrev pub IsServing : (ℕ → ℕ) → Loop → Type 0
IsServing fds s =
    (ch : ℕ) → Listening s.poller ch (fds ch) → IsIdle (s.conns ch) × ((s.conns ch).calls ≡ [])

-- A whole request that can be answered, for a connection that listens, with room for its response.
pub record IsAnswerable (site : Site) (fds : ℕ → ℕ) (s : Loop) (a : Arrival) : Type 0 where
  pub fd_is : a.fd ≡ fds a.ch
  pub listening : IsListening s.poller a
  pub whole : IsRequest a.request
  pub answerable : verdict site a.request ≡ analysis_success
  pub fits : length (response site a.request) ≤ a.space

-- What comes in each round is answerable then.
abbrev pub AllAnswerable : Ctl → ℕ → Site → (ℕ → ℕ) → List (List Arrival) → Loop → Type 0
AllAnswerable ctl fuel site fds [] s = Unit
AllAnswerable ctl fuel site fds (arrivals ∷ rounds) s =
    DistinctFds arrivals
    × All (IsAnswerable site fds s) arrivals
    × ((s' : Loop)
        → one_round ctl fuel site arrivals s ≡ some s'
        → AllAnswerable ctl fuel site fds rounds s')

pub come-HasRequest :
    (site : Site) (fds : ℕ → ℕ) (s : Loop) (a : Arrival)
    → IsServing fds s
    → IsAnswerable site fds s a
    → HasRequest site (come a (s.conns a.ch)) a
come-HasRequest site fds s a serving r =
    let (idle, none_open) = serving a.ch (subst (Listening s.poller a.ch) r.fd_is r.listening) in
    record {
      idle = record {
        state_is = idle.state_is;
        header_state = idle.header_state;
        position = idle.position;
        no_error = idle.no_error;
        is_open = idle.is_open;
        read_all = idle.read_all;
        written_all = idle.written_all;
        no_headers = idle.no_headers;
        unlinked = idle.unlinked;
      };
      none_open = none_open;
      whole = r.whole;
      answerable = r.answerable;
      arrived = refl;
      outgoing = refl;
      fits = r.fits;
    }

-- Different descriptors are those of different channels.
pub chs-differ :
    (site : Site) (fds : ℕ → ℕ) (s : Loop) (a b : Arrival)
    → IsAnswerable site fds s a
    → IsAnswerable site fds s b
    → (b.fd == a.fd) ≡ false
    → (b.ch == a.ch) ≡ false
chs-differ site fds s a b ra rb other = elim (Bool-cases (b.ch == a.ch)) [
  | inl same ↦
      let e : b.ch ≡ a.ch = ground arith in
      ground (arith, rb.fd_is ∙ ap fds e ∙ sym ra.fd_is, other)
  | inr differ ↦ differ
]
