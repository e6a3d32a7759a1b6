-- ===== src/Loop/Serving/Rounds/Found.antt =====
-- The channels of a round: what epoll_wait reports for the connections that a request has come for.
use jinyi.Http.Conn.{epoll_in}
use jinyi.Http.Handlers.Request.{Request}
use jinyi.Loop.Poller.{Epoll, get_events_request}
use jinyi.Loop.Poller.Active.{reported, reported-IsCoherent, get_events_request_step}
use jinyi.Loop.Serving.Registered.{Listening}
use jinyi.Prelude.Bits.{set_bit}
use jinyi.Prelude.{ℕ, ◌≡◌, refl, ap, ◌∙◌, List, [], ◌∷◌, arith, All, false, ◌==◌}
use jinyi.Util.{WriteAnswer}
use mathlib.Core.List.{map}

-- A request that has come on the connection of channel `ch` at descriptor `fd`. The next write() takes
-- `space` bytes at most, and then the kernel answers with `answers`.
pub record Arrival : Type 0 where
  pub fd : ℕ
  pub ch : ℕ
  pub request : Request
  pub space : ℕ
  pub answers : List WriteAnswer

abbrev pub report : Arrival → ℕ × ℕ
report a = (a.fd, set_bit epoll_in 0)

abbrev pub IsListening : Epoll → Arrival → Type 0
IsListening p a = Listening p a.ch a.fd

-- Listening, with EPOLLIN reported.
abbrev pub IsReported : Epoll → Arrival → Type 0
IsReported p a = Listening p a.ch a.fd × ((p.channels a.ch).revents ≡ set_bit epoll_in 0)

-- A report on any channel keeps what is so for another.
reported-IsListening :
    (p : Epoll) (c : ℕ) (b : Arrival)
    → IsListening p b
    → IsListening (reported p c (set_bit epoll_in 0)) b
reported-IsListening p c b l = record {
  word = l.word;
  listed = l.listed;
  waits = l.waits;
  placed = l.placed;
  at_fd = ground (arith, l.at_fd);
  reads = ground (arith, l.reads);
  connects = ground (arith, l.connects);
  coherent = reported-IsCoherent p c (set_bit epoll_in 0) l.coherent;
}

reported-All-IsListening :
    (p : Epoll) (c : ℕ) (bs : List Arrival)
    → All (IsListening p) bs
    → All (IsListening (reported p c (set_bit epoll_in 0))) bs
reported-All-IsListening p c [] h = tt
reported-All-IsListening p c (b ∷ bs) (h, hs) =
    (reported-IsListening p c b h, reported-All-IsListening p c bs hs)

-- What getEventsRequest comes to for the arrivals.
pub record Marked (p : Epoll) (arrivals : List Arrival) (q : Epoll) : Type 0 where
  pub gives : get_events_request p (map report arrivals) ≡ (map (λ a. a.ch) arrivals, q)
  pub carries : (b : Arrival) → IsListening p b → IsListening q b
  pub marks :
      (c : ℕ)
      → (p.channels c).revents ≡ set_bit epoll_in 0
      → (q.channels c).revents ≡ set_bit epoll_in 0
  pub all_reported : All (IsReported q) arrivals
  pub leaves : (k : ℕ) → All (λ a. (k == a.ch) ≡ false) arrivals → q.channels k ≡ p.channels k
  pub table : q.fd2chan ≡ p.fd2chan
  pub list : q.interest ≡ p.interest

pub get_events_request-Marked :
    (p : Epoll) (arrivals : List Arrival)
    → All (IsListening p) arrivals
    → (q : Epoll) × Marked p arrivals q
unfolding get_events_request
get_events_request-Marked p [] h = (
  p,
  record {
    gives = refl;
    carries = λ b l. l;
    marks = λ c e. e;
    all_reported = tt;
    leaves = λ k h. refl;
    table = refl;
    list = refl;
  },
)
get_events_request-Marked p (a ∷ arrivals) (l, ls) =
    let one = reported p a.ch (set_bit epoll_in 0) in
    let (q, m) =
      get_events_request-Marked one arrivals (reported-All-IsListening p a.ch arrivals ls) in
    (
      q,
      record {
        gives =
            get_events_request_step p a.fd (set_bit epoll_in 0) a.ch (map report arrivals) l.placed
            ∙ ap (λ r. (a.ch ∷ r.0, r.1)) m.gives;
        carries = λ b l'. m.carries b (reported-IsListening p a.ch b l');
        marks = λ c e. m.marks c (ground (arith, e));
        all_reported = (
          (m.carries a (reported-IsListening p a.ch a l), m.marks a.ch (ground arith)),
          m.all_reported,
        );
        leaves = λ k h. m.leaves k h.1 ∙ ground (arith, h.0);
        table = m.table;
        list = m.list;
      },
    )
