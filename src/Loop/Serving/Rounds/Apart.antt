-- ===== src/Loop/Serving/Rounds/Apart.antt =====
-- What the calls of one connection on the loop leave alone: the entries and channels of the others.
use jinyi.Http.Analysis.{default_keep_alive_time}
use jinyi.Http.Conn.{Conn, epoll_in, epoll_et}
use jinyi.Http.Session.Behind.{event_calls}
use jinyi.Http.Types.{connected, disconnected}
use jinyi.Loop.Poller.{Epoll, set_events, epoll_mod, epoll_del}
use jinyi.Loop.Poller.Coherent.{IsCoherent}
use jinyi.Loop.Serving.{Ctl, perform, perform_all}
use jinyi.Loop.Serving.Registered.{
  FailsOnlyAbsent, Listening, SameOthers, perform-update, perform-remove,
}
use jinyi.Loop.Serving.Sessions.{IsKept}
use jinyi.Prelude.Bits.{set_bit}
use jinyi.Prelude.{ℕ, ◌≡◌, refl, ap, ◌∙◌, inl, inr, Bool, true, false, ◌==◌, arith, if◌then◌else◌}

pub record Apart (ch fd : ℕ) (p q : Epoll) : Type 0 where
  pub entries : SameOthers fd p q
  pub channels : (k : ℕ) → (k == ch) ≡ false → q.channels k ≡ p.channels k

-- The entries of one descriptor and its channel are the same.
pub record SameAt (ch fd : ℕ) (p q : Epoll) : Type 0 where
  pub list : q.interest fd ≡ p.interest fd
  pub table : q.fd2chan fd ≡ p.fd2chan fd
  pub channel : q.channels ch ≡ p.channels ch

pub Apart-SameAt :
    (ch fd ch' fd' : ℕ) (p q : Epoll)
    → Apart ch fd p q
    → (fd' == fd) ≡ false
    → (ch' == ch) ≡ false
    → SameAt ch' fd' p q
Apart-SameAt ch fd ch' fd' p q apart other other' = record {
  list = (apart.entries fd' other).0;
  table = (apart.entries fd' other).1;
  channel = apart.channels ch' other';
}

pub Listening-SameAt :
    (ch fd : ℕ) (p q : Epoll)
    → SameAt ch fd p q
    → IsCoherent q
    → Listening p ch fd
    → Listening q ch fd
Listening-SameAt ch fd p q same coherent l = record {
  word = l.word;
  listed = same.list ∙ l.listed;
  waits = l.waits;
  placed = same.table ∙ l.placed;
  at_fd = ap (λ c. c.fd) same.channel ∙ l.at_fd;
  reads = ap (λ c. c.has_read_handler) same.channel ∙ l.reads;
  connects = ap (λ c. c.has_conn_handler) same.channel ∙ l.connects;
  coherent = coherent;
}

pub IsKept-SameAt :
    (ch fd : ℕ) (p q : Epoll) (c : Conn)
    → SameAt ch fd p q
    → IsCoherent q
    → IsKept ch fd p c
    → IsKept ch fd q c
IsKept-SameAt ch fd p q c same coherent (inl (open_, l)) =
    inl (open_, Listening-SameAt ch fd p q same coherent l)
IsKept-SameAt ch fd p q c same coherent (inr (closed, gone)) = inr (
  closed,
  record {
    unlisted = same.list ∙ gone.unlisted;
    unplaced = same.table ∙ gone.unplaced;
    coherent = coherent;
  },
)

pub IsKept-IsCoherent : (ch fd : ℕ) (p : Epoll) (c : Conn) → IsKept ch fd p c → IsCoherent p
IsKept-IsCoherent ch fd p c (inl (open_, l)) = l.coherent
IsKept-IsCoherent ch fd p c (inr (closed, gone)) = gone.coherent

perform_all-channels :
    (ctl : Ctl) (p : Epoll) (ch k : ℕ) (keep : Bool)
    → (k == ch) ≡ false
    → (perform_all ctl ch p (event_calls keep)).channels k ≡ p.channels k
unfolding perform epoll_mod epoll_del set_events
perform_all-channels ctl p ch k true other = ground (arith, other)
perform_all-channels ctl p ch k false other = ground (arith, other)

-- The calls behind a request, on the entry of its connection.
pub perform_all-IsKept :
    (ctl : Ctl) (p : Epoll) (ch fd : ℕ) (c : Conn) (keep : Bool)
    → FailsOnlyAbsent ctl
    → Listening p ch fd
    → c.http.connection_state ≡ (if keep then connected else disconnected)
    → IsKept ch fd (perform_all ctl ch p (event_calls keep)) c
      × Apart ch fd p (perform_all ctl ch p (event_calls keep))
unfolding perform
perform_all-IsKept ctl p ch fd c true fails l state_is =
    let (l', same) =
      perform-update ctl p ch fd (set_bit epoll_et (set_bit epoll_in 0)) default_keep_alive_time
        fails l refl in
    (
      inl (state_is, l'),
      record { entries = same; channels = λ k. perform_all-channels ctl p ch k true },
    )
perform_all-IsKept ctl p ch fd c false fails l state_is =
    let (gone, same) = perform-remove ctl p ch fd fails l in
    (
      inr (state_is, gone),
      record { entries = same; channels = λ k. perform_all-channels ctl p ch k false },
    )
