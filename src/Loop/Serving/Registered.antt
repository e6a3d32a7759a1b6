-- ===== src/Loop/Serving/Registered.antt =====
-- The entry of a connection's descriptor, in the table and in the kernel's list.
use jinyi.Http.Conn.{update_poller, remove_from_poller, epoll_in}
use jinyi.Loop.Poller.{Epoll, set_events, epoll_mod, epoll_del}
use jinyi.Loop.Poller.Active.{reported, reported-IsCoherent}
use jinyi.Loop.Poller.Coherent.{
  IsCoherent, epoll_mod-IsCoherent, epoll_del-IsCoherent, set_events-IsCoherent, epoll_mod-interest,
}
use jinyi.Loop.Serving.{Ctl, perform}
use mathlib.Core.Option.{none-ne-some}
use jinyi.Prelude.Bits.{has}
use jinyi.Prelude.{
  ℕ, ◌≡◌, sym, ap, ◌∙◌, true, false, Option, none, some, ◌==◌, arith, Bool-cases, inl, inr,
}

-- What epoll_ctl documents of a change and of a removal: they fail only if the descriptor is not in
-- the list.
abbrev pub FailsOnlyAbsent : Ctl → Type 0
FailsOnlyAbsent ctl = (list : ℕ → Option ℕ) (fd : ℕ) → ctl list fd ≡ false → list fd ≡ none

-- The channel `ch` of the descriptor is in the table and in the list, and waits for EPOLLIN.
pub record Listening (p : Epoll) (ch fd : ℕ) : Type 0 where
  pub word : ℕ
  pub listed : p.interest fd ≡ some word
  pub waits : has epoll_in word ≡ true
  pub placed : p.fd2chan fd ≡ some ch
  pub at_fd : (p.channels ch).fd ≡ fd
  pub reads : (p.channels ch).has_read_handler ≡ true
  pub connects : (p.channels ch).has_conn_handler ≡ true
  pub coherent : IsCoherent p

pub record Removed (p : Epoll) (fd : ℕ) : Type 0 where
  pub unlisted : p.interest fd ≡ none
  pub unplaced : p.fd2chan fd ≡ none
  pub coherent : IsCoherent p

-- The entries of all other descriptors are as they were.
abbrev pub SameOthers : ℕ → Epoll → Epoll → Type 0
SameOthers fd p q =
    (j : ℕ) → (j == fd) ≡ false → (q.interest j ≡ p.interest j) × (q.fd2chan j ≡ p.fd2chan j)

pub reported-Listening :
    (p : Epoll) (ch fd ev : ℕ) → Listening p ch fd → Listening (reported p ch ev) ch fd
reported-Listening p ch fd ev l = record {
  word = l.word;
  listed = l.listed;
  waits = l.waits;
  placed = l.placed;
  at_fd = ground (arith, l.at_fd);
  reads = ground (arith, l.reads);
  connects = ground (arith, l.connects);
  coherent = reported-IsCoherent p ch ev l.coherent;
}

-- epoll_ctl succeeds for what is listed.
succeeds :
    (ctl : Ctl) (list : ℕ → Option ℕ) (fd e : ℕ)
    → FailsOnlyAbsent ctl
    → list fd ≡ some e
    → ctl list fd ≡ true
succeeds ctl list fd e fails h = elim (Bool-cases (ctl list fd)) [
  | inl yes_ ↦ yes_
  | inr no_ ↦ absurd (none-ne-some e (sym (fails list fd no_) ∙ h))
]

pub perform-update :
    (ctl : Ctl) (p : Epoll) (ch fd ev timeout : ℕ)
    → FailsOnlyAbsent ctl
    → Listening p ch fd
    → has epoll_in ev ≡ true
    → Listening (perform ctl ch p (update_poller ev timeout)) ch fd
      × SameOthers fd p (perform ctl ch p (update_poller ev timeout))
unfolding perform epoll_mod set_events
perform-update ctl p ch fd ev timeout fails l waits =
    let q = set_events p ch ev in
    let same_fd : (q.channels ch).fd ≡ fd = ground (arith, l.at_fd) in
    let there : q.interest (q.channels ch).fd ≡ some l.word = ground (arith, l.at_fd, l.listed) in
    let placed : q.fd2chan (q.channels ch).fd ≡ some ch = ground (arith, l.at_fd, l.placed) in
    let answer = ctl q.interest (q.channels ch).fd in
    let ok = succeeds ctl q.interest (q.channels ch).fd l.word fails there in
    let coherent = set_events-IsCoherent p ch ev l.coherent in
    (
      record {
        word = ev;
        listed =
            ap (epoll_mod answer q ch).interest (sym same_fd)
            ∙ epoll_mod-interest answer q ch l.word (fails q.interest (q.channels ch).fd) placed
                there coherent
            ∙ ap some (ground arith);
        waits = waits;
        placed = ground (arith, ok, l.placed);
        at_fd = ground (arith, ok, l.at_fd);
        reads = ground (arith, ok, l.reads);
        connects = ground (arith, ok, l.connects);
        coherent =
            epoll_mod-IsCoherent answer q ch (fails q.interest (q.channels ch).fd) placed coherent;
      },
      λ j other. ground (arith, ok, other, l.at_fd),
    )

pub perform-remove :
    (ctl : Ctl) (p : Epoll) (ch fd : ℕ)
    → FailsOnlyAbsent ctl
    → Listening p ch fd
    → Removed (perform ctl ch p remove_from_poller) fd
      × SameOthers fd p (perform ctl ch p remove_from_poller)
unfolding perform epoll_del
perform-remove ctl p ch fd fails l =
    let there : p.interest (p.channels ch).fd ≡ some l.word = ap p.interest l.at_fd ∙ l.listed in
    let answer = ctl p.interest (p.channels ch).fd in
    let ok = succeeds ctl p.interest (p.channels ch).fd l.word fails there in
    (
      record {
        unlisted = ground (arith, ok, l.at_fd);
        unplaced = ground (arith, ok, l.at_fd);
        coherent =
            epoll_del-IsCoherent answer p ch (fails p.interest (p.channels ch).fd) l.coherent;
      },
      λ j other. ground (arith, ok, l.at_fd),
    )
