-- ===== src/Loop/Poller.antt =====
-- Epoll (net/Epoll.cpp). Channels are objects in a store. The kernel's interest list is part of the
-- state, and whether a call of epoll_ctl succeeds is given with the call; a successful call changes
-- the entry of its descriptor. `getEvents`, declared with result void, is read as returning
-- `events_`, and `fd2chan_[fd].reset` in epoll_add as a call. The timers that epoll_add and epoll_mod
-- ask for are left out: add_timer only copies a pointer. Descriptors are below MAXFDS, as the array
-- demands.
pub mod Coherent
pub mod Active
use jinyi.Loop.Channel.{Channel, set_revents}
use jinyi.Prelude.{ℕ, Bool, Option, none, some, List, [], ◌∷◌, ◌==◌, if◌then◌else◌}

pub record Epoll : Type 0 where
  pub channels : ℕ → Channel
  pub fd2chan : ℕ → Option ℕ
  -- the kernel's interest list
  pub interest : ℕ → Option ℕ

abbrev pub at {ℓ} : {A : Type ℓ} → (ℕ → A) → ℕ → A → ℕ → A
at f i a j = if j == i then a else f j

unfoldable pub set_events : Epoll → ℕ → ℕ → Epoll
set_events p c ev = record p { channels = at p.channels c (record (p.channels c) { events = ev }) }

-- isEqualAndUpdateLastEvents
abbrev pub is_equal : Channel → Bool
is_equal c = c.last_events == c.events

abbrev pub update_last_events : Epoll → ℕ → Epoll
update_last_events p c = record p {
  channels = at p.channels c (record (p.channels c) { last_events = (p.channels c).events });
}

abbrev pub forget : Epoll → ℕ → Epoll
forget p fd = record p { fd2chan = at p.fd2chan fd none }

abbrev pub register : Epoll → ℕ → Option ℕ → Epoll
register p fd e = record p { interest = at p.interest fd e }

unfoldable pub epoll_add : Bool → Epoll → ℕ → Epoll
epoll_add answer p c =
    let fd = (p.channels c).fd in
    let q = update_last_events p c in
    let placed = record q { fd2chan = at p.fd2chan fd (some c) } in
    if answer then register placed fd (some (p.channels c).events) else forget placed fd

unfoldable pub epoll_mod : Bool → Epoll → ℕ → Epoll
epoll_mod answer p c =
    let fd = (p.channels c).fd in
    let q = update_last_events p c in
    if is_equal (p.channels c)
    then q
    else if answer
    then register q fd (some (p.channels c).events)
    else forget q fd

unfoldable pub epoll_del : Bool → Epoll → ℕ → Epoll
epoll_del answer p c =
    let fd = (p.channels c).fd in forget (if answer then register p fd none else p) fd

pub data PollerCall : Type 0 where
  add_channel : ℕ → PollerCall
  modify_channel : ℕ → PollerCall
  delete_channel : ℕ → PollerCall
  assign_events : ℕ → ℕ → PollerCall

unfoldable pub poller_step : Bool → PollerCall → Epoll → Epoll
unfolding epoll_add epoll_mod epoll_del set_events
poller_step answer (add_channel c) p = epoll_add answer p c
poller_step answer (modify_channel c) p = epoll_mod answer p c
poller_step answer (delete_channel c) p = epoll_del answer p c
poller_step answer (assign_events c ev) p = set_events p c ev

-- getEventsRequest: for each descriptor that epoll_wait reports, with its event word, its channel.
-- For a descriptor without one a line is logged.
unfoldable pub get_events_request : Epoll → List (ℕ × ℕ) → List ℕ × Epoll
get_events_request p [] = ([], p)
get_events_request p ((fd, ev) ∷ reports) = elim (p.fd2chan fd) [
  | none ↦ get_events_request p reports
  | some c ↦
      let reported = record (set_revents ev (p.channels c)) { events = 0 } in
      let rest = get_events_request (record p { channels = at p.channels c reported }) reports in
      (c ∷ rest.0, rest.1)
]

-- What one epoll_wait gives: -1, or the descriptors that are ready with their event words; none if
-- the time is up.
pub data WaitAnswer : Type 0 where
  wait_error : WaitAnswer
  ready : List (ℕ × ℕ) → WaitAnswer

-- poll has returned, with the answers it has not used, or is in epoll_wait when the answers end.
pub data Polled : Type 0 where
  polled : List ℕ → Epoll → List WaitAnswer → Polled
  still_waiting : Epoll → Polled

abbrev pub wait_reports : WaitAnswer → List (ℕ × ℕ)
wait_reports wait_error = []
wait_reports (ready reports) = reports

unfoldable pub poll : Epoll → List WaitAnswer → Polled
unfolding get_events_request
poll p [] = still_waiting p
poll p (answer ∷ answers) =
    let found = get_events_request p (wait_reports answer) in
    let again = poll found.1 answers in
    elim found.0 [ [] ↦ again | c ∷ cs ↦ polled (c ∷ cs) found.1 answers ]
