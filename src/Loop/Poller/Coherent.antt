-- ===== src/Loop/Poller/Coherent.antt =====
-- Channel and Epoll: the table of channels and the kernel's interest list agree.
use mathlib.Core.Option.{none-ne-some, some-injective}
use jinyi.Loop.Poller.{
  Epoll, at, set_events, is_equal, update_last_events, epoll_add, epoll_mod, epoll_del, PollerCall,
  add_channel, modify_channel, delete_channel, assign_events, poller_step,
}
use jinyi.Prelude.{
  ℕ, ◌≡◌, refl, sym, ap, ◌∙◌, Bool, true, false, Option, none, some, ◌⊎◌, arith, ◌==◌, Bool-cases,
  Option-cases, inl, inr,
}

-- For each descriptor in the kernel's list the table has its channel, and `lastEvents_` is the event
-- word the kernel has.
abbrev pub IsCoherent : Epoll → Type 0
IsCoherent p =
    (fd e : ℕ)
    → p.interest fd ≡ some e
    → (c : ℕ) × (p.fd2chan fd ≡ some c)
      × ((p.channels c).fd ≡ fd)
      × ((p.channels c).last_events ≡ e)

-- What epoll_ctl documents, and what the callers keep: a descriptor is added once; a change or a
-- removal fails only for a descriptor that is not in the list, and is asked for by the channel that
-- was added.
abbrev pub Documented : Bool → PollerCall → Epoll → Type 0
Documented answer (add_channel c) p = p.interest (p.channels c).fd ≡ none
Documented answer (modify_channel c) p =
    (answer ≡ false → p.interest (p.channels c).fd ≡ none) × (p.fd2chan (p.channels c).fd ≡ some c)
Documented answer (delete_channel c) p = answer ≡ false → p.interest (p.channels c).fd ≡ none
Documented answer (assign_events c ev) p = Unit

-- A change at one channel and the entries of its descriptor.
IsCoherent-touch :
    (p : Epoll) (c events last : ℕ) (table interest : ℕ → Option ℕ)
    → ((j : ℕ)
        → (j == (p.channels c).fd) ≡ false
        → (table j ≡ p.fd2chan j) × (interest j ≡ p.interest j))
    → (interest (p.channels c).fd ≡ none)
      ⊎ ((interest (p.channels c).fd ≡ some last) × (table (p.channels c).fd ≡ some c))
    → IsCoherent p
    → IsCoherent (record {
      channels = at p.channels c (record (p.channels c) { events = events; last_events = last });
      fd2chan = table;
      interest = interest;
    })
IsCoherent-touch p c events last table interest away here coherent j e h =
    elim (Bool-cases (j == (p.channels c).fd)) [
      | inl same ↦
          let at_fd : j ≡ (p.channels c).fd = ground arith in
          elim here [
            | inl gone ↦ absurd (none-ne-some e (sym gone ∙ sym (ap interest at_fd) ∙ h))
            | inr (there, placed) ↦ (
              c,
              ap table at_fd ∙ placed,
              ground (arith, at_fd),
              ground (arith, at_fd, there, h, ap interest at_fd),
            )
          ]
      | inr other ↦
          let (d, t, f, l) = coherent j e (sym (away j other).1 ∙ h) in
          (d, (away j other).0 ∙ t, ground (arith, f), ground (arith, f, l, other))
    ]

-- isEqualAndUpdateLastEvents with new entries for the channel's descriptor.
IsCoherent-update :
    (p : Epoll) (c : ℕ) (table interest : ℕ → Option ℕ)
    → ((j : ℕ)
        → (j == (p.channels c).fd) ≡ false
        → (table j ≡ p.fd2chan j) × (interest j ≡ p.interest j))
    → (interest (p.channels c).fd ≡ none)
      ⊎ ((interest (p.channels c).fd ≡ some (p.channels c).events)
          × (table (p.channels c).fd ≡ some c))
    → IsCoherent p
    → IsCoherent (record (update_last_events p c) { fd2chan = table; interest = interest })
IsCoherent-update p c table interest away here coherent =
    IsCoherent-touch p c (p.channels c).events (p.channels c).events table interest away here
      coherent

pub epoll_add-IsCoherent :
    (answer : Bool) (p : Epoll) (c : ℕ)
    → p.interest (p.channels c).fd ≡ none
    → IsCoherent p
    → IsCoherent (epoll_add answer p c)
unfolding epoll_add
epoll_add-IsCoherent true p c free coherent =
    IsCoherent-update p c (at p.fd2chan (p.channels c).fd (some c))
      (at p.interest (p.channels c).fd (some (p.channels c).events))
      (λ j other. (ground arith, ground arith)) (inr (ground arith, ground arith)) coherent
epoll_add-IsCoherent false p c free coherent =
    IsCoherent-update p c (at (at p.fd2chan (p.channels c).fd (some c)) (p.channels c).fd none)
      p.interest (λ j other. (ground arith, refl)) (inl free) coherent

-- In a coherent state the entry of a channel that has one.
known :
    (p : Epoll) (c : ℕ)
    → p.fd2chan (p.channels c).fd ≡ some c
    → IsCoherent p
    → (p.interest (p.channels c).fd ≡ none)
      ⊎ (p.interest (p.channels c).fd ≡ some (p.channels c).last_events)
known p c placed coherent = elim (Option-cases (p.interest (p.channels c).fd)) [
  | inl gone ↦ inl gone
  | inr (e, there) ↦
      let (d, t, f, l) = coherent (p.channels c).fd e there in
      let same : d ≡ c = some-injective d c (sym t ∙ placed) in
      inr (there ∙ ap some (sym l ∙ ap (λ d. (p.channels d).last_events) same))
]

pub epoll_mod-IsCoherent :
    (answer : Bool) (p : Epoll) (c : ℕ)
    → (answer ≡ false → p.interest (p.channels c).fd ≡ none)
    → p.fd2chan (p.channels c).fd ≡ some c
    → IsCoherent p
    → IsCoherent (epoll_mod answer p c)
unfolding epoll_mod
epoll_mod-IsCoherent answer p c fails placed coherent =
    elim (Bool-cases (is_equal (p.channels c))) [
      | inl same ↦ rw same (
          IsCoherent-update p c p.fd2chan p.interest (λ j other. (refl, refl))
            (elim (known p c placed coherent) [
              | inl gone ↦ inl gone
              | inr there ↦ inr (there ∙ ap some (ground arith), placed)
            ])
            coherent)
      | inr changed ↦ rw changed (elim (Bool-cases answer) [
        | inl done ↦ rw done (
            IsCoherent-update p c p.fd2chan
              (at p.interest (p.channels c).fd (some (p.channels c).events))
              (λ j other. (refl, ground arith)) (inr (ground arith, placed)) coherent)
        | inr failed ↦ rw failed (
            IsCoherent-update p c (at p.fd2chan (p.channels c).fd none) p.interest
              (λ j other. (ground arith, refl)) (inl (fails failed)) coherent)
      ])
    ]

-- Taking both entries of a descriptor away.
IsCoherent-remove :
    (p : Epoll) (fd : ℕ) (interest : ℕ → Option ℕ)
    → interest fd ≡ none
    → ((j : ℕ) → (j == fd) ≡ false → interest j ≡ p.interest j)
    → IsCoherent p
    → IsCoherent (record p { fd2chan = at p.fd2chan fd none; interest = interest })
IsCoherent-remove p fd interest gone away coherent j e h = elim (Bool-cases (j == fd)) [
  | inl same ↦
      let at_fd : j ≡ fd = ground arith in
      absurd (none-ne-some e (sym gone ∙ sym (ap interest at_fd) ∙ h))
  | inr other ↦
      let (d, t, f, l) = coherent j e (sym (away j other) ∙ h) in
      let kept : at p.fd2chan fd none j ≡ p.fd2chan j = ground arith in (d, kept ∙ t, f, l)
]

pub epoll_del-IsCoherent :
    (answer : Bool) (p : Epoll) (c : ℕ)
    → (answer ≡ false → p.interest (p.channels c).fd ≡ none)
    → IsCoherent p
    → IsCoherent (epoll_del answer p c)
unfolding epoll_del
epoll_del-IsCoherent true p c fails coherent =
    IsCoherent-remove p (p.channels c).fd (at p.interest (p.channels c).fd none) (ground arith)
      (λ j other. ground arith) coherent
epoll_del-IsCoherent false p c fails coherent =
    IsCoherent-remove p (p.channels c).fd p.interest (fails refl) (λ j other. refl) coherent

-- set_events leaves `lastEvents_`, and so the link to the kernel, alone.
pub set_events-IsCoherent : (p : Epoll) (c ev : ℕ) → IsCoherent p → IsCoherent (set_events p c ev)
unfolding set_events
set_events-IsCoherent p c ev coherent j e h =
    let (d, t, f, l) = coherent j e h in (d, t, ground (arith, f), ground (arith, l))

-- Every call on the poller, and setEvents on a channel, keeps the descriptor table in step with the
-- kernel's list: of each descriptor there, the table has the channel, and `lastEvents_` is the event
-- word that the kernel has. A call is as documented: a descriptor that is added is not in the list,
-- one that is changed is its channel's, and a change or removal fails only when it is not in the list.
pub poller_step-IsCoherent :
    (answer : Bool) (call : PollerCall) (p : Epoll)
    → Documented answer call p
    → IsCoherent p
    → IsCoherent (poller_step answer call p)
unfolding poller_step
poller_step-IsCoherent answer (add_channel c) p d coherent =
    epoll_add-IsCoherent answer p c d coherent
poller_step-IsCoherent answer (modify_channel c) p d coherent =
    epoll_mod-IsCoherent answer p c d.0 d.1 coherent
poller_step-IsCoherent answer (delete_channel c) p d coherent =
    epoll_del-IsCoherent answer p c d coherent
poller_step-IsCoherent answer (assign_events c ev) p d coherent =
    set_events-IsCoherent p c ev coherent

-- The shortcut of epoll_mod is sound: for a registered channel in a coherent state the kernel's list
-- has the channel's events afterwards, whether epoll_ctl was called or not, if epoll_ctl fails only
-- for a descriptor that is not in the list.
pub epoll_mod-interest :
    (answer : Bool) (p : Epoll) (c e : ℕ)
    → (answer ≡ false → p.interest (p.channels c).fd ≡ none)
    → p.fd2chan (p.channels c).fd ≡ some c
    → p.interest (p.channels c).fd ≡ some e
    → IsCoherent p
    → (epoll_mod answer p c).interest (p.channels c).fd ≡ some (p.channels c).events
unfolding epoll_mod
epoll_mod-interest answer p c e fails placed there coherent = elim (known p c placed coherent) [
  | inl gone ↦ absurd (none-ne-some e (sym gone ∙ there))
  | inr last ↦ ground (arith, last, there, fails)
]
