-- ===== src/Loop/EventLoopThread/Safe.antt =====
-- What startLoop and the destructor wait for (net/EventLoopThread.cpp).
use jinyi.Loop.EventLoopThread.{
  Owner, before, starting, testing, asleep, returned, quitting, joining, gone, assert_failed, Child,
  absent, born, published, looping, ended, System, fresh, start_loop, start_returns, test_loop,
  publish, enter_loop, leave_loop, destroy, ask_quit, Step, start, started_up, test, wake_by_chance,
  make_loop, enter, leave, end, quit, join, Reach, here, later,
}
use jinyi.Prelude.{◌≡◌, ◌≢◌, ◌⊎◌, refl, Bool, true, false, arith}

-- What the new thread's place says of loop_.
abbrev loop_at : Child → Bool
loop_at absent = false
loop_at born = false
loop_at published = true
loop_at looping = true
loop_at ended = false

abbrev is_alive : Child → Bool
is_alive absent = false
is_alive ended = false
is_alive _ = true

-- What the owner's place says of the rest.
abbrev Seen : Bool → Owner → System → Type 0
Seen checks before s = (s.started ≡ false) × (s.child ≡ absent) × (s.quit ≡ false)
Seen checks starting s = (s.started ≡ true) × (s.quit ≡ false) × (is_alive s.child ≡ true)
Seen checks testing s =
    (s.quit ≡ false)
    × (((s.started ≡ false) × (s.child ≡ absent))
        ⊎ ((checks ≡ false) × (s.started ≡ true) × (is_alive s.child ≡ true)))
Seen checks asleep s =
    (s.quit ≡ false)
    × (((s.started ≡ false) × (s.child ≡ absent))
        ⊎ ((checks ≡ false) × (s.started ≡ true) × (s.child ≡ born)))
Seen checks returned s = (s.quit ≡ false) × (s.loop ≡ true) × (checks ≡ false)
Seen checks quitting s = (s.quit ≡ false) × (s.loop ≡ true) × (checks ≡ false)
Seen checks joining s = checks ≡ false
Seen checks gone s = checks ≡ false
Seen checks assert_failed s = (checks ≡ true) × (s.started ≡ true)

record Inv (checks : Bool) (s : System) : Type 0 where
  at : s.loop ≡ loop_at s.child
  seen : Seen checks s.owner s

Step-Inv : (checks : Bool) (s t : System) → Step checks s t → Inv checks s → Inv checks t
unfolding start_loop start_returns test_loop publish enter_loop leave_loop destroy ask_quit
Step-Inv checks s t (start created e) i = ground arith
Step-Inv checks s t (started_up g e) i = ground arith
Step-Inv checks s t (test e) i = ground arith
Step-Inv checks s t (wake_by_chance e) i = ground arith
Step-Inv checks s t (make_loop e) i = ground arith
Step-Inv checks s t (enter e) i = ground arith
Step-Inv checks s t (leave e q) i = ground arith
Step-Inv checks s t (end e) i = ground arith
Step-Inv checks s t (quit e) i = ground arith
Step-Inv checks s t (join e f) i = ground arith

Reach-Inv : {checks : Bool} {s : System} → Reach checks fresh s → Inv checks s
Reach-Inv here = record { at = refl; seen = (refl, refl, refl) }
Reach-Inv {checks} {s = u} (later {t = t} r st) = Step-Inv checks t u st (Reach-Inv r)

-- No thread was made, and the owner is at its test or asleep behind it.
record Alone (s : System) : Type 0 where
  child : s.child ≡ absent
  waits : (s.owner ≡ testing) ⊎ (s.owner ≡ asleep)
  unset : s.loop ≡ false

-- The new thread has still to enter loop(), or is there and was not asked to quit since.
abbrev Unasked : Child → Bool → Type 0
Unasked absent asked = true ≡ false
Unasked born asked = true ≡ false
Unasked published asked = Unit
Unasked looping asked = asked ≡ false
Unasked ended asked = true ≡ false

record Stuck (s : System) : Type 0 where
  owner : s.owner ≡ joining
  child : Unasked s.child s.quit

Step-Stuck : (checks : Bool) (s t : System) → Step checks s t → Stuck s → Stuck t
unfolding start_loop start_returns test_loop publish enter_loop leave_loop destroy ask_quit
Step-Stuck checks s t (started_up g e) k = ground (arith, k.owner)
Step-Stuck checks s t (start created e) k = ground (arith, k.owner)
Step-Stuck checks s t (test e) k = ground (arith, k.owner)
Step-Stuck checks s t (wake_by_chance e) k = ground (arith, k.owner)
Step-Stuck checks s t (make_loop e) k = ground (arith, k.child)
Step-Stuck checks s t (enter e) k = ground (arith, k.owner)
Step-Stuck checks s t (leave e q) k = ground (arith, k.child)
Step-Stuck checks s t (end e) k = ground (arith, k.owner)
Step-Stuck checks s t (quit e) k = ground (arith, k.owner)
Step-Stuck checks s t (join e f) k = ground (arith, k.child)

Reach-Stuck : {checks : Bool} {s t : System} → Stuck s → Reach checks s t → Stuck t
Reach-Stuck k here = k
Reach-Stuck {checks} {t = u} k (later {t = t} r st) = Step-Stuck checks t u st (Reach-Stuck k r)

-- The destructor comes to its quit() while the new thread has still to enter loop(), or is there. In
-- the first case no run from there brings the destructor back; in the second one does.
pub ask_quit_lem :
    (checks : Bool) (s : System)
    → Reach checks fresh s
    → s.owner ≡ quitting
    → ((s.child ≡ published) ⊎ (s.child ≡ looping))
      × (s.child ≡ published → (t : System) → Reach checks (ask_quit s) t → t.owner ≢ gone)
      × (s.child ≡ looping → (t : System) × Reach checks (ask_quit s) t × (t.owner ≡ gone))
unfolding ask_quit leave_loop
ask_quit_lem checks s r e =
    let i = Reach-Inv r in
    (
      ground (arith, i.seen, i.at),
      λ f t run g.
          let k : Stuck (ask_quit s) = record { owner = refl; child = ground arith } in
          let stuck = Reach-Stuck k run in ground (arith, stuck.owner, g),
      λ f. (
        record (leave_loop (ask_quit s)) { owner = gone },
        later (later here (leave f refl)) (join refl refl),
        refl,
      ),
    )
