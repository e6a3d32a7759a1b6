-- ===== src/Http/Reset.antt =====
-- HttpData::reset and HttpData::seperateTimer, with Timer::clearReq (net/Timer.cpp), which calls
-- `reset` of the HttpData that the timer belongs to. The calls nest, so they take fuel: `none` means
-- that it ran out.
use jinyi.Http.Types.{HttpData, state_parse_uri, h_start}
use jinyi.Prelude.{
  ℕ, zero, suc, ◌≡◌, refl, ◌∙◌, inl, inr, Bool-cases, true, false, Option, none, some, [],
  if◌then◌else◌, arith,
}

-- The assignments in front of the test of `timer_`.
abbrev pub cleared : HttpData → HttpData
cleared d = record d {
  file_name = [];
  path = [];
  now_read_pos = 0;
  state = state_parse_uri;
  h_state = h_start;
  headers = [];
}

-- `timer_.reset()` behind a call that returned.
abbrev pub unlink : Option HttpData → Option HttpData
unlink none = none
unlink (some d) = some (record d { timer_linked = false })

-- While the timer is linked, `clearReq` calls `reset` again; `timer_.reset()` comes after it.
unfoldable pub reset : ℕ → HttpData → Option HttpData
reset zero d = none
reset (suc fuel) d =
    let nested = reset fuel (cleared d) in
    if d.timer_linked then unlink nested else some (cleared d)

unfoldable pub seperate_timer : ℕ → HttpData → Option HttpData
seperate_timer fuel d = if d.timer_linked then unlink (reset fuel d) else some d

pub reset_unlinked :
    (fuel : ℕ) (d : HttpData) → d.timer_linked ≡ false → reset (suc fuel) d ≡ some (cleared d)
unfolding reset
reset_unlinked fuel d h = ground arith

pub seperate_timer_unlinked :
    (fuel : ℕ) (d : HttpData) → d.timer_linked ≡ false → seperate_timer fuel d ≡ some d
unfolding seperate_timer
seperate_timer_unlinked fuel d h = ground arith

reset_linked : (fuel : ℕ) (d : HttpData) → d.timer_linked ≡ true → reset fuel d ≡ none
unfolding reset
reset_linked zero d h = refl
reset_linked (suc fuel) d h = ground (arith, reset_linked fuel (cleared d))

-- With a timer linked neither `reset` nor `seperateTimer` ever returns, whatever the fuel: `clearReq`
-- and `reset` call one another before the link is cut. With none linked both return.
pub reset_returns :
    (d : HttpData) (fuel : ℕ)
    → (reset (suc fuel) d ≡ (if d.timer_linked then none else some (cleared d)))
      × (seperate_timer fuel d ≡ (if d.timer_linked then none else some d))
unfolding seperate_timer
reset_returns d fuel = elim (Bool-cases d.timer_linked) [
  | inl h ↦ (reset_linked (suc fuel) d h ∙ rw h, ground (arith, reset_linked fuel d h))
  | inr h ↦ (reset_unlinked fuel d h ∙ rw h, rw h)
]
