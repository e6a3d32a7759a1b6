-- ===== src/Tests/Loop.antt =====
-- Timers and the pool of loops at concrete inputs.
use jinyi.Loop.Pool.{
  EventLoopThreadPool, new_pool, start, get_next_loop, after_calls, get_next_loop-turn,
  running_pool,
}
use jinyi.Loop.Server.{Server, still_running, hand_new_conn}
use jinyi.Loop.Server.Accept.{After, hand_new_conn-After}
use jinyi.Loop.Timer.{
  Timeval, Timer, milliseconds, new_timer, is_valid, handle_expired_timer, Split, total,
  new_timer-is_valid, new_timer_forever, handle_expired_timer-Split,
}
use mathlib.Core.Bool.{true≢false}
use jinyi.Loop.Poller.Coherent.{IsCoherent, poller_step-IsCoherent}
use jinyi.Loop.Poller.Active.{poll-Found, Found}
use jinyi.Loop.Channel.{Channel, read_handler, bad_function_call, handle_event, wakeup_channel}
use jinyi.Loop.Poller.{wait_error, ready, polled, poll, Epoll, modify_channel, poller_step}
use jinyi.Prelude.{
  Option, zero, suc, none, ◌==◌, if◌then◌else◌, ℕ, ◌+◌, ◌%◌, ◌≡◌, refl, true, false, not, some,
  List, [], ◌∷◌, arith, ltb,
}

abbrev time : ℕ → ℕ → Timeval
time sec usec = record { tv_sec = sec; tv_usec = usec }

abbrev morning : Timeval
morning = time 1572566400 250000

new_timer-is_valid_example :
    ((is_valid (new_timer morning 500) (time 1572566401 0)).0
      ≡ ltb (total (time 1572566401 0)) (total morning + 500))
    × ((is_valid (new_timer morning 500) (time 1572566401 0)).1.deleted
        ≡ not (ltb (total (time 1572566401 0)) (total morning + 500)))
new_timer-is_valid_example = new_timer-is_valid morning (time 1572566401 0) 500 refl

-- One second before the period ends, with the timeout of a kept connection, and a day later.
new_timer_forever_example :
    (is_valid (new_timer (time 1572569999 0) 300000) (time 1572656399 0)).0 ≡ true
unfolding milliseconds
new_timer_forever_example =
    new_timer_forever (time 1572569999 0) (time 1572656399 0) 300000 (omega arith) (omega arith)

abbrev queue : List Timer
queue =
    record { deleted = false; expired_time = 100 }
    ∷ record { deleted = true; expired_time = 6000 }
    ∷ record { deleted = false; expired_time = 7000 }
    ∷ []

handle_expired_timer-Split_example :
    Split (λ i. time 5 i) 0 queue (handle_expired_timer (λ i. time 5 i) 0 queue)
handle_expired_timer-Split_example =
    handle_expired_timer-Split (λ i. time 5 i) 0 queue
      ((omega arith, (omega arith, tt)), ((omega arith, tt), (tt, tt)))

get_next_loop-turn_example :
    (p q r : EventLoopThreadPool) × (new_pool 7 3 ≡ some p)
    × (after_calls 5 (start (λ i. 100 + i) p) ≡ some q)
    × (get_next_loop q ≡ some (100 + 5 % 3, r))
get_next_loop-turn_example = get_next_loop-turn (λ i. 100 + i) 7 3 5 (omega arith)

-- One registered channel at 40 for descriptor 7, which now asks for EPOLLOUT too.
abbrev channel_7 : Channel
channel_7 = record {
  fd = 7;
  events = 5;
  revents = 0;
  last_events = 1;
  has_read_handler = true;
  has_write_handler = true;
  has_error_handler = false;
  has_conn_handler = true;
}

abbrev poller : Epoll
poller = record {
  channels = λ c. channel_7;
  fd2chan = λ fd. if fd == 7 then some 40 else none;
  interest = λ fd. if fd == 7 then some 1 else none;
}

poller-IsCoherent : IsCoherent poller
poller-IsCoherent j e h = (40, ground (arith, h), ground (arith, h), ground (arith, h))

poller_step-IsCoherent_example : IsCoherent (poller_step true (modify_channel 40) poller)
poller_step-IsCoherent_example =
    poller_step-IsCoherent true (modify_channel 40) poller (λ e. absurd (true≢false e), refl)
      poller-IsCoherent

-- epoll_wait fails, then its time is up, then it reports a descriptor without a channel, and then
-- descriptor 7 twice.
poll-Found_example :
    (cs : List ℕ) × (q : Epoll) × (poll poller
        (wait_error ∷ ready [] ∷ ready ((8, 1) ∷ []) ∷ ready ((7, 1) ∷ (7, 4) ∷ []) ∷ ready [] ∷ [])
      ≡ polled cs q (ready [] ∷ []))
    × Found poller ((7, 1) ∷ (7, 4) ∷ []) cs q
poll-Found_example =
    poll-Found poller (wait_error ∷ ready [] ∷ ready ((8, 1) ∷ []) ∷ []) (ready [] ∷ []) (7, 1)
      ((7, 4) ∷ []) (tt, (tt, ((refl, tt), tt))) ((1, refl), ((1, refl), tt)) poller-IsCoherent

handle_event_runs :
    handle_event (wakeup_channel 9 1 2147483649)
    ≡ bad_function_call (read_handler ∷ []) (wakeup_channel 9 1 0)
unfolding handle_event
handle_event_runs = refl

-- Two loops; accept answers 9, 10000, and then -1 for ever.
abbrev answers : ℕ → Option ℕ
answers zero = some 9
answers (suc zero) = some 10000
answers _ = none

abbrev server : Server
server = record {
  pool = running_pool (λ i. 100 + i) 7 1 0;
  started = true;
  accept_channel = none;
  listen_fd = 3;
  closed = [];
  made_non_blocking = [];
  made_no_delay = [];
  chosen = [];
}

hand_new_conn-After_example :
    (s' : Server) × (hand_new_conn answers 5 0 server ≡ still_running s')
    × After (λ i. 100 + i) answers 7 1 5 0 server s'
hand_new_conn-After_example = hand_new_conn-After (λ i. 100 + i) answers 7 1 5 0 server refl
