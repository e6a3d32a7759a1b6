-- ===== src/Loop/EventLoopThread.antt =====
-- EventLoopThread (net/EventLoopThread.cpp): startLoop and the destructor in the thread that owns it,
-- beside threadFunc in the new thread. A step is a critical section, or what one thread does up to the
-- next place where the other can come in. The class is declared nowhere; its members are those of the
-- constructor. Of Thread::start two things are told apart: whether pthread_create makes a thread, and,
-- behind the latch, its last assertion. `checks` is whether assertions are compiled in. The EventLoop
-- is its quit_, and only the destructor asks the loop to quit.
pub mod Safe
use jinyi.Prelude.{ℕ, ◌≡◌, Bool, true, false, not, ◌&&◌, ltb, if◌then◌else◌}
use jinyi.Sync.Thread.{current_tid}

-- The owner: before startLoop, in Thread::start with a thread made, at the test of its loop, asleep in
-- the condition, back from startLoop; in the destructor between its test and quit(), in join, behind
-- the destructor; at a failed assertion.
pub data Owner : Type 0 where
  before : Owner
  starting : Owner
  testing : Owner
  asleep : Owner
  returned : Owner
  quitting : Owner
  joining : Owner
  gone : Owner
  assert_failed : Owner

-- The new thread: not there, before its critical section, behind it, in loop(), behind threadFunc.
pub data Child : Type 0 where
  absent : Child
  born : Child
  published : Child
  looping : Child
  ended : Child

-- `loop` is whether loop_ points to a loop.
pub record System : Type 0 where
  pub started : Bool
  pub loop : Bool
  pub exiting : Bool
  pub quit : Bool
  pub owner : Owner
  pub child : Child

abbrev pub fresh : System
fresh = record {
  started = false;
  loop = false;
  exiting = false;
  quit = false;
  owner = before;
  child = absent;
}

-- startLoop up to the latch of Thread::start, or behind it where pthread_create makes no thread, by the
-- answer of pthread_create.
unfoldable pub start_loop : Bool → Bool → System → System
start_loop checks created s =
    if checks && s.started
    then record s { owner = assert_failed }
    else if created
    then record s { started = true; owner = starting; child = born }
    else record s { started = false; owner = testing }

-- `assert(tid_ > 0)`, where tid_ is what tid() makes of the answer of gettid() in the new thread.
unfoldable pub start_returns : Bool → ℕ → System → System
unfolding current_tid
start_returns checks gettid s = record s {
  owner = if checks && not (ltb 0 (current_tid gettid)) then assert_failed else testing;
}

-- `while (loop_ == NULL) cond_.wait();`
unfoldable pub test_loop : System → System
test_loop s = record s { owner = if s.loop then returned else asleep }

abbrev pub notify : Owner → Owner
notify asleep = testing
notify p = p

-- threadFunc: its critical section, the entry of loop(), which sets quit_ to false, and what follows.
unfoldable pub publish : System → System
publish s = record s { loop = true; owner = notify s.owner; child = published }

unfoldable pub enter_loop : System → System
enter_loop s = record s { quit = false; child = looping }

unfoldable pub leave_loop : System → System
leave_loop s = record s { loop = false; child = ended }

-- The destructor's test, and its quit().
unfoldable pub destroy : System → System
destroy s = record s { exiting = true; owner = if s.loop then quitting else gone }

unfoldable pub ask_quit : System → System
ask_quit s = record s { quit = true; owner = joining }

pub data Step (checks : Bool) (s : System) : System → Type 0 where
  start : (created : Bool) → s.owner ≡ before → Step checks s (start_loop checks created s)
  started_up : (gettid : ℕ) → s.owner ≡ starting → Step checks s (start_returns checks gettid s)
  test : s.owner ≡ testing → Step checks s (test_loop s)
  wake_by_chance : s.owner ≡ asleep → Step checks s (record s { owner = testing })
  make_loop : s.child ≡ born → Step checks s (publish s)
  enter : s.child ≡ published → Step checks s (enter_loop s)
  leave : s.child ≡ looping → s.quit ≡ true → Step checks s (leave_loop s)
  end : s.owner ≡ returned → Step checks s (destroy s)
  quit : s.owner ≡ quitting → Step checks s (ask_quit s)
  join : s.owner ≡ joining → s.child ≡ ended → Step checks s (record s { owner = gone })

pub data Reach (checks : Bool) (s : System) : System → Type 0 where
  here : Reach checks s s
  later : {t u : System} → Reach checks s t → Step checks t u → Reach checks s u
