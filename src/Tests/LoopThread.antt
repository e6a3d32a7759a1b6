-- ===== src/Tests/LoopThread.antt =====
-- startLoop and the destructor of an EventLoopThread.
use jinyi.Loop.EventLoopThread.{
  System, fresh, start_loop, start_returns, started_up, test_loop, start, test, Reach, here, later,
}
use jinyi.Prelude.{refl, true, false}

-- Without assertions the owner tests loop_ before the new thread has set it.
abbrev sleeping : (s : System) × Reach false fresh s
unfolding start_loop start_returns test_loop
sleeping = (_, later (later (later here (start true refl)) (started_up 42 refl)) (test refl))
