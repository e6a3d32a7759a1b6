-- ===== src/Loop.antt =====
-- net/: the event loop's parts that are not about one connection: timers, the pool of loops, the
-- table of the poller.
pub mod Timer
pub mod Pool
pub mod Channel
pub mod Poller
pub mod EventLoop
pub mod EventLoopThread
pub mod Server
pub mod Serving
