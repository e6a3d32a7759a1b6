-- ===== src/Tests.antt =====
-- Runs of the modelled functions on concrete inputs, and each headline theorem at an input where its
-- hypotheses hold.
mod Data
mod Http
mod Handlers
mod Session
mod Util
mod Async
mod Loop
mod LoopThread
mod EventLoop
mod Sync
mod Log
mod Rounds
