-- ===== src/Sync/Thread.antt =====
-- Thread::start, join and the new thread's ThreadData::runInThread (base/Thread.cpp), and
-- CurrentThread::tid (base/CurrentThread.h). Whether pthread_create succeeds and what gettid() answers
-- are given. The starter and the new thread take turns in any order; `latch` is the latch of count 1
-- that starts the thread, whose `wait` and `countDown` are those of Sync/Latch.
pub mod Started
pub mod Handles
use jinyi.Prelude.Int.{ℤ, pos}
use jinyi.Prelude.{
  ℕ, ◌+◌, ◌≡◌, Bool, true, false, not, ◌&&◌, Option, none, some, ltb, ◌==◌, if◌then◌else◌,
}
use jinyi.Sync.Latch.{is_positive, decrement}

-- `t_cachedTid`, also spelt `t_cacheTid`, of one thread.
pub record Locals : Type 0 where
  pub cached_tid : ℕ

abbrev pub fresh_locals : Locals
fresh_locals = record { cached_tid = 0 }

unfoldable pub cache_tid : ℕ → Locals → Locals
cache_tid gettid t = if t.cached_tid == 0 then record t { cached_tid = gettid } else t

-- The comma operator.
abbrev comma : Bool → Bool → Bool
comma a b = b

-- `if (__builtin_expect(t_cachedTid==0),0)`: the condition is the 0 behind the comma.
unfoldable pub tid : ℕ → Locals → ℕ × Locals
unfolding cache_tid
tid gettid t =
    let t' = if comma (t.cached_tid == 0) false then cache_tid gettid t else t in
    (t'.cached_tid, t')

-- tid() in a thread of which gettid() answers `gettid`. No call changes the thread's locals.
unfoldable pub current_tid : ℕ → ℕ
unfolding tid
current_tid gettid = (tid gettid fresh_locals).0

pub record Thread : Type 0 where
  pub started : Bool
  pub joined : Bool
  pub tid : ℕ
  pub latch : ℤ

abbrev pub new_thread : Thread
new_thread = record { started = false; joined = false; tid = 0; latch = pos 1 }

-- The starter: before `start`, in latch_.wait(), behind its assertion, at a failed assertion, or back
-- after pthread_create failed.
pub data Starter : Type 0 where
  before : Starter
  waiting : Starter
  running : Starter
  assert_failed : Starter
  create_failed : Starter

-- The new thread: not there, at its first line, with tid_ set, behind countDown, at the end.
pub data Child : Type 0 where
  absent : Child
  born : Child
  named : Child
  counted : Child
  ended : Child

pub record System : Type 0 where
  pub thread : Thread
  pub starter : Starter
  pub child : Child

abbrev pub fresh : System
fresh = record { thread = new_thread; starter = before; child = absent }

-- The first lines of `start`, up to `latch_.wait()`, by the answer of pthread_create.
unfoldable pub begin : Bool → System → System
begin created s =
    if s.thread.started
    then record s { starter = assert_failed }
    else if created
    then record s { thread = record s.thread { started = true }; starter = waiting; child = born }
    else record s { thread = record s.thread { started = false }; starter = create_failed }

-- `assert(tid_ > 0)` behind the wait.
unfoldable pub check_tid : System → System
check_tid s = record s { starter = if ltb 0 s.thread.tid then running else assert_failed }

-- runInThread sets tid_, counts the latch down, and calls the function.
unfoldable pub set_tid : ℕ → System → System
set_tid value s = record s { thread = record s.thread { tid = value }; child = named }

unfoldable pub count_down : System → System
count_down s = record s {
  thread = record s.thread { latch = decrement s.thread.latch };
  child = counted;
}

-- `gettid` is what gettid() answers in the new thread, which stores what tid() makes of it.
pub data Step (gettid : ℕ) (s : System) : System → Type 0 where
  start : (created : Bool) → s.starter ≡ before → Step gettid s (begin created s)
  wait_returns :
      s.starter ≡ waiting → is_positive s.thread.latch ≡ false → Step gettid s (check_tid s)
  store_tid : s.child ≡ born → Step gettid s (set_tid (current_tid gettid) s)
  release : s.child ≡ named → Step gettid s (count_down s)
  function_ends : s.child ≡ counted → Step gettid s (record s { child = ended })

pub data Reach (gettid : ℕ) : System → Type 0 where
  at_start : Reach gettid fresh
  later : {s t : System} → Reach gettid s → Step gettid s t → Reach gettid t

-- `join`: the answer of pthread_join, or `none` at a failed assertion.
unfoldable pub join : ℕ → Thread → Option (ℕ × Thread)
join answer t =
    if t.started && not t.joined then some (answer, record t { joined = true }) else none
