-- ===== src/Log/Async/Run.antt =====
-- Runs of AsyncLogging: any order of log lines, steps of the back-end thread and `stop`.
use jinyi.Log.Async.{new_buffer, append, at_top, System, thread_func}
use jinyi.Prelude.{true, false, Option, none, some, List, [], ◌∷◌, Bytes}

pub data Event : Type 0 where
  log : Bytes → Event
  thread : Event
  -- `running_ = false` in `stop`
  stop : Event

unfoldable pub step : Event → System → Option System
step (log line) s = elim (append s.logging line) [
  | none ↦ none
  | some a ↦ some (record s { logging = a })
]
step thread s = thread_func s
step stop s = some (record s { logging = record s.logging { running = false } })

unfoldable pub run : List Event → System → Option System
run [] s = some s
run (e ∷ es) s = elim (step e s) [ none ↦ none | some s' ↦ run es s' ]

-- The constructor's two buffers and the thread's two, when `start` returns.
abbrev pub started : System
started = record {
  logging = record {
    heap = λ p. new_buffer;
    fresh = 4;
    running = true;
    current_buffer = some 0;
    next_buffer = some 1;
    buffers = [];
  };
  phase = at_top;
  new_buffer1 = some 2;
  new_buffer2 = some 3;
  buffers_to_write = [];
  output = [];
}
