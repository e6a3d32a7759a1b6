-- ===== src/Tests/Async.antt =====
-- Runs of AsyncLogging.
use jinyi.Log.Async.{
  AsyncLogging, append, append_full, System, new_buffer, thread_func, collect, write_out, refill,
}
use jinyi.Log.Stream.{append as append_text}
use jinyi.Log.Async.Lines.{Stored, append-Stored}
use jinyi.Log.Async.Output.{lines, run-content}
use jinyi.Log.Async.Output.Content.{content}
use jinyi.Log.Async.Run.{log, thread, stop, Event, step, run, started}
use jinyi.Log.Async.Safe.{IsSafe}
use jinyi.Log.Async.Thread.{run-IsSafe, started-IsSafe}
use jinyi.Log.Stream.{large_buffer, avail}
use jinyi.Log.Logger.{Logger, new_logger, write, finished_line, Logged, destroy-Stored}
use jinyi.Log.Convert.{convert}
use jinyi.Log.Stream.{put_all, put, Put, put_text, put_int}
use jinyi.Prelude.Int.{pos}
use jinyi.Prelude.{
  none, Option, true, false, ℕ, zero, suc, ◌≡◌, refl, false, ◌++◌, ltb, length, Option, none, some,
  List, [], ◌∷◌, Bytes, codes, arith,
}

abbrev events : List Event
events = log (codes "one") ∷ thread ∷ log (codes "two") ∷ thread ∷ thread ∷ stop ∷ thread ∷ []

run-IsSafe_example : (s : System) × (run events started ≡ some s) × IsSafe s
run-IsSafe_example = run-IsSafe events

-- What such a run has handed to LogFile.
abbrev output_of : Option System → List Bytes
output_of none = []
output_of (some s) = s.output

run_runs : output_of (run events started) ≡ codes "onetwo" ∷ []
unfolding run step append append_text thread_func collect write_out refill
run_runs = refl

append-Stored_example :
    (a' : AsyncLogging) × (append started.logging (codes "one") ≡ some a')
    × Stored (codes "one") started.logging a'
append-Stored_example = append-Stored started (codes "one") started-IsSafe (omega arith)

-- Text that no buffer has room for.
repeated : ℕ → Bytes
repeated zero = []
repeated (suc n) = 97 ∷ repeated n

length-repeated : (n : ℕ) → length (repeated n) ≡ n
unfolding repeated
length-repeated zero = refl
length-repeated (suc n) = omega (arith, length-repeated n)

abbrev overflowed_by : Bytes → System
overflowed_by line = record started { logging = append_full started.logging 0 line }

abbrev overflowed : System
overflowed = overflowed_by (repeated large_buffer)

run_overflows_by :
    (line : Bytes)
    → ltb (length line) (avail new_buffer) ≡ false
    → run (log line ∷ []) started ≡ some (overflowed_by line)
unfolding run step append
run_overflows_by line full = rw (run, step, append, full) refl

run_overflows : run (log (repeated large_buffer) ∷ []) started ≡ some overflowed
run_overflows =
    run_overflows_by (repeated large_buffer) (ground (arith, length-repeated large_buffer))

run-content_example : (s : System) × (run events started ≡ some s) × (content s ≡ lines events)
run-content_example = run-content events (omega arith)

abbrev now : Bytes
now = codes "2019-11-20 10:00:00\n"

abbrev operands : List Put
operands = put_text (some (codes "fd=")) ∷ put_int (pos 7) ∷ []

abbrev server_line : Option Bytes
server_line = elim (new_logger false now (codes "Server.cpp") (pos 52)) [
  | none ↦ none
  | some l ↦ some (finished_line (write l operands))
]

finished_line_runs :
    server_line ≡ some (now ++ (0 ∷ 0 ∷ 0 ∷ 0 ∷ 0 ∷ 0 ∷ codes "fd=7 --Server.cpp:52\n"))
unfolding finished_line write new_logger put_all put convert
finished_line_runs = refl

destroy-Stored_example :
    (new_logger true now (codes "Server.cpp") (pos 52) ≡ none)
    × (l : Logger) × (new_logger false now (codes "Server.cpp") (pos 52) ≡ some l)
    × Logged now (codes "Server.cpp") (pos 52) operands started.logging l
destroy-Stored_example =
    destroy-Stored now (codes "Server.cpp") (pos 52) operands started (omega arith)
      (tt, (omega arith, tt)) started-IsSafe
