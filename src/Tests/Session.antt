-- ===== src/Tests/Session.antt =====
-- Two requests on one connection, the first of which asks to keep it.
use jinyi.Http.Analysis.{analysis_request, status_lines, entity_lines, file_type, asks_keep_alive}
use jinyi.Http.Conn.{Conn}
use jinyi.Loop.Serving.{Ctl}
use jinyi.Loop.Serving.Registered.{FailsOnlyAbsent}
use jinyi.Http.Handlers.Request.{IsIdle, Request, first_line, IsRequest}
use jinyi.Http.Reply.{c_str}
use jinyi.Http.Session.Answers.{Session, serve_events-Session}
use jinyi.Http.Session.Behind.{verdict, response}
use jinyi.Http.Types.{analysis_success, lookup, insert, new_http_data}
use jinyi.Prelude.Decimal.{to_string}
use jinyi.Prelude.{
  ◌≡◌, ◌≤◌, refl, [], ◌∷◌, arith, codes, length, bytes_eq, find_byte, lacks-Lacks, true, false,
  none, some,
}
use jinyi.Tests.Data.{get_a, one_file, wide}
use jinyi.Util.{room}

abbrev pub keep_a : Request
keep_a = record get_a { field = (codes "Connection", codes "Keep-Alive") }

abbrev fresh_conn : Conn
fresh_conn = record {
  http = new_http_data;
  socket = record wide { outgoing = room 5000 ∷ room 400 ∷ [] };
  calls = [];
}

fresh_conn-IsIdle : IsIdle fresh_conn
fresh_conn-IsIdle = ground arith

pub get_a-IsRequest : IsRequest get_a
get_a-IsRequest = record {
  spaceless = lacks-Lacks b' ' (codes "a.txt?v=1") refl;
  clean = lacks-Lacks b'?' (codes "a.txt") refl;
  unbroken = lacks-Lacks b'\r' (first_line get_a) refl;
  unambiguous = tt;
  well_formed = ground arith;
}

pub keep_a-IsRequest : IsRequest keep_a
keep_a-IsRequest = record {
  spaceless = get_a-IsRequest.spaceless;
  clean = get_a-IsRequest.clean;
  unbroken = get_a-IsRequest.unbroken;
  unambiguous = tt;
  well_formed = ground arith;
}

pub verdicts :
    (verdict one_file keep_a ≡ analysis_success) × (verdict one_file get_a ≡ analysis_success)
unfolding analysis_request bytes_eq
verdicts = (refl, refl)

pub lengths : (length (response one_file keep_a) ≤ 5000) × (length (response one_file get_a) ≤ 400)
unfolding analysis_request bytes_eq status_lines entity_lines file_type asks_keep_alive lookup
    insert to_string find_byte c_str
lengths = (omega arith, omega arith)

serve_events-Session_example : (c' : Conn) × Session 0 one_file fresh_conn (keep_a ∷ get_a ∷ []) c'
serve_events-Session_example =
    serve_events-Session 0 one_file (keep_a ∷ get_a ∷ []) fresh_conn fresh_conn-IsIdle refl
      ((keep_a-IsRequest, verdicts.0), ((get_a-IsRequest, verdicts.1), tt))
      (lengths.0, (lengths.1, tt))

-- A change of an entry fails if the descriptor is not in the list.
abbrev pub is_listed : Ctl
is_listed list fd = elim (list fd) [ none ↦ false | some e ↦ true ]

pub is_listed-FailsOnlyAbsent : FailsOnlyAbsent is_listed
is_listed-FailsOnlyAbsent list fd h = ground (arith, h)
