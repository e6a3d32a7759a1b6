-- ===== src/Tests/Handlers.antt =====
-- The handlers of a connection on concrete requests.
use jinyi.Http.Analysis.{analysis_request, asks_keep_alive, status_lines, entity_lines, file_type}
use jinyi.Http.Conn.{receives, Conn, epoll_in, LoopCall, is_empty}
use jinyi.Http.Handlers.Cycle.{next_calls, handle_conn-Served}
use jinyi.Http.Handlers.Malformed.{handle_read_nameless}
use jinyi.Http.Handlers.SplitLine.{handle_read_split}
use jinyi.Http.Reply.{handle_error, c_str}
use jinyi.Http.Handlers.Returns.{handle_read_returns}
use jinyi.Http.Uri.{parse_method}
use jinyi.Prelude.Bits.{set_bit}
use jinyi.Http.Handlers.Request.{IsIdle, request_text, first_line, IsRequest, understood}
use jinyi.Http.Handlers.Served.{Served, answer, handle_read-Served}
use jinyi.Http.Handlers.{done, out_of_fuel, handle_read, handle_conn}
use jinyi.Http.Types.{analysis_success, lookup, insert, new_http_data}
use jinyi.Prelude.Decimal.{to_string}
use jinyi.Prelude.{
  true, find_byte, find_text, List, ◌||◌, ◌≢◌, ◌≡◌, refl, false, none, some, [], ◌∷◌, ◌++◌, arith,
  codes, bytes_eq, lacks-Lacks,
}
use jinyi.Util.{got, writen}
use jinyi.Tests.Data.{get_a, one_file, wide}

abbrev idle_conn : Conn
idle_conn = record {
  http = new_http_data;
  socket = record wide { incoming = got (request_text get_a) ∷ [] };
  calls = [];
}

idle_conn-IsIdle : IsIdle idle_conn
idle_conn-IsIdle = ground arith

get_a-IsRequest : IsRequest get_a
get_a-IsRequest = record {
  spaceless = lacks-Lacks b' ' (codes "a.txt?v=1") refl;
  clean = lacks-Lacks b'?' (codes "a.txt") refl;
  unbroken = lacks-Lacks b'\r' (first_line get_a) refl;
  unambiguous = tt;
  well_formed = ground arith;
}

answers_a : (answer one_file idle_conn get_a).0 ≡ analysis_success
unfolding analysis_request bytes_eq
answers_a = refl

writes_a :
    (writen
      (answer one_file idle_conn get_a).2
      (answer one_file idle_conn get_a).1.out_buffer).0.written
    ≡ some 96
unfolding analysis_request bytes_eq writen status_lines entity_lines file_type asks_keep_alive
    lookup insert to_string find_byte c_str
writes_a = refl

handle_read-Served_example :
    (c' : Conn) × (handle_read 1 one_file idle_conn ≡ done c')
    × Served idle_conn (answer one_file idle_conn get_a).1.out_buffer c'
handle_read-Served_example =
    handle_read-Served one_file idle_conn get_a 0 96 idle_conn-IsIdle get_a-IsRequest refl answers_a
      writes_a

abbrev next_a : Conn → List LoopCall
next_a c' =
    next_calls (is_empty c'.http.out_buffer)
      (asks_keep_alive (understood new_http_data get_a) || false)

handle_conn-Served_example :
    (c' c'' : Conn) × (handle_read 1 one_file idle_conn ≡ done c')
    × (handle_conn 0 c' ≡ done c'')
    × (c''.calls ≡ [] ++ next_a c')
handle_conn-Served_example =
    handle_conn-Served one_file idle_conn get_a 0 96 idle_conn-IsIdle get_a-IsRequest refl answers_a
      writes_a refl

-- Two requests in one piece, with the buffer read in two parts.
abbrev pipelined : Conn
pipelined = record idle_conn {
  socket = record wide { incoming = got (request_text get_a) ∷ got (request_text get_a) ∷ [] };
}

handle_read_returns_example : handle_read 400 one_file pipelined ≢ out_of_fuel
handle_read_returns_example = handle_read_returns 400 one_file pipelined refl (omega arith)

abbrev posted : Conn
posted = record idle_conn {
  socket = record wide { incoming = got (codes "POST / HTTP/1.1" ++ b'\r' ∷ codes "\n") ∷ [] };
}

posted-IsIdle : IsIdle posted
posted-IsIdle = ground arith

parse_method-post : parse_method (codes "POST / HTTP/1.1") ≡ none
unfolding parse_method find_text
parse_method-post = refl

handle_read_nameless_example :
    handle_read 1 one_file posted
    ≡ done (record posted {
      http = record posted.http {
        in_buffer = codes "\n";
        events = set_bit epoll_in posted.http.events;
      };
      socket = record posted.socket { incoming = [] };
    })
handle_read_nameless_example =
    handle_read_nameless one_file posted (codes "POST / HTTP/1.1") (codes "\n") 0 posted-IsIdle
      (lacks-Lacks b'\r' (codes "POST / HTTP/1.1") refl) parse_method-post refl

-- GET /a, and then the rest of the line.
abbrev half_sent : Conn
half_sent = record idle_conn { socket = record wide { incoming = got (codes "GET /a") ∷ [] } }

half_sent-IsIdle : IsIdle half_sent
half_sent-IsIdle = ground arith

handle_read_split_example :
    (c₁ c₂ : Conn) × (handle_read 1 one_file half_sent ≡ done c₁)
    × (handle_read 1 one_file (receives c₁ (codes " HTTP/1.1" ++ b'\r' ∷ codes "\n")) ≡ done c₂)
    × (c₁.http.error ≡ false)
    × (c₂.http.error ≡ true)
    × (handle_error 400 (codes "Bad Request") (record half_sent.socket { incoming = [] })
        ≡ some c₂.socket)
handle_read_split_example =
    handle_read_split one_file half_sent b'G' (codes "ET /a") (codes " HTTP/1.1") (codes "\n") 0
      half_sent-IsIdle (ground arith) (ground arith) refl
