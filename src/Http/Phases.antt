-- ===== src/Http/Phases.antt =====
-- The `do { … } while (false)` block of HttpData::handleRead, in its four phases.
use jinyi.Http.Analysis.{Site, analysis_request}
use jinyi.Http.Conn.{Conn, is_disconnecting}
use jinyi.Http.Headers.{HeaderResult, returned, undefined, parse_headers}
use jinyi.Http.Reply.{after_error}
use jinyi.Http.Types.{
  state_parse_uri, state_parse_headers, state_analysis, state_finish, UriState, parse_uri_error,
  parse_header_success, parse_header_again, parse_header_error, AnalysisState, analysis_success,
  analysis_error, disconnecting, HttpData,
}
use jinyi.Http.Uri.{parse_uri}
use jinyi.Prelude.{Bool, true, false, none, some, [], codes, ◌==◌, if◌then◌else◌}
use jinyi.Util.{Socket, ReadDone, readn}

-- How a phase of the `do { … } while (false)` block ends: at a `break`, by going on, or undefined.
pub data Phase : Type 0 where
  leave : Conn → Phase
  proceed : Conn → Phase
  broken : Phase

abbrev pub then_phase : Phase → (Conn → Phase) → Phase
then_phase (leave c) next = leave c
then_phase (proceed c) next = next c
then_phase broken next = broken

bad_request : Conn → Conn
bad_request c = record c {
  http = record c.http { error = true };
  socket = after_error 400 (codes "Bad Request") c.socket;
}

-- Reading, and the three tests of its result.
receive_done : Conn → ReadDone → Phase
unfolding bad_request
receive_done c r =
    let read = record c {
      http = record c.http { in_buffer = r.buffer };
      socket = record c.socket { incoming = r.unread };
    } in
    if is_disconnecting c.http.connection_state
    then leave (record read { http = record read.http { in_buffer = [] } })
    else elim r.count [
      | none ↦ leave (bad_request read)
      | some n ↦
          if r.zero_read
          then (let closing = record read {
            http = record read.http { connection_state = disconnecting };
          } in
              if n == 0 then leave closing else proceed closing)
          else proceed read
    ]

unfoldable pub receive : Conn → Phase
unfolding receive_done
receive c = receive_done c (readn c.socket c.http.in_buffer)

abbrev pub is_uri_error : UriState → Bool
is_uri_error parse_uri_error = true
is_uri_error _ = false

-- The two tests are written as in the source, where both ask for PARSE_URI_ERROR.
uri_done : Conn → UriState × HttpData → Phase
unfolding bad_request
uri_done c (flag, d) =
    if is_uri_error flag
    then leave (record c { http = d })
    else if is_uri_error flag
    then leave (bad_request (record c { http = record d { in_buffer = [] } }))
    else proceed (record c { http = record d { state = state_parse_headers } })

unfoldable pub uri_phase : Conn → Phase
unfolding uri_done
uri_phase c = elim c.http.state [ state_parse_uri ↦ uri_done c (parse_uri c.http) | _ ↦ proceed c ]

headers_done : Conn → HeaderResult → Phase
unfolding bad_request
headers_done c undefined = broken
headers_done c (returned parse_header_again d) = leave (record c { http = d })
headers_done c (returned parse_header_error d) = leave (bad_request (record c { http = d }))
headers_done c (returned parse_header_success d) =
    proceed (record c { http = record d { state = state_analysis } })

unfoldable pub headers_phase : Conn → Phase
unfolding headers_done
headers_phase c = elim c.http.state [
  | state_parse_headers ↦ headers_done c (parse_headers c.http)
  | _ ↦ proceed c
]

analysis_done : Conn → AnalysisState × HttpData × Socket → Phase
analysis_done c (analysis_success, d, s) =
    leave (record c { http = record d { state = state_finish }; socket = s })
analysis_done c (analysis_error, d, s) =
    leave (record c { http = record d { error = true }; socket = s })

unfoldable pub analysis_phase : Site → Conn → Phase
unfolding analysis_done
analysis_phase site c = elim c.http.state [
  | state_analysis ↦ analysis_done c (analysis_request site c.http c.socket)
  | _ ↦ proceed c
]

-- The block: it ends the same way at a `break` and at its end.
unfoldable pub read_block : Site → Conn → Phase
read_block site c = then_phase (receive c) (λ c₁.
    then_phase (uri_phase c₁) (λ c₂. then_phase (headers_phase c₂) (λ c₃. analysis_phase site c₃)))
