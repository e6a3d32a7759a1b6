-- ===== src/Tests/Http.antt =====
-- HttpData on concrete requests.
use jinyi.Http.Analysis.Response.{Responds, analysis_request-Responds}
use jinyi.Http.Analysis.{analysis_request}
use jinyi.Http.Handlers.Request.{first_line, understood}
use jinyi.Http.Headers.Defined.{ReturnsFilled, parse_headers-ReturnsFilled}
use jinyi.Http.Headers.RoundTrip.{block, insert_all, parse_headers-block}
use jinyi.Http.Headers.Scan.{field_text}
use jinyi.Http.Headers.Split.{parse_headers_split}
use jinyi.Http.Headers.{returned, undefined, parse_headers}
use jinyi.Http.Mime.{init}
use jinyi.Http.Reply.{
  c_str, is_returned, Returned, bad_request_text, not_found_text, error_reply, handle_error,
  handle_error_lem, send_buff_size,
}
use jinyi.Http.Reset.{reset, seperate_timer, reset_returns}
use jinyi.Http.Types.{
  parse_uri_success, parse_header_success, parse_header_again, method_get, http_1_1, lookup, insert,
  h_blank_line_lf, HttpData, new_http_data,
}
use jinyi.Http.Uri.RequestLine.{parse_uri-request_line}
use jinyi.Http.Uri.{parse_uri}
use jinyi.Prelude.{
  ◌+◌, leb, ◌≡◌, refl, false, true, none, some, [], ◌∷◌, ◌++◌, arith, codes, length, bytes_eq,
  bytes_eq_iff, lacks-Lacks,
}
use jinyi.Tests.Data.{host, accept, get_a, one_file, wide}

abbrev arrived : HttpData
arrived = record new_http_data { in_buffer = first_line get_a ++ b'\r' ∷ codes "\nrest" }

parse_uri-request_line_example : parse_uri arrived ≡ (
  parse_uri_success,
  record arrived {
    in_buffer = codes "\nrest";
    method = method_get;
    file_name = codes "a.txt";
    http_version = http_1_1;
  },
)
parse_uri-request_line_example =
    parse_uri-request_line arrived method_get (codes "a.txt") (some (codes "v=1")) http_1_1
      (codes "\nrest") refl refl (lacks-Lacks b' ' (codes "a.txt?v=1") refl)
      (lacks-Lacks b'?' (codes "a.txt") refl) (lacks-Lacks b'\r' (first_line get_a) refl) tt

abbrev headed : HttpData
headed = record new_http_data { in_buffer = b'\n' ∷ block (host ∷ accept ∷ []) (codes "GET") }

parse_headers-block_example :
    parse_headers headed
    ≡ returned parse_header_success (record headed {
      in_buffer = codes "ET";
      h_state = h_blank_line_lf;
      headers = insert_all (host ∷ accept ∷ []) [];
    })
parse_headers-block_example =
    parse_headers-block headed host (accept ∷ []) (codes "GET") refl refl (ground arith)

parse_headers-ReturnsFilled_example : ReturnsFilled (parse_headers headed)
parse_headers-ReturnsFilled_example = parse_headers-ReturnsFilled headed refl tt

abbrev half : HttpData
half = record new_http_data { in_buffer = b'\n' ∷ codes "Ho" }

parse_headers_split_example :
    (d' : HttpData) × (parse_headers half ≡ returned parse_header_again d')
    × (parse_headers
          (record d' { in_buffer = d'.in_buffer ++ field_text (codes "st") (codes "x") [] })
        ≡ undefined)
parse_headers_split_example =
    parse_headers_split half (codes "Ho") (codes "st") (codes "x") [] refl refl (ground arith)
      (ground arith) (ground arith)

a_txt-ne-favicon : bytes_eq (codes "a.txt") (codes "favicon.ico") ≡ false
unfolding bytes_eq
a_txt-ne-favicon = refl

analysis_request-Responds_example :
    Responds [] (codes "hi") 2 (analysis_request one_file (understood new_http_data get_a) wide)
    × ((analysis_request one_file (understood new_http_data get_a) wide).2 ≡ wide)
analysis_request-Responds_example =
    analysis_request-Responds one_file (understood new_http_data get_a) wide (codes "hi")
      (λ e. ground (arith, a_txt-ne-favicon, bytes_eq_iff (codes "a.txt") (codes "favicon.ico")))
      refl refl refl

abbrev icon_wanted : HttpData
icon_wanted = record new_http_data { file_name = codes "favicon.ico" }

reset_returns_example :
    (reset 3 (record new_http_data { timer_linked = true }) ≡ none)
    × (seperate_timer 2 (record new_http_data { timer_linked = true }) ≡ none)
reset_returns_example = reset_returns (record new_http_data { timer_linked = true }) 2

handle_error_lem_example :
    (is_returned (handle_error 500 (codes "Oops") wide)
      ≡ leb (length (c_str (error_reply 500 (codes "Oops"))) + 1) send_buff_size)
    × Returned 400 bad_request_text wide
    × Returned 404 not_found_text wide
handle_error_lem_example = handle_error_lem 500 (codes "Oops") wide

-- The table has no entry for the name that the analysis asks for when a file name has no suffix.
init_runs :
    (lookup (codes ".gz") (init []) ≡ some (codes "application/x-gzip"))
    × (lookup (codes "default") (init []) ≡ none)
unfolding init lookup insert bytes_eq
init_runs = (refl, refl)
