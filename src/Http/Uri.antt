-- ===== src/Http/Uri.antt =====
-- HttpData::parseURI. Positions are those of std::string, with `none` for npos; a request line is
-- taken to be shorter than 2 ^ 31 bytes, so that the positions kept in `int` variables are exact.
-- Where the source repeats a find() at the place just found, it gets the same answer
-- (`find_byte_again` of Prelude/Find), and from npos it finds nothing; the model searches once.
pub mod Line
pub mod RequestLine
use jinyi.Http.Types.{
  UriState, parse_uri_again, parse_uri_error, parse_uri_success, HttpMethod, method_get,
  method_head, http_1_0, http_1_1, HttpData,
}
use jinyi.Prelude.{
  ℕ, ◌+◌, ◌-◌, Option, none, some, [], Bytes, codes, length, take, drop, bytes_eq, find_byte,
  find_text, ltb, leb, if◌then◌else◌,
}

-- GET is looked for anywhere in the line, then HEAD.
unfoldable pub parse_method : Bytes → Option (HttpMethod × ℕ)
parse_method line = elim (find_text (codes "GET") line) [
  | some p ↦ some (method_get, p)
  | none ↦ elim (find_text (codes "HEAD") line) [ some p ↦ some (method_head, p) | none ↦ none ]
]

abbrev pub index_html : Bytes
index_html = codes "index.html"

unfoldable pub before_query : Bytes → Bytes
before_query name = elim (find_byte b'?' 0 name) [ none ↦ name | some p ↦ take p name ]

-- What stands between the slash and the space behind it.
unfoldable pub target_name : Bytes → ℕ → ℕ → Bytes
unfolding before_query
target_name line slash space =
    if ltb 1 (space - slash)
    then before_query (take (space - slash - 1) (drop (slash + 1) line))
    else index_html

unfoldable pub parse_version : HttpData → Bytes → ℕ → UriState × HttpData
parse_version d line space = elim (find_byte b'/' space line) [
  | none ↦ (parse_uri_error, d)
  | some p ↦
      if leb (length line - p) 3
      then (parse_uri_error, d)
      else let ver = take 3 (drop (p + 1) line) in
        if bytes_eq ver (codes "1.0")
        then (parse_uri_success, record d { http_version = http_1_0 })
        else if bytes_eq ver (codes "1.1")
        then (parse_uri_success, record d { http_version = http_1_1 })
        else (parse_uri_error, d)
]

unfoldable pub parse_target : HttpData → Bytes → ℕ → UriState × HttpData
parse_target d line p = elim (find_byte b'/' p line) [
  | none ↦ (parse_uri_success, record d { file_name = index_html; http_version = http_1_1 })
  | some slash ↦ elim (find_byte b' ' slash line) [
    | none ↦ (parse_uri_error, d)
    | some space ↦ parse_version (record d { file_name = target_name line slash space }) line space
  ]
]

unfoldable pub parse_request_line : HttpData → Bytes → UriState × HttpData
parse_request_line d line = elim (parse_method line) [
  | none ↦ (parse_uri_error, d)
  | some (m, p) ↦ parse_target (record d { method = m }) line p
]

-- What is left of the buffer behind the byte at `pos`.
abbrev pub cut_behind : ℕ → Bytes → Bytes
cut_behind pos str = if ltb (pos + 1) (length str) then drop (pos + 1) str else []

unfoldable pub parse_uri : HttpData → UriState × HttpData
parse_uri d = elim (find_byte b'\r' d.now_read_pos d.in_buffer) [
  | none ↦ (parse_uri_again, d)
  | some pos ↦
      parse_request_line (record d { in_buffer = cut_behind pos d.in_buffer })
        (take pos d.in_buffer)
]
