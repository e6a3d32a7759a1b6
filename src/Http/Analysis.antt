-- ===== src/Http/Analysis.antt =====
-- HttpData::analysisRequest: the response to a parsed request, appended to the output buffer.
-- Not part of the repository, and so given as a `Site`: the file system calls, the icon, and
-- MimeType::getMime, which is declared but not defined there. The test of the method at the top of the
-- source has no other case: METHOD_GET and METHOD_HEAD are all there is.
pub mod Response
use jinyi.Http.Reply.{c_str, after_error}
use jinyi.Http.Types.{
  AnalysisState, analysis_success, analysis_error, HttpMethod, method_get, method_head, lookup,
  HttpData,
}
use jinyi.Prelude.Decimal.{to_string}
use jinyi.Prelude.{
  ℕ, ◌*◌, Bool, true, false, not, ◌||◌, Option, none, some, [], ◌∷◌, ◌++◌, Bytes, codes, length,
  drop, bytes_eq, find_byte, if◌then◌else◌,
}
use jinyi.Util.{Socket}

pub record Site : Type 0 where
  -- `st_size`, or `none` where stat() fails
  pub stat : Bytes → Option ℕ
  pub opens : Bytes → Bool
  -- what mmap() shows of the open file for a given size, or `none` for MAP_FAILED
  pub mmap : Bytes → ℕ → Option Bytes
  pub get_mime : Bytes → Bytes
  pub favicon : Bytes

-- DEFAULT_KEEP_ALIVE_TIME, in milliseconds.
abbrev pub default_keep_alive_time : ℕ
default_keep_alive_time = 5 * 60 * 1000

wants_keep_alive : Option Bytes → Bool
wants_keep_alive none = false
wants_keep_alive (some v) = bytes_eq v (codes "Keep-Alive") || bytes_eq v (codes "Keep-alive")

-- `keepAlive_ = true` and the two lines for it, if the client asks.
unfoldable pub asks_keep_alive : HttpData → Bool
unfolding wants_keep_alive
asks_keep_alive d = wants_keep_alive (lookup (codes "Connection") d.headers)

abbrev pub keep_alive_lines : Bytes
keep_alive_lines =
    codes "Connection: Keep-Alive\r\nKeep-Alive: timeout="
    ++ (to_string default_keep_alive_time ++ codes "\r\n")

unfoldable pub status_lines : HttpData → Bytes
status_lines d = codes "HTTP/1.1 200 OK\r\n" ++ (if asks_keep_alive d then keep_alive_lines else [])

unfoldable pub file_type : Site → Bytes → Bytes
file_type site name = elim (find_byte b'.' 0 name) [
  | none ↦ site.get_mime (codes "default")
  | some dot ↦ site.get_mime (drop dot name)
]

-- The lines that close a header: the type and the length of what follows.
unfoldable pub entity_lines : Bytes → ℕ → Bytes
entity_lines type size =
    codes "Content-Type: "
    ++ (type
        ++ (codes "\r\nContent-Length: "
            ++ (to_string size ++ codes "\r\nServer: axunzzz's web server\r\n\r\n")))

abbrev pub not_found : Bytes
not_found = codes "Not Found!"

-- From `open` on, for GET: `d` has the header in its output buffer.
unfoldable pub send_file : Site → HttpData → ℕ → Socket → AnalysisState × HttpData × Socket
send_file site d size s =
    if not (site.opens (c_str d.file_name))
    then (analysis_error, record d { out_buffer = [] }, after_error 404 not_found s)
    else elim (site.mmap (c_str d.file_name) size) [
      | none ↦ (analysis_error, record d { out_buffer = [] }, after_error 404 not_found s)
      | some content ↦ (analysis_success, record d { out_buffer = d.out_buffer ++ content }, s)
    ]

abbrev pub is_head : HttpMethod → Bool
is_head method_head = true
is_head method_get = false

unfoldable pub analysis_request : Site → HttpData → Socket → AnalysisState × HttpData × Socket
unfolding send_file
analysis_request site d s =
    let header = status_lines d in
    let kept = record d { keep_alive = if asks_keep_alive d then true else d.keep_alive } in
    if bytes_eq d.file_name (codes "favicon.ico")
    then (
      analysis_success,
      record kept {
        out_buffer =
            (d.out_buffer ++ (header ++ entity_lines (codes "image/png") (length site.favicon)))
            ++ site.favicon;
      },
      s,
    )
    else elim (site.stat (c_str d.file_name)) [
      | none ↦ (analysis_error, kept, after_error 404 not_found s)
      | some size ↦
          let typed = header ++ entity_lines (file_type site d.file_name) size in
          let headed = record kept { out_buffer = d.out_buffer ++ typed } in
          if is_head d.method then (analysis_success, headed, s) else send_file site headed size s
    ]
