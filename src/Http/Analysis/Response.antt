-- ===== src/Http/Analysis/Response.antt =====
-- What the client gets: the framing of a file's response, and the error paths.
use jinyi.Http.Analysis.{
  Site, asks_keep_alive, status_lines, file_type, entity_lines, not_found, is_head,
  analysis_request, keep_alive_lines,
}
use jinyi.Http.Reply.{c_str, after_error}
use jinyi.Http.Types.{AnalysisState, analysis_success, analysis_error, HttpData}
use jinyi.Prelude.Decimal.{to_string, read_from, read_from-to_string}
use jinyi.Prelude.{
  ℕ, ◌≡◌, ◌≢◌, ◌∙◌, ◌⊎◌, true, false, some, [], ◌++◌, arith, Bytes, codes, length, bytes_eq,
  bytes_eq_iff, if◌then◌else◌, append_assoc, append-nil,
}
use jinyi.Util.{Socket}

-- `out` is followed by a 200 response: a head, a length field that reads back as `size`, and `body`.
pub record Responds (out body : Bytes) (size : ℕ) (r : AnalysisState × HttpData × Socket)
    : Type 0 where
  pub succeeds : r.0 ≡ analysis_success
  pub head : Bytes
  pub numeral : Bytes
  pub framed :
      r.1.out_buffer
      ≡ out
        ++ (codes "HTTP/1.1 200 OK\r\n"
            ++ (head
                ++ (codes "\r\nContent-Length: "
                    ++ (numeral ++ (codes "\r\nServer: axunzzz's web server\r\n\r\n" ++ body)))))
  pub measures : read_from 0 numeral ≡ size

-- The parts of a header, regrouped.
module _ (d : HttpData) (out type body : Bytes) (size : ℕ) where
  abbrev head_lines : Bytes
  head_lines =
      (if asks_keep_alive d then keep_alive_lines else []) ++ (codes "Content-Type: " ++ type)

  regroup :
      (out ++ (status_lines d ++ entity_lines type size)) ++ body
      ≡ out
        ++ (codes "HTTP/1.1 200 OK\r\n"
            ++ (head_lines
                ++ (codes "\r\nContent-Length: "
                    ++ (to_string size
                        ++ (codes "\r\nServer: axunzzz's web server\r\n\r\n" ++ body)))))
  unfolding status_lines entity_lines
  regroup = simp append_assoc

module _ (site : Site) (d : HttpData) (s : Socket) where
  abbrev result : AnalysisState × HttpData × Socket
  result = analysis_request site d s

  -- What the four branches leave in the output buffer.
  favicon_out :
      bytes_eq d.file_name (codes "favicon.ico") ≡ true
      → (result.0 ≡ analysis_success)
        × (result.1.out_buffer
            ≡ (d.out_buffer
                ++ (status_lines d ++ entity_lines (codes "image/png") (length site.favicon)))
              ++ site.favicon)
        × (result.2 ≡ s)
  unfolding analysis_request
  favicon_out e = ground arith

  file_out :
      (content : Bytes)
      → bytes_eq d.file_name (codes "favicon.ico") ≡ false
      → site.stat (c_str d.file_name) ≡ some (length content)
      → site.opens (c_str d.file_name) ≡ true
      → site.mmap (c_str d.file_name) (length content) ≡ some content
      → (result.0 ≡ analysis_success)
        × (result.1.out_buffer
            ≡ (d.out_buffer
                ++ (status_lines d ++ entity_lines (file_type site d.file_name) (length content)))
              ++ (if is_head d.method then [] else content))
        × (result.2 ≡ s)
  unfolding analysis_request
  file_out content ne st op mm = ground (
    arith,
    append-nil (
        d.out_buffer
        ++ (status_lines d ++ entity_lines (file_type site d.file_name) (length content))),
  )

Responds-of :
    (d : HttpData) (out type body : Bytes) (size : ℕ) (r : AnalysisState × HttpData × Socket)
    → r.0 ≡ analysis_success
    → r.1.out_buffer ≡ (out ++ (status_lines d ++ entity_lines type size)) ++ body
    → Responds out body size r
Responds-of d out type body size r ok e = record {
  succeeds = ok;
  head = head_lines d out type body size;
  numeral = to_string size;
  framed = e ∙ regroup d out type body size;
  measures = read_from-to_string size;
}

-- A file that can be stat'ed, opened and mapped is answered with a 200 response that stands behind
-- what the output buffer held, whose Content-Length is the file's length, and whose body is the
-- file for GET and empty for HEAD; nothing is written to the socket yet.
pub analysis_request-Responds :
    (site : Site) (d : HttpData) (s : Socket) (content : Bytes)
    → d.file_name ≢ codes "favicon.ico"
    → site.stat (c_str d.file_name) ≡ some (length content)
    → site.opens (c_str d.file_name) ≡ true
    → site.mmap (c_str d.file_name) (length content) ≡ some content
    → Responds d.out_buffer
        (if is_head d.method then [] else content)
        (length content)
        (analysis_request site d s)
      × ((analysis_request site d s).2 ≡ s)
analysis_request-Responds site d s content ne st op mm =
    let other : bytes_eq d.file_name (codes "favicon.ico") ≡ false =
      ground (arith, bytes_eq_iff d.file_name (codes "favicon.ico")) in
    let out = file_out site d s content other st op mm in
    (
      Responds-of d d.out_buffer (file_type site d.file_name) _ (length content) _ out.0 out.1,
      out.2,
    )

-- The icon is answered with its bytes behind the header whatever the method is, HEAD included.
analysis_request_favicon :
    (site : Site) (d : HttpData) (s : Socket)
    → d.file_name ≡ codes "favicon.ico"
    → Responds d.out_buffer site.favicon (length site.favicon) (analysis_request site d s)
analysis_request_favicon site d s e =
    let out = favicon_out site d s ((bytes_eq_iff d.file_name (codes "favicon.ico")).1 e) in
    Responds-of d d.out_buffer (codes "image/png") site.favicon (length site.favicon) _ out.0 out.1

-- On success the socket is untouched; on failure a 404 page has been written to it directly, and the
-- output buffer is as it was or, if the file could not be read, emptied: responses that still
-- waited in it are then lost.
pub analysis_request_outcome :
    (site : Site) (d : HttpData) (s : Socket)
    → (let r = analysis_request site d s in
        (r.0 ≡ analysis_success → r.2 ≡ s)
        × (r.0 ≡ analysis_error
            → (r.2 ≡ after_error 404 not_found s)
              × ((r.1.out_buffer ≡ d.out_buffer) ⊎ (r.1.out_buffer ≡ []))))
unfolding analysis_request
analysis_request_outcome site d s = ground arith

-- The members that decide how handleRead goes on are left alone.
pub analysis_request_keeps :
    (site : Site) (d : HttpData) (s : Socket)
    → (let d' = (analysis_request site d s).1 in
        (d'.error ≡ d.error)
        × (d'.connection_state ≡ d.connection_state)
        × (d'.in_buffer ≡ d.in_buffer)
        × (d'.timer_linked ≡ d.timer_linked)
        × (d'.events ≡ d.events)
        × (d'.keep_alive ≡ (if asks_keep_alive d then true else d.keep_alive)))
unfolding analysis_request
analysis_request_keeps site d s = ground arith
