-- ===== src/Http/Uri/RequestLine.antt =====
-- Reading back a request line: parseURI on the lines that a client writes.
use jinyi.Http.Types.{
  parse_uri_success, HttpMethod, method_get, method_head, HttpVersion, http_1_0, http_1_1, HttpData,
}
use jinyi.Http.Uri.{
  parse_method, index_html, before_query, target_name, parse_version, parse_target,
  parse_request_line, parse_uri,
}
use jinyi.Prelude.{
  ℕ, suc, ◌+◌, ◌-◌, ◌≡◌, refl, sym, ap, ◌∙◌, Option, none, some, [], ◌∷◌, ◌++◌, arith, Bytes, codes,
  length, take, drop, bytes_eq, find_byte, find_text, Lacks, append_assoc, append-nil,
  length-append, find_byte-append, find_byte-zero, find_byte-Lacks, take-append, drop-append-add,
}
use jinyi.Http.Uri.Line.{parse_uri-line}

abbrev pub minor : HttpVersion → ℕ
minor http_1_0 = b'0'
minor http_1_1 = b'1'

abbrev pub tail_of : HttpVersion → Bytes
tail_of v = codes " HTTP/1." ++ minor v ∷ []

abbrev pub query_text : Option Bytes → Bytes
query_text none = []
query_text (some q) = b'?' ∷ q

-- The file that a target names; "?query" alone names the empty file name.
abbrev pub requested : Bytes → Option Bytes → Bytes
requested [] none = index_html
requested [] (some q) = []
requested (c ∷ name) q = c ∷ name

abbrev pub target_text : Bytes → Option Bytes → Bytes
target_text name query = name ++ query_text query

before_query-target :
    (name : Bytes) (query : Option Bytes)
    → Lacks b'?' name
    → before_query (target_text name query) ≡ name
unfolding before_query
before_query-target name none clean =
    rw append-nil (rw (find_byte-Lacks b'?' name clean, before_query))
before_query-target name (some q) clean =
    rw (find_byte-zero b'?' name q clean, before_query) (take-append name (b'?' ∷ q))

-- From the slash on: `pre` is what stands in front of it.
module _ (pre target : Bytes) (v : HttpVersion) where
  abbrev line : Bytes
  line = pre ++ (b'/' ∷ (target ++ tail_of v))

  abbrev before_space : Bytes
  before_space = pre ++ b'/' ∷ target

  abbrev space : ℕ
  space = length pre + suc (length target)

  line_regroup : line ≡ before_space ++ tail_of v
  line_regroup = sym (append_assoc pre (b'/' ∷ target) (tail_of v))

  length-before_space : length before_space ≡ space
  length-before_space = length-append pre (b'/' ∷ target)

  find-space : Lacks b' ' target → find_byte b' ' (length pre) line ≡ some space
  find-space h =
      find_byte-append b' ' pre (b'/' ∷ target) (codes "HTTP/1." ++ minor v ∷ []) (refl, h)

  find-version : find_byte b'/' space line ≡ some (space + 5)
  find-version =
      rw (line_regroup, ← length-before_space)
        (find_byte-append b'/' before_space (codes " HTTP") (codes "1." ++ minor v ∷ [])
          (refl, (refl, (refl, (refl, (refl, tt))))))

  length-line : length line ≡ space + 9
  length-line =
      omega
        (arith, ap length line_regroup, length-append before_space (tail_of v), length-before_space)

  drop_version : take 3 (drop (space + 5 + 1) line) ≡ codes "1." ++ minor v ∷ []
  drop_version =
      let e : space + 5 + 1 ≡ length before_space + 6 = omega (arith, length-before_space) in
      rw (e, line_regroup, drop-append-add before_space (tail_of v) 6) refl

  drop_target : take (space - length pre - 1) (drop (length pre + 1) line) ≡ target
  drop_target =
      let e : space - length pre - 1 ≡ length target = omega arith in
      rw (e, drop-append-add pre (b'/' ∷ (target ++ tail_of v)) 1) (take-append target (tail_of v))

-- The version behind the target, whichever of the two it is.
module _ (pre target : Bytes) (d : HttpData) where
  parse_version-line :
      (v : HttpVersion)
      → parse_version d (line pre target v) (space pre target v)
        ≡ (parse_uri_success, record d { http_version = v })
  unfolding parse_version bytes_eq
  parse_version-line http_1_0 = ground (
    arith,
    find-version pre target http_1_0,
    length-line pre target http_1_0,
    drop_version pre target http_1_0,
  )
  parse_version-line http_1_1 = ground (
    arith,
    find-version pre target http_1_1,
    length-line pre target http_1_1,
    drop_version pre target http_1_1,
  )

target_name-line :
    (pre name : Bytes) (query : Option Bytes) (v : HttpVersion)
    → Lacks b'?' name
    → target_name
        (line pre (target_text name query) v)
        (length pre)
        (space pre (target_text name query) v)
      ≡ requested name query
unfolding target_name
target_name-line pre [] none v clean = ground arith
target_name-line pre [] (some q) v clean =
    ground (arith, drop_target pre (b'?' ∷ q) v, before_query-target [] (some q) clean)
target_name-line pre (c ∷ name) query v clean = ground (
  arith,
  drop_target pre (target_text (c ∷ name) query) v,
  before_query-target (c ∷ name) query clean,
)

parse_target-line :
    (d : HttpData) (pre name : Bytes) (query : Option Bytes) (v : HttpVersion) (p : ℕ)
    → find_byte b'/' p (line pre (target_text name query) v) ≡ some (length pre)
    → Lacks b' ' (target_text name query)
    → Lacks b'?' name
    → parse_target d (line pre (target_text name query) v) p
      ≡ (parse_uri_success, record d { file_name = requested name query; http_version = v })
unfolding parse_target
parse_target-line d pre name query v p found spaceless clean =
    let text = target_text name query in
    let named = record d { file_name = requested name query } in
    rw (found, parse_target)
      (rw (find-space pre text v spaceless, target_name-line pre name query v clean)
        (parse_version-line pre text named v))

abbrev pub method_text : HttpMethod → Bytes
method_text method_get = codes "GET "
method_text method_head = codes "HEAD "

-- A request line as a client writes it.
abbrev pub request_line : HttpMethod → Bytes → Option Bytes → HttpVersion → Bytes
request_line m name query v = line (method_text m) (target_text name query) v

-- The code looks for "GET" in the whole line first, so a HEAD line must not hold it.
abbrev pub Unambiguous : HttpMethod → Bytes → Type 0
Unambiguous method_get text = Unit
Unambiguous method_head text = find_text (codes "GET") text ≡ none

parse_method-get : (text : Bytes) → parse_method (codes "GET /" ++ text) ≡ some (method_get, 0)
unfolding parse_method find_text
parse_method-get text = refl

-- A line that begins with "HEAD" and holds no "GET".
parse_method-head :
    (text : Bytes)
    → find_text (codes "GET") (codes "HEAD /" ++ text) ≡ none
    → parse_method (codes "HEAD /" ++ text) ≡ some (method_head, 0)
unfolding parse_method
parse_method-head text u = rw (u, parse_method) (rw (find-head text))
  where
    find-head : (text : Bytes) → find_text (codes "HEAD") (codes "HEAD /" ++ text) ≡ some 0
    find-head text = unfold find_text in refl

parse_request_line-request_line :
    (d : HttpData) (m : HttpMethod) (name : Bytes) (query : Option Bytes) (v : HttpVersion)
    → Lacks b' ' (target_text name query)
    → Lacks b'?' name
    → Unambiguous m (request_line m name query v)
    → parse_request_line d (request_line m name query v) ≡ (
      parse_uri_success,
      record d { method = m; file_name = requested name query; http_version = v },
    )
unfolding parse_request_line find_byte
parse_request_line-request_line d method_get name query v spaceless clean u =
    rw (parse_method-get (target_text name query ++ tail_of v), parse_request_line)
      (parse_target-line (record d { method = method_get }) (codes "GET ") name query v 0 refl
        spaceless clean)
parse_request_line-request_line d method_head name query v spaceless clean u =
    rw (parse_method-head (target_text name query ++ tail_of v) u, parse_request_line)
      (parse_target-line (record d { method = method_head }) (codes "HEAD ") name query v 0 refl
        spaceless clean)

-- Reading back a request line: for a file name without '?', a target without ' ', a line without
-- '\r', and for HEAD a line that does not hold "GET", parseURI succeeds with exactly the method,
-- version and file name of the line ("index.html" for the target "/"), and leaves in the buffer
-- what stands behind the '\r'.
pub parse_uri-request_line :
    (d : HttpData) (m : HttpMethod) (name : Bytes) (query : Option Bytes) (v : HttpVersion)
    (rest : Bytes)
    → d.now_read_pos ≡ 0
    → d.in_buffer ≡ request_line m name query v ++ b'\r' ∷ rest
    → Lacks b' ' (target_text name query)
    → Lacks b'?' name
    → Lacks b'\r' (request_line m name query v)
    → Unambiguous m (request_line m name query v)
    → parse_uri d ≡ (
      parse_uri_success,
      record d { in_buffer = rest; method = m; file_name = requested name query; http_version = v },
    )
parse_uri-request_line d m name query v rest start e spaceless clean unbroken u =
    parse_uri-line d (request_line m name query v) rest start e unbroken
    ∙ parse_request_line-request_line (record d { in_buffer = rest }) m name query v spaceless clean
        u
