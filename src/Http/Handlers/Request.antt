-- ===== src/Http/Handlers/Request.antt =====
-- A whole request arriving on an idle connection, from the socket to the response.
use jinyi.Http.Analysis.{Site}
use jinyi.Http.Conn.{Conn}
use jinyi.Http.Headers.RoundTrip.{block, insert_all, IsField, parse_headers-block}
use jinyi.Http.Phases.{proceed, receive, uri_phase, headers_phase}
use jinyi.Http.Types.{
  state_parse_uri, state_parse_headers, state_analysis, connected, HttpMethod, method_get,
  method_head, HttpVersion, h_start, h_blank_line_lf, HttpData,
}
use jinyi.Http.Uri.RequestLine.{
  request_line, method_text, requested, target_text, Unambiguous, parse_uri-request_line,
}
use jinyi.Prelude.{ℕ, ◌≡◌, refl, false, Option, List, [], ◌∷◌, ◌++◌, arith, Bytes, Lacks, All}
use jinyi.Util.{Socket, got, readn}

-- Between two requests, with nothing waiting in either buffer.
pub record IsIdle (c : Conn) : Type 0 where
  pub state_is : c.http.state ≡ state_parse_uri
  pub header_state : c.http.h_state ≡ h_start
  pub position : c.http.now_read_pos ≡ 0
  pub no_error : c.http.error ≡ false
  pub is_open : c.http.connection_state ≡ connected
  pub read_all : c.http.in_buffer ≡ []
  pub written_all : c.http.out_buffer ≡ []
  pub no_headers : c.http.headers ≡ []
  pub unlinked : c.http.timer_linked ≡ false

pub record Request : Type 0 where
  pub method : HttpMethod
  pub name : Bytes
  pub query : Option Bytes
  pub version : HttpVersion
  pub field : Bytes × Bytes
  pub fields : List (Bytes × Bytes)

abbrev pub first_line : Request → Bytes
first_line q = request_line q.method q.name q.query q.version

-- The request as it is sent.
abbrev pub request_text : Request → Bytes
request_text q = first_line q ++ (b'\r' ∷ b'\n' ∷ block (q.field ∷ q.fields) [])

pub record IsRequest (q : Request) : Type 0 where
  pub spaceless : Lacks b' ' (target_text q.name q.query)
  pub clean : Lacks b'?' q.name
  pub unbroken : Lacks b'\r' (first_line q)
  pub unambiguous : Unambiguous q.method (first_line q)
  pub well_formed : All IsField (q.field ∷ q.fields)

-- What the analysis sees of the request.
abbrev pub understood : HttpData → Request → HttpData
understood d q = record d {
  in_buffer = [];
  method = q.method;
  file_name = requested q.name q.query;
  http_version = q.version;
  headers = insert_all (q.field ∷ q.fields) [];
  state = state_analysis;
  h_state = h_blank_line_lf;
}

pub receive_text :
    (c : Conn) (text bs : Bytes) (b : ℕ)
    → text ≡ b ∷ bs
    → c.socket.incoming ≡ got text ∷ []
    → c.http.connection_state ≡ connected
    → c.http.in_buffer ≡ []
    → receive c
      ≡ proceed (record c {
        http = record c.http { in_buffer = text };
        socket = record c.socket { incoming = [] };
      })
unfolding receive readn
receive_text c text bs b t e o r = ground arith

request_text-cons : (q : Request) → (b : ℕ) × (bs : Bytes) × (request_text q ≡ b ∷ bs)
request_text-cons q = method_cons q.method _ _
  where
    method_cons :
        (m : HttpMethod) (xs ys : Bytes)
        → (b : ℕ) × (bs : Bytes) × ((method_text m ++ xs) ++ ys ≡ b ∷ bs)
    method_cons method_get xs ys = (b'G', _, refl)
    method_cons method_head xs ys = (b'H', _, refl)

module _ (site : Site) (c : Conn) (q : Request) (idle : IsIdle c) (good : IsRequest q) where
  open idle use {state_is, header_state, position, no_error, read_all, no_headers}

  abbrev pub taken : Socket
  taken = record c.socket { incoming = [] }

  abbrev pub received : Conn
  received = record c { http = record c.http { in_buffer = request_text q }; socket = taken }

  pub receive_request : c.socket.incoming ≡ got (request_text q) ∷ [] → receive c ≡ proceed received
  receive_request e =
      let (b, bs, t) = request_text-cons q in
      receive_text c (request_text q) bs b t e idle.is_open read_all

  abbrev pub located : Conn
  located = record received {
    http = record c.http {
      in_buffer = b'\n' ∷ block (q.field ∷ q.fields) [];
      method = q.method;
      file_name = requested q.name q.query;
      http_version = q.version;
      state = state_parse_headers;
    };
  }

  pub uri_request : uri_phase received ≡ proceed located
  unfolding uri_phase
  uri_request = ground (
    arith,
    parse_uri-request_line received.http q.method q.name q.query q.version
        (b'\n' ∷ block (q.field ∷ q.fields) []) position refl good.spaceless good.clean
        good.unbroken good.unambiguous,
  )

  pub headers_request :
      headers_phase located ≡ proceed (record received { http = understood c.http q })
  unfolding headers_phase
  headers_request = ground (
    arith,
    parse_headers-block located.http q.field q.fields [] header_state refl good.well_formed,
  )
