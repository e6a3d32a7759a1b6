-- ===== src/Http/Types.antt =====
-- The enumerations and the fields of class HttpData (net/HttpData.h), with the values that its
-- constructor gives them. The channel's `events_` word, which the handlers hold by reference, stands
-- among the fields. The name `timer_` is commented out in the header but used by the .cpp file:
-- `timer_linked` says whether `timer_.lock()` is not null.
use jinyi.Prelude.{
  ℕ, Bool, false, List, [], ◌∷◌, Option, none, some, Bytes, bytes_eq, if◌then◌else◌,
}

pub data ProcessState : Type 0 where
  state_parse_uri state_parse_headers state_recv_body state_analysis state_finish : ProcessState

pub data UriState : Type 0 where
  parse_uri_again parse_uri_error parse_uri_success : UriState

pub data HeaderState : Type 0 where
  parse_header_success parse_header_again parse_header_error : HeaderState

pub data AnalysisState : Type 0 where
  analysis_success analysis_error : AnalysisState

-- The last two are H_END_CR and H_END_LF in the header file, and have these names in the .cpp file.
pub data ParseState : Type 0 where
  h_start h_key h_colon h_spaces_after_colon h_value h_cr h_lf : ParseState
  h_blank_line_cr h_blank_line_lf : ParseState

pub data ConnectionState : Type 0 where
  connected disconnecting disconnected : ConnectionState

pub data HttpMethod : Type 0 where
  method_get method_head : HttpMethod

pub data HttpVersion : Type 0 where
  http_1_0 http_1_1 : HttpVersion

-- `std::map<std::string, std::string>`, one entry to a key.
abbrev pub Headers : Type 0
Headers = List (Bytes × Bytes)

-- `headers_[key] = value`
unfoldable pub insert : Bytes → Bytes → Headers → Headers
insert k v [] = (k, v) ∷ []
insert k v ((j, w) ∷ m) = if bytes_eq j k then (k, v) ∷ m else (j, w) ∷ insert k v m

-- `headers_.find(key)`
unfoldable pub lookup : Bytes → Headers → Option Bytes
lookup k [] = none
lookup k ((j, v) ∷ m) = if bytes_eq j k then some v else lookup k m

pub record HttpData : Type 0 where
  pub events : ℕ
  pub in_buffer : Bytes
  pub out_buffer : Bytes
  pub error : Bool
  pub connection_state : ConnectionState
  pub method : HttpMethod
  pub http_version : HttpVersion
  pub file_name : Bytes
  pub path : Bytes
  pub now_read_pos : ℕ
  pub state : ProcessState
  pub h_state : ParseState
  pub keep_alive : Bool
  pub headers : Headers
  pub timer_linked : Bool

-- The constructor; the channel's constructor sets `events_` to 0.
abbrev pub new_http_data : HttpData
new_http_data = record {
  events = 0;
  in_buffer = [];
  out_buffer = [];
  error = false;
  connection_state = connected;
  method = method_get;
  http_version = http_1_1;
  file_name = [];
  path = [];
  now_read_pos = 0;
  state = state_parse_uri;
  h_state = h_start;
  keep_alive = false;
  headers = [];
  timer_linked = false;
}
