-- ===== src/Tests/Data.antt =====
-- A request, a site and a socket that the tests of the HTTP modules share.
use jinyi.Http.Analysis.{Site}
use jinyi.Http.Handlers.Request.{Request}
use jinyi.Http.Types.{method_get, http_1_1}
use jinyi.Prelude.{true, some, [], ◌∷◌, Bytes, codes}
use jinyi.Util.{Socket, room}

abbrev pub host : Bytes × Bytes
host = (codes "Host", codes "localhost")

abbrev pub accept : Bytes × Bytes
accept = (codes "Accept", codes "*/*")

-- GET /a.txt?v=1 HTTP/1.1
abbrev pub get_a : Request
get_a = record {
  method = method_get;
  name = codes "a.txt";
  query = some (codes "v=1");
  version = http_1_1;
  field = host;
  fields = accept ∷ [];
}

-- A site that has one file for every name.
abbrev pub one_file : Site
one_file = record {
  stat = λ name. some 2;
  opens = λ name. true;
  mmap = λ name size. some (codes "hi");
  get_mime = λ suffix. codes "text/plain";
  favicon = codes "icon";
}

abbrev pub wide : Socket
wide = record { incoming = []; outgoing = room 5000 ∷ []; sent = [] }
