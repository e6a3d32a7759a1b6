-- ===== src/Http/Mime.antt =====
-- MimeType::init (net/HttpData.cpp): the types of the suffixes of file names. getMime, which would read
-- the table, is declared without a body; the analysis takes it as given.
use jinyi.Http.Types.{Headers, insert}
use jinyi.Prelude.{List, [], ◌∷◌, Bytes, codes}

-- The assignments, in order.
abbrev mime_types : List (Bytes × Bytes)
mime_types =
    (codes ".html", codes "text/html")
    ∷ (codes ".avi", codes "video/x-msvideo")
    ∷ (codes ".bmp", codes "image/bmp")
    ∷ (codes ".c", codes "text/plain")
    ∷ (codes ".doc", codes "application/msword")
    ∷ (codes ".gif", codes "image/gif")
    ∷ (codes ".gz", codes "application/x-gzip")
    ∷ (codes ".htm", codes "text/html")
    ∷ (codes ".ico", codes "image/x-icon")
    ∷ (codes ".jpg", codes "image/jpeg")
    ∷ (codes ".png", codes "image/png")
    ∷ (codes ".txt", codes "text/plain")
    ∷ (codes ".mp3", codes "audio/mp3")
    ∷ (codes ".default", codes "text/html")
    ∷ []

abbrev assign : List (Bytes × Bytes) → Headers → Headers
assign [] mime = mime
assign ((suffix, type) ∷ rest) mime = assign rest (insert suffix type mime)

-- The whole of `init`.
unfoldable pub init : Headers → Headers
init mime = assign mime_types mime
