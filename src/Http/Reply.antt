-- ===== src/Http/Reply.antt =====
-- HttpData::handleError: the error page, and writing it to the socket past the output buffer.
use jinyi.Prelude.Decimal.{to_string, length-to_string, to_string-Lacks}
use jinyi.Prelude.{
  ℕ, ◌+◌, ◌<◌, ◌≤◌, ◌≡◌, refl, [], ◌∷◌, ◌++◌, arith, Bytes, codes, length, length-append, ◌==◌,
  if◌then◌else◌, take, Option, none, some, ltb, leb, Bool, true, false, Lacks, Lacks-append,
  Lacks-literal, lacks-Lacks,
}
use jinyi.Util.Transfer.{writen_raw-Transmitted}
use jinyi.Util.{Socket, writen_raw}

-- The title of the page, in the encoding of the source file (GBK).
abbrev title : Bytes
title = 176 ∷ 166 ∷ 126 ∷ 179 ∷ 246 ∷ 180 ∷ 237 ∷ 193 ∷ 203 ∷ []

-- `body_buff`
unfoldable pub error_body : ℕ → Bytes → Bytes
error_body err_num msg =
    codes "<html><title>"
    ++ (title
        ++ (codes "</title>body bgcolor=\"ffffff\">"
            ++ (to_string err_num
                ++ (b' ' ∷ (msg ++ codes "<hr><em> axunzzz's web server</em>\n</body></html>")))))

-- `request_buff`
unfoldable pub error_reply : ℕ → Bytes → Bytes
error_reply err_num msg =
    let body = error_body err_num msg in
    codes "HTTP/1.1 "
    ++ (to_string err_num
        ++ (b' '
            ∷ (msg
                ++ (codes "\r\nContent-Type: text/html\r\nConnection: Close\r\nContent-Length: "
                    ++ (to_string (length body)
                        ++ (codes "\r\nServer: axunzzz's web server\r\n\r\n" ++ body))))))

-- `c_str()`, as far as functions on C strings read it.
unfoldable pub c_str : Bytes → Bytes
c_str [] = []
c_str (c ∷ cs) = if c == 0 then [] else c ∷ c_str cs

-- `char send_buff[4096]`
abbrev pub send_buff_size : ℕ
send_buff_size = 4096

-- sprintf of a text and its NUL into an array of `size` bytes; `none` where it overruns the array.
unfoldable pub sprintf : ℕ → Bytes → Option Bytes
sprintf size text = if ltb (length text) size then some text else none

-- `none` where the array is overrun. The result of `writen` is not looked at.
unfoldable pub handle_error : ℕ → Bytes → Socket → Option Socket
unfolding sprintf
handle_error err_num msg s = elim (sprintf send_buff_size (c_str (error_reply err_num msg))) [
  | none ↦ none
  | some text ↦ some (writen_raw s text).socket
]

-- The socket behind a call of handleError. None of the calls that are made overruns the array
-- (`handle_error_lem`).
unfoldable pub after_error : ℕ → Bytes → Socket → Socket
unfolding handle_error
after_error err_num msg s = elim (handle_error err_num msg s) [ none ↦ s | some s' ↦ s' ]

length-error_body : (n : ℕ) (msg : Bytes) → n < 1000 → length (error_body n msg) ≤ 200 + length msg
unfolding error_body
length-error_body n msg h = simp length-append (omega (arith, length-to_string n 2 h))

c_str-Lacks : (s : Bytes) → Lacks 0 s → c_str s ≡ s
unfolding c_str
c_str-Lacks [] h = refl
c_str-Lacks (c ∷ cs) h = ground (arith, c_str-Lacks cs)

ruleset joins = (length-append)

module _ (n : ℕ) (msg : Bytes) (numeric : n < 1000) (short : length msg ≤ 1800) where
  length-error_reply : length (error_reply n msg) < send_buff_size
  unfolding error_reply
  length-error_reply =
      let body = length-error_body n msg numeric in
      let number = length-to_string n 2 numeric in
      simp joins (
        omega (
          arith,
          body,
          number,
          length-to_string (length (error_body n msg)) 3 (omega (arith, body)),
        ))

  error_body-Lacks : Lacks 0 msg → Lacks 0 (error_body n msg)
  unfolding error_body
  error_body-Lacks h =
      let end = codes "<hr><em> axunzzz's web server</em>\n</body></html>" in
      let line = to_string n ++ (b' ' ∷ (msg ++ end)) in
      let middle = codes "</title>body bgcolor=\"ffffff\">" in
      Lacks-literal 0 (codes "<html><title>") (title ++ (middle ++ line)) refl (
        Lacks-literal 0 title (middle ++ line) refl (
          Lacks-literal 0 middle line refl (
            Lacks-append 0 (to_string n) (b' ' ∷ (msg ++ end)) (to_string-Lacks 0 n (omega arith))
              (refl, Lacks-append 0 msg end h (lacks-Lacks 0 end refl)))))

  error_reply-Lacks : Lacks 0 msg → Lacks 0 (error_reply n msg)
  unfolding error_reply
  error_reply-Lacks h = Lacks-literal 0 (codes "HTTP/1.1 ") _ refl (
      Lacks-append 0 (to_string n) _ (to_string-Lacks 0 n (omega arith)) (
        refl,
        Lacks-append 0 msg _ h (
            Lacks-literal 0
              (codes "\r\nContent-Type: text/html\r\nConnection: Close\r\nContent-Length: ") _ refl
              (Lacks-append 0 (to_string (length (error_body n msg))) _
                (to_string-Lacks 0 (length (error_body n msg)) (omega arith))
                (Lacks-literal 0 (codes "\r\nServer: axunzzz's web server\r\n\r\n") _ refl
                  (error_body-Lacks h)))),
      ))

  handle_error-writen :
      Lacks 0 msg
      → (s : Socket) → handle_error n msg s ≡ some (writen_raw s (error_reply n msg)).socket
  unfolding handle_error sprintf
  handle_error-writen h s =
      ground (arith, c_str-Lacks (error_reply n msg) (error_reply-Lacks h), length-error_reply)

-- A call that returns: the peer receives a prefix of the reply, and the callers go on with that socket.
pub record Returned (n : ℕ) (msg : Bytes) (s : Socket) : Type 0 where
  pub behind : Socket
  pub gone : ℕ
  pub returns : handle_error n msg s ≡ some behind
  pub sent : behind.sent ≡ s.sent ++ take gone (error_reply n msg)
  pub taken : after_error n msg s ≡ behind

abbrev pub bad_request_text : Bytes
bad_request_text = codes "Bad Request"

abbrev pub not_found_text : Bytes
not_found_text = codes "Not Found!"

Returned-short :
    (n : ℕ) (msg : Bytes)
    → n < 1000
    → length msg ≤ 1800
    → Lacks 0 msg
    → (s : Socket) → Returned n msg s
unfolding after_error
Returned-short n msg numeric short h s =
    let t = writen_raw-Transmitted s (error_reply n msg) in
    let e = handle_error-writen n msg numeric short h s in
    record {
      behind = (writen_raw s (error_reply n msg)).socket;
      gone = t.gone;
      returns = e;
      sent = t.ordered;
      taken = ground (arith, e);
    }

abbrev pub is_returned : Option Socket → Bool
is_returned none = false
is_returned (some s) = true

-- handleError returns just where the reply and its NUL fit the array of 4096 bytes. In both calls that
-- the program makes of it, 400 with "Bad Request" and 404 with "Not Found!", they do: it returns, and
-- what the peer receives is a prefix of the reply.
pub handle_error_lem :
    (n : ℕ) (msg : Bytes) (s : Socket)
    → (is_returned (handle_error n msg s)
        ≡ leb (length (c_str (error_reply n msg)) + 1) send_buff_size)
      × Returned 400 bad_request_text s
      × Returned 404 not_found_text s
unfolding handle_error sprintf
handle_error_lem n msg s = (
  ground arith,
  Returned-short 400 bad_request_text (omega arith) (omega arith)
      (lacks-Lacks 0 bad_request_text refl) s,
  Returned-short 404 not_found_text (omega arith) (omega arith) (lacks-Lacks 0 not_found_text refl)
      s,
)
