-- ===== src/Tcp.antt =====
-- FINS/TCP framing and handshake: transport.go, and the TCP helpers of server.go. A connection's
-- reader is the bytes that will still arrive and the error that a read gets after the last one.
pub mod Framing
pub mod Serving
use gofins.Base.{
  ℕ, zero, suc, ◌+◌, ◌-◌, ◌*◌, ◌/◌, ◌%◌, ◌^◌, ◌<◌, Bool, true, false, ◌&&◌, Option, none, some,
  List, [], ◌∷◌, ◌++◌, Result, ok, err, panic, Error, eof, unexpected_eof, invalid_signature,
  invalid_length, unexpected_handshake, handshake_failed, tcp_error, ◌>>=◌, length, take, drop,
  of_list, ltb, leb, ◌==◌, if◌then◌else◌,
}
use gofins.Server.{Server, Time, serve}

abbrev pub data_command : ℕ
data_command = 0x00000002

abbrev pub handshake_command : ℕ
handshake_command = 0x00000000

-- The bytes of "FINS".
abbrev pub signature : List ℕ
signature = b'F' ∷ b'I' ∷ b'N' ∷ b'S' ∷ []

pub record Message : Type 0 where
  pub command : ℕ
  pub error_code : ℕ
  pub body : List ℕ

pub record Reader : Type 0 where
  pub bytes : List ℕ
  pub ending : Error

abbrev pub put_u32 : ℕ → List ℕ
put_u32 x = (x / 2 ^ 24 % 256) ∷ (x / 2 ^ 16 % 256) ∷ (x / 2 ^ 8 % 256) ∷ (x % 256) ∷ []

-- binary.BigEndian.Uint32 of four bytes; of fewer it panics.
abbrev pub get_u32 : List ℕ → Result ℕ
get_u32 (a ∷ b ∷ c ∷ d ∷ _) = ok (a * 2 ^ 24 + b * 2 ^ 16 + c * 2 ^ 8 + d)
get_u32 _ = panic

-- The length field counts the command, the error code and the body, modulo 2 ^ 32.
unfoldable pub fins_tcp_frame : ℕ → List ℕ → List ℕ
fins_tcp_frame command body =
    signature ++ (put_u32 ((length body + 8) % 2 ^ 32) ++ (put_u32 command ++ (put_u32 0 ++ body)))

-- The error of io.ReadFull where the bytes ran out.
abbrev full_error : List ℕ → Error → Error
full_error (b ∷ bs) eof = unexpected_eof
full_error _ e = e

-- io.ReadFull into a buffer of `n` bytes.
unfoldable pub read_full : ℕ → Reader → Result (List ℕ × Reader)
read_full n r =
    if leb n (length r.bytes)
    then ok (take n r.bytes, record r { bytes = drop n r.bytes })
    else err (full_error r.bytes r.ending)

-- `ctx.Err()` takes the place of a read's error.
abbrev pub or_context : {A : Type 0} → Option Error → Result A → Result A
or_context none m = m
or_context (some e) (ok a) = ok a
or_context (some e) (err _) = err e
or_context (some e) panic = panic

abbrev pub same_bytes : List ℕ → List ℕ → Bool
same_bytes [] [] = true
same_bytes [] (y ∷ ys) = false
same_bytes (x ∷ xs) [] = false
same_bytes (x ∷ xs) (y ∷ ys) = x == y && same_bytes xs ys

-- The frame's parts, once `length` bytes have been read behind the header.
abbrev pub message_of : List ℕ → Result Message
message_of body = do
  command ← get_u32 body
  error_code ← get_u32 (drop 4 body)
  ok (record { command = command; error_code = error_code; body = drop 8 body })

-- The header's length field, if the signature and the length are good.
abbrev pub frame_length : List ℕ → Result ℕ
frame_length header =
    if same_bytes (take 4 header) signature
    then (get_u32 (drop 4 header) >>= λ length.
        if ltb length 8 then err (invalid_length length) else ok length)
    else err invalid_signature

-- `(t *tcpTransport).readFrame`; the first argument is `ctx.Err()`.
unfoldable pub read_frame : Option Error → Reader → Result (Message × Reader)
unfolding read_full
read_frame ctx_err r = do
  (header, r) ← or_context ctx_err (read_full 8 r)
  length ← frame_length header
  (body, r) ← or_context ctx_err (read_full length r)
  message ← message_of body
  ok (message, r)

-- `readTCPMessage` of server.go
unfoldable pub read_tcp_message : Reader → Result (Message × Reader)
unfolding read_full
read_tcp_message r = do
  (header, r) ← read_full 8 r
  length ← frame_length header
  (body, r) ← read_full length r
  message ← message_of body
  ok (message, r)

-- A connection: what it will still deliver, what has been written to it, and the error that the
-- next write gets, if any.
pub record Conn : Type 0 where
  pub reader : Reader
  pub written : List ℕ
  pub write_error : Option Error

-- `(t *tcpTransport).writeFrame`
unfoldable pub write_frame : Option Error → Conn → ℕ → List ℕ → Result Conn
unfolding fins_tcp_frame
write_frame ctx_err c command body = elim c.write_error [
  | none ↦ ok (record c { written = c.written ++ fins_tcp_frame command body })
  | some e ↦ or_context ctx_err (err e)
]

-- `(t *tcpTransport).handshake`
unfoldable pub handshake : Option Error → Conn → Result Conn
unfolding write_frame
handshake ctx_err c = do
  c ← write_frame ctx_err c handshake_command []
  (resp, rest) ← read_frame ctx_err c.reader
  if resp.command == handshake_command
      then if resp.error_code == 0
        then ok (record c { reader = rest })
        else err (handshake_failed resp.error_code)
      else err (unexpected_handshake resp.command)

-- `(t *tcpTransport).Send` and `Recv`
unfoldable pub send : Option Error → Conn → List ℕ → Result Conn
unfolding write_frame
send none c payload = write_frame none c data_command payload
send (some e) c payload = err e

unfoldable pub recv : Option Error → Conn → Result (List ℕ × Conn)
recv ctx_err c = do
  (frame, rest) ← read_frame ctx_err c.reader
  if frame.error_code == 0
      then ok (frame.body, record c { reader = rest })
      else err (tcp_error frame.error_code)

-- How a connection of the simulator ended: by an error of a read or a write, by a bad handshake
-- message, or with fuel left over for nothing more.
pub data Ending : Type 0 where
  read_error write_error : Error → Ending
  refused : Ending
  panicked : Ending
  out_of_fuel : Ending

pub record Session : Type 0 where
  pub server : Server
  pub written : List ℕ
  pub ending : Ending

abbrev pub ended : Server → List ℕ → Ending → Session
ended s written e = record { server = s; written = written; ending = e }

-- The message loop of `handleTCPConn`. All writes succeed; `now` is the clock at each request.
unfoldable pub message_loop : ℕ → Server → Time → Reader → List ℕ → Session
message_loop zero s now r written = ended s written out_of_fuel
message_loop (suc fuel) s now r written = elim (read_tcp_message r) [
  | err e ↦ ended s written (read_error e)
  | panic ↦ ended s written panicked
  | ok (msg, rest) ↦ elim (msg.command == data_command) [
    | false ↦ message_loop fuel s now rest written
    | true ↦ elim (serve s (of_list msg.body) now) [
      | ok (reply, s') ↦
          message_loop fuel s' now rest (written ++ fins_tcp_frame data_command reply)
      | err e ↦ ended s written panicked
      | panic ↦ ended s written panicked
    ]
  ]
]

-- `handleTCPConn`: the handshake, and then the loop. Each message takes sixteen bytes or more, so
-- one round for each byte is enough.
unfoldable pub handle_tcp_conn : Server → Time → Reader → Session
unfolding message_loop fins_tcp_frame
handle_tcp_conn s now r = elim (read_tcp_message r) [
  | err e ↦ ended s [] (read_error e)
  | panic ↦ ended s [] panicked
  | ok (msg, rest) ↦
      if msg.command == handshake_command
      then message_loop (suc (length rest.bytes)) s now rest (fins_tcp_frame handshake_command [])
      else ended s [] refused
]
