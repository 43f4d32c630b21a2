-- ===== src/Tcp/Serving.antt =====
-- A whole FINS/TCP connection, from the handshake to its last message (server.go, transport.go).
use gofins.Base.{
  ℕ, ◌+◌, ◌^◌, ◌<◌, ◌≡◌, none, List, [], ◌∷◌, ◌++◌, Result, ok, Error, ◌>>=◌, arith, length,
  of_list,
}
use gofins.Server.{Server, Time, serve}
use gofins.Tcp.{
  Message, Reader, Conn, fins_tcp_frame, read_frame, handshake, data_command, handshake_command,
  send, recv,
}
use gofins.Tcp.Framing.{read_tcp_message-fins_tcp_frame, read_frame-read_tcp_message}

-- The client's data messages on a stream, and what the simulator should answer: `serve`, one
-- message after the other.
abbrev pub frames : List (List ℕ) → List ℕ
frames [] = []
frames (p ∷ ps) = fins_tcp_frame data_command p ++ frames ps

abbrev pub serve_all : Server → Time → List (List ℕ) → Result (List ℕ × Server)
serve_all s now [] = ok ([], s)
serve_all s now (p ∷ ps) = do
  (reply, s1) ← serve s (of_list p) now
  (out, s2) ← serve_all s1 now ps
  ok (fins_tcp_frame data_command reply ++ out, s2)

abbrev pub FitsFrame : List ℕ → Type 0
FitsFrame p = length p + 8 < 2 ^ 32

-- A read of a frame, by the client with a live context.
read_frame-fins_tcp_frame :
    (command : ℕ) (body rest : List ℕ) (ending : Error)
    → command < 2 ^ 32
    → length body + 8 < 2 ^ 32
    → read_frame none (record { bytes = fins_tcp_frame command body ++ rest; ending = ending })
      ≡ ok (
        record { command = command; error_code = 0; body = body },
        record { bytes = rest; ending = ending },
      )
read_frame-fins_tcp_frame command body rest ending hc hb =
    let taken : Message × Reader = (
      record { command = command; error_code = 0; body = body },
      record { bytes = rest; ending = ending },
    ) in
    let r : Reader = record { bytes = fins_tcp_frame command body ++ rest; ending = ending } in
    (read_frame-read_tcp_message none r taken).1.1
      (read_tcp_message-fins_tcp_frame command body rest ending hc hb)

-- The client's handshake, against a peer that answers as the simulator does: it is written, the
-- answer is taken off the stream, and what follows it stays.
pub handshake_accepts :
    (rest written : List ℕ) (ending : Error)
    → handshake none (record {
      reader = record { bytes = fins_tcp_frame handshake_command [] ++ rest; ending = ending };
      written = written;
      write_error = none;
    })
      ≡ ok (record {
        reader = record { bytes = rest; ending = ending };
        written = written ++ fins_tcp_frame handshake_command [];
        write_error = none;
      })
unfolding handshake
handshake_accepts rest written ending = rw (
  handshake,
  read_frame-fins_tcp_frame handshake_command [] rest ending (omega arith) (omega arith),
)

received :
    (b : Conn) (payload rest : List ℕ)
    → FitsFrame payload
    → b.reader.bytes ≡ fins_tcp_frame data_command payload ++ rest
    → recv none b ≡ ok (payload, record b { reader = record (b.reader) { bytes = rest } })
unfolding recv
received b payload rest fits arrives =
    let e : b.reader
        ≡ record { bytes = fins_tcp_frame data_command payload ++ rest; ending = b.reader.ending } =
      ground arith in
    rw (
      recv,
      e,
      read_frame-fins_tcp_frame data_command payload rest b.reader.ending (omega arith) fits,
    )

-- What one end sends the other receives: the bytes that `Send` writes are a frame that `Recv`
-- takes off the stream as the payload.
pub recv-send :
    (a b : Conn) (payload rest : List ℕ) {a' : Conn}
    → FitsFrame payload
    → send none a payload ≡ ok a'
    → b.reader.bytes ≡ fins_tcp_frame data_command payload ++ rest
    → (a'.written ≡ a.written ++ fins_tcp_frame data_command payload)
      × (recv none b ≡ ok (payload, record b { reader = record (b.reader) { bytes = rest } }))
recv-send a b payload rest fits sent arrives =
    (unfold send in ground arith, received b payload rest fits arrives)
