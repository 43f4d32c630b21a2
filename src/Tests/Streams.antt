-- ===== src/Tests/Streams.antt =====
-- FINS/TCP streams at concrete inputs (transport.go, server.go).
use gofins.Base.{
  ℕ, ◌≡◌, refl, none, List, [], ◌∷◌, ◌++◌, ok, err, eof, unexpected_eof, invalid_signature, arith,
}
use gofins.Area
use gofins.Protocol.{
  read_command, mem_addr, encode_header, encode_response, memory_area_read, normal_completion,
}
use gofins.Server.EndToEnd.{reply}
use gofins.Tcp.{Message, Reader, Conn, fins_tcp_frame, read_tcp_message, data_command}
use gofins.Tcp.Framing.{read_tcp_message-fins_tcp_frame}
use gofins.Tests.Memory.{command}

abbrev cut_off : Reader
cut_off = record { bytes = 70 ∷ 73 ∷ []; ending = eof }

cut_off_is_refused : read_tcp_message cut_off ≡ err unexpected_eof
unfolding read_tcp_message
cut_off_is_refused = refl

other_signature :
    read_tcp_message (record { bytes = 1 ∷ 2 ∷ 3 ∷ 4 ∷ 0 ∷ 0 ∷ 0 ∷ 8 ∷ []; ending = eof })
    ≡ err invalid_signature
unfolding read_tcp_message
other_signature = refl

read_tcp_message-fins_tcp_frame_example :
    read_tcp_message (record { bytes = fins_tcp_frame 2 (5 ∷ 6 ∷ []) ++ (7 ∷ []); ending = eof })
    ≡ ok (
      record { command = 2; error_code = 0; body = 5 ∷ 6 ∷ [] },
      record { bytes = 7 ∷ []; ending = eof },
    )
read_tcp_message-fins_tcp_frame_example =
    read_tcp_message-fins_tcp_frame 2 (5 ∷ 6 ∷ []) (7 ∷ []) eof (omega arith) (omega arith)

abbrev nothing : Message × Reader
nothing = (record { command = 0; error_code = 0; body = [] }, cut_off)

-- One read of a word that nobody wrote.
abbrev one_read : List (List ℕ)
one_read = (encode_header command ++ read_command (mem_addr Area.dm_word 100) 1) ∷ []

abbrev one_answer : List ℕ
one_answer =
    fins_tcp_frame data_command
      (encode_response (reply command memory_area_read normal_completion (0 ∷ 0 ∷ [])))
    ++ []

abbrev fresh : List ℕ → Conn
fresh bytes = record {
  reader = record { bytes = bytes; ending = eof };
  written = [];
  write_error = none;
}

abbrev after_send : Conn
after_send = record (fresh []) { written = fins_tcp_frame data_command (5 ∷ []) }
