-- ===== src/Server/Udp.antt =====
-- The simulator's UDP loop, and its Close (server.go). The loop's buffer keeps the bytes of earlier
-- datagrams behind those of the last.
use gofins.Base.{
  ℕ, true, Option, none, some, List, [], ◌∷◌, ◌++◌, Result, ok, err, panic, Error, Slice, length,
  take, drop, ◌==◌, if◌then◌else◌,
}
use gofins.Server.{Server, Time, serve}
use gofins.Server.EndToEnd.{reply}

abbrev pub server_buffer_size : ℕ
server_buffer_size = 1024

-- What happens to the loop: a datagram, with the clock and the error of writing the reply, if any;
-- an error of reading; or the Close of the server.
pub data UdpEvent : Type 0 where
  datagram : List ℕ → Time → Option Error → UdpEvent
  read_failed : Error → UdpEvent
  closes : UdpEvent

-- How the loop stands after its events.
pub data UdpEnd : Type 0 where
  waiting shut crashed : UdpEnd
  read_error write_error : Error → UdpEnd

pub record UdpRun : Type 0 where
  pub server : Server
  pub buffer : List ℕ
  pub sent : List (List ℕ)
  pub end : UdpEnd

-- `Close`, as far as the server's own state goes.
unfoldable pub close : Server → Server
close s = record s { closed = true }

-- ReadFromUDP: what does not fit the buffer is lost.
abbrev pub receive : List ℕ → List ℕ → List ℕ
receive buffer bytes = let got = take (length buffer) bytes in got ++ drop (length got) buffer

abbrev pub received : List ℕ → List ℕ → Slice
received buffer bytes = record {
  elems = receive buffer bytes;
  len = length (take (length buffer) bytes);
}

-- What the loop makes of the handler's reply.
abbrev pub answered :
    List ℕ
    → Option Error
    → List (List ℕ)
    → Server
    → (Server → List (List ℕ) → UdpRun)
    → Result (List ℕ × Server)
    → UdpRun
answered buffer failure sent s next panic = record {
  server = s;
  buffer = buffer;
  sent = sent;
  end = crashed;
}
answered buffer failure sent s next (err e) = record {
  server = s;
  buffer = buffer;
  sent = sent;
  end = crashed;
}
answered buffer none sent s next (ok (reply, s')) = next s' (sent ++ (reply ∷ []))
answered buffer (some e) sent s next (ok (reply, s')) = record {
  server = s';
  buffer = buffer;
  sent = sent;
  end = write_error e;
}

-- `udpLoop`
unfoldable pub udp_loop : Server → List ℕ → List (List ℕ) → List UdpEvent → UdpRun
unfolding close
udp_loop s buffer sent [] = record { server = s; buffer = buffer; sent = sent; end = waiting }
udp_loop s buffer sent (closes ∷ events) = record {
  server = close s;
  buffer = buffer;
  sent = sent;
  end = shut;
}
udp_loop s buffer sent (read_failed e ∷ events) = record {
  server = s;
  buffer = buffer;
  sent = sent;
  end = read_error e;
}
udp_loop s buffer sent (datagram bytes now failure ∷ events) =
    let next = receive buffer bytes in
    let idle = udp_loop s next sent events in
    if length bytes == 0
    then idle
    else answered next failure sent s (λ s' sent'. udp_loop s' next sent' events)
        (serve s (received buffer bytes) now)
