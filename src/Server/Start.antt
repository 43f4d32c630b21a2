-- ===== src/Server/Start.antt =====
-- Starting the simulator, and its TCP accept loop with the error channel (server.go):
-- NewPLCSimulator with its options, tcpAcceptLoop, and what handleTCPConn reports.
use gofins.Base.{
  ℕ, zero, suc, ◌-◌, ◌<◌, ◌≡◌, refl, arith, Bool, true, false, Option, none, some, List, [], ◌∷◌,
  ◌++◌, foldl, Result, ok, err, panic, ◌>>=◌, Error, tcp_address_required,
  simulator_transport_unsupported, if◌then◌else◌,
}
use gofins.Server.{Server, new_plc_simulator}

-- transportKind; the code's switches have a default case for other numbers.
pub data TransportKind : Type 0 where
  udp tcp other : TransportKind

pub record ServerConfig : Type 0 where
  pub transport : TransportKind

-- ServerOption
abbrev pub ServerOption : Type 0
ServerOption = ServerConfig → ServerConfig

abbrev pub with_tcp_transport : ServerOption
with_tcp_transport cfg = record cfg { transport = tcp }

-- What follows on listening: the loop of the transport is started.
abbrev pub listening :
    {World : Type 0}
    → TransportKind
    → Option Error × World
    → Result (TransportKind × Server) × World
listening kind (none, w) = (ok (kind, new_plc_simulator), w)
listening kind (some e, w) = (err e, w)

-- `NewPLCSimulator`; `listen_udp` and `listen_tcp` are package net's, `has_tcp` says that the
-- address has a TCP part.
module _ {World : Type 0} (listen_udp listen_tcp : World → Option Error × World)
    (has_tcp : Bool) where
  abbrev pub start_transport : TransportKind → World → Result (TransportKind × Server) × World
  start_transport udp w = listening udp (listen_udp w)
  start_transport tcp w =
      if has_tcp then listening tcp (listen_tcp w) else (err tcp_address_required, w)
  start_transport other w = (err simulator_transport_unsupported, w)

  unfoldable pub start_simulator :
      List ServerOption → World → Result (TransportKind × Server) × World
  unfolding new_plc_simulator
  start_simulator opts w =
      start_transport (foldl (λ cfg opt. opt cfg) (record { transport = udp }) opts).transport w

-- The accept loop and the connections that it has started: whether the loop runs, whether it has
-- closed the error channel, what was sent to the channel, and whether the server is closed.
pub record Accepting : Type 0 where
  pub running : Bool
  pub reports_closed : Bool
  pub reports : List Error
  pub closed : Bool
  pub connections : ℕ

abbrev pub start_accepting : Accepting
start_accepting = record {
  running = true;
  reports_closed = false;
  reports = [];
  closed = false;
  connections = 0;
}

-- A connection is accepted; AcceptTCP fails; a connection's goroutine ends with an error; Close.
pub data AcceptEvent : Type 0 where
  connects closes : AcceptEvent
  accept_failed connection_failed : Error → AcceptEvent

-- `s.errChan <- e`, which panics on a closed channel. The channel is read in time.
abbrev pub report_error : Error → Accepting → Result Accepting
report_error e a =
    if a.reports_closed then panic else ok (record a { reports = a.reports ++ (e ∷ []) })

-- `if !s.IsClosed() { s.errChan <- … }`
abbrev pub report_open : Error → Accepting → Result Accepting
report_open e a = if a.closed then ok a else report_error e a

-- The deferred `close(s.errChan)`.
abbrev pub stop_accepting : Accepting → Accepting
stop_accepting a = record a { running = false; reports_closed = true }

abbrev pub connection_ends : ℕ → Error → Accepting → Result Accepting
connection_ends zero e a = ok a
connection_ends (suc n) e a = report_open e (record a { connections = n })

-- tcpAcceptLoop and handleTCPConn on one event; without the loop nothing is accepted.
unfoldable pub accept_step : AcceptEvent → Accepting → Result Accepting
accept_step connects a = ok (if a.running then record a { connections = suc a.connections } else a)
accept_step closes a = ok (record a { closed = true })
accept_step (accept_failed e) a =
    if a.running then (report_open e a >>= λ b. ok (stop_accepting b)) else ok a
accept_step (connection_failed e) a = connection_ends a.connections e a

unfoldable pub accept_run : List AcceptEvent → Accepting → Result Accepting
unfolding accept_step
accept_run [] a = ok a
accept_run (event ∷ events) a = accept_step event a >>= accept_run events

-- AcceptTCP fails only once the server is closed.
abbrev pub FailsClosed : Bool → List AcceptEvent → Type 0
FailsClosed closed [] = Unit
FailsClosed closed (connects ∷ events) = FailsClosed closed events
FailsClosed closed (closes ∷ events) = FailsClosed true events
FailsClosed closed (accept_failed e ∷ events) = (closed ≡ true) × FailsClosed closed events
FailsClosed closed (connection_failed e ∷ events) = FailsClosed closed events

-- If accepting fails while the server is open, the loop closes the error channel, and the next
-- connection that ends with an error panics by sending to it.
pub accept_failure_panics :
    (a : Accepting) (e f : Error) (events : List AcceptEvent)
    → a.running ≡ true
    → a.closed ≡ false
    → a.reports_closed ≡ false
    → 0 < a.connections
    → accept_run (accept_failed e ∷ connection_failed f ∷ events) a ≡ panic
unfolding accept_run accept_step
accept_failure_panics a e f events r c p n =
    let some_connection : a.connections ≡ suc (a.connections - 1) = omega arith in
    rw (r, c, p, some_connection) refl
