-- ===== src/Tests/Starts.antt =====
-- Starting the simulator and accepting connections, at concrete inputs (server.go).
use gofins.Base.{
  ℕ, ◌≡◌, refl, arith, false, none, some, List, [], ◌∷◌, ok, err, panic, eof, unexpected_eof,
  tcp_address_required,
}
use gofins.Server.{new_plc_simulator}
use gofins.Server.Start.{
  udp, with_tcp_transport, start_simulator, Accepting, start_accepting, AcceptEvent, connects,
  closes, accept_failed, connection_failed, accept_run, accept_failure_panics,
}

udp_by_default :
    start_simulator {World = ℕ} (λ w. (none, w)) (λ w. (some eof, w)) false [] 0
    ≡ (ok (udp, new_plc_simulator), 0)
unfolding start_simulator
udp_by_default = refl

tcp_without_address :
    start_simulator {World = ℕ} (λ w. (none, w)) (λ w. (none, w)) false (with_tcp_transport ∷ []) 0
    ≡ (err tcp_address_required, 0)
unfolding start_simulator
tcp_without_address = refl

abbrev one_connection : Accepting
one_connection = record start_accepting { connections = 1 }

accept_failure_panics_example :
    accept_run (accept_failed unexpected_eof ∷ connection_failed eof ∷ []) one_connection ≡ panic
accept_failure_panics_example =
    accept_failure_panics one_connection unexpected_eof eof [] refl refl refl (omega arith)

abbrev two_connections : List AcceptEvent
two_connections =
    connects
    ∷ connects
    ∷ connection_failed eof
    ∷ closes
    ∷ accept_failed unexpected_eof
    ∷ connection_failed eof
    ∷ []
