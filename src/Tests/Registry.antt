-- ===== src/Tests/Registry.antt =====
-- Plugins and the watchdog at concrete inputs (plugin.go, plugin_watchdog.go).
use gofins.Base.{
  ℕ, ◌+◌, ◌-◌, ◌≤◌, ◌≡◌, ◌⊎◌, refl, arith, false, none, some, List, [], ◌∷◌, eof, length, pos, ◌==◌,
  if◌then◌else◌,
}
use gofins.Interceptor.{Env}
use gofins.Plugin.{Plugins, PluginManager}
use gofins.Watchdog.{new_connection_watchdog, stats, on_connected, on_disconnected, emit}
use gofins.Watchdog.Downtime.{Report, up, down, watch, watch_downtime_bounded}

-- The world is the manager.
abbrev alone : Env
alone = record {
  World = PluginManager ℕ;
  Ctx = Unit {0};
  ctx_err = λ _ _. none;
  sleep = λ _ w. w;
  now = λ _. 0;
}

-- Plugin 3 fails to initialize.
abbrev numbered : Plugins (PluginManager ℕ)
numbered = record {
  Plugin = ℕ;
  name = λ n. n ∷ [];
  initialize = λ n w. ((if n == 3 then some eof else none), w);
  hooks = λ _. none;
}

abbrev nobody : PluginManager ℕ
nobody = record { registered = λ _. false; order = [] }

abbrev itself : PluginManager ℕ → PluginManager ℕ
itself pm = pm

abbrev replace : PluginManager ℕ → PluginManager ℕ → PluginManager ℕ
replace pm w = pm

abbrev outage : List Report
outage = up 10 10 ∷ down 20 eof ∷ up 25 26 ∷ down 30 eof ∷ []

watch_downtime_bounded_example :
    let w = watch (new_connection_watchdog (pos 2)) outage in
    let s = stats 33 w in
    (s.total_downtime + s.current_downtime ≤ 33 - 5)
    × ((s.connected ≡ false) ⊎ (s.current_downtime ≡ 0))
    × (length w.events ≤ w.event_buf)
watch_downtime_bounded_example = watch_downtime_bounded (pos 2) 5 33 outage (
  omega arith,
  omega arith,
  (omega arith, (omega arith, omega arith, (omega arith, omega arith))),
)

-- Six seconds down and three more; the channel holds the first two events.
stats_of_outage : stats 33 (watch (new_connection_watchdog (pos 2)) outage) ≡ record {
  connected = false;
  last_connected = some 25;
  last_disconnected = some 30;
  current_downtime = 3;
  total_downtime = 6;
  last_disconnect_err = some eof;
}
unfolding stats new_connection_watchdog on_connected on_disconnected emit
stats_of_outage = refl
