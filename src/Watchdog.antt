-- ===== src/Watchdog.antt =====
-- ConnectionWatchdog of plugin_watchdog.go. Times are readings of a clock, and the zero time is
-- `none`; a hook is given the readings that it takes. Nobody receives from the event channel here.
pub mod Downtime
use gofins.Base.{
  ℕ, ◌+◌, ◌-◌, Bool, true, false, Option, none, some, List, [], ◌∷◌, ◌++◌, Error, length, ltb,
  if◌then◌else◌, ℤ, pos, negsuc, zero, suc,
}

-- ConnectionEventType
pub data EventType : Type 0 where
  connected_event disconnected_event : EventType

-- ConnectionEvent; `reason` is its field Err, `up` its field Connected.
pub record ConnectionEvent : Type 0 where
  pub at : ℕ
  pub kind : EventType
  pub reason : Option Error
  pub downtime : ℕ
  pub up : Bool

-- ConnectionStats
pub record ConnectionStats : Type 0 where
  pub connected : Bool
  pub last_connected : Option ℕ
  pub last_disconnected : Option ℕ
  pub current_downtime : ℕ
  pub total_downtime : ℕ
  pub last_disconnect_err : Option Error

-- ConnectionWatchdog; `events` is what its channel holds.
pub record Watchdog : Type 0 where
  pub event_buf : ℕ
  pub events : List ConnectionEvent
  pub connected : Bool
  pub last_connected : Option ℕ
  pub last_disconnected : Option ℕ
  pub downtime_start : Option ℕ
  pub total_downtime : ℕ
  pub last_err : Option Error

-- A buffer size that is not positive means 16.
abbrev pub buffer_size : ℤ → ℕ
buffer_size (pos zero) = 16
buffer_size (pos (suc n)) = suc n
buffer_size (negsuc n) = 16

unfoldable pub new_connection_watchdog : ℤ → Watchdog
new_connection_watchdog event_buffer = record {
  event_buf = buffer_size event_buffer;
  events = [];
  connected = false;
  last_connected = none;
  last_disconnected = none;
  downtime_start = none;
  total_downtime = 0;
  last_err = none;
}

-- `emit`: an event is dropped if the buffer is full.
unfoldable pub emit : ConnectionEvent → Watchdog → Watchdog
emit event w =
    if ltb (length w.events) w.event_buf then record w { events = w.events ++ (event ∷ []) } else w

-- `time.Since(w.downtimeStart)`, zero where no downtime runs.
abbrev pub since : Option ℕ → ℕ → ℕ
since none now = 0
since (some start) now = now - start

-- `OnConnected`; `later` is the reading that `time.Since` takes.
unfoldable pub on_connected : ℕ → ℕ → Watchdog → Watchdog
unfolding emit
on_connected now later w =
    let downtime = since w.downtime_start later in
    emit
      (record { at = now; kind = connected_event; reason = none; downtime = downtime; up = true })
      (record w {
        connected = true;
        last_connected = some now;
        downtime_start = none;
        total_downtime = w.total_downtime + downtime;
      })

-- `OnDisconnected`
unfoldable pub on_disconnected : ℕ → Error → Watchdog → Watchdog
unfolding emit
on_disconnected now e w =
    emit (record { at = now; kind = disconnected_event; reason = some e; downtime = 0; up = false })
      (record w {
        connected = false;
        last_disconnected = some now;
        downtime_start = some now;
        last_err = some e;
      })

-- `Stats`
unfoldable pub stats : ℕ → Watchdog → ConnectionStats
stats now w = record {
  connected = w.connected;
  last_connected = w.last_connected;
  last_disconnected = w.last_disconnected;
  current_downtime = if w.connected then 0 else since w.downtime_start now;
  total_downtime = w.total_downtime;
  last_disconnect_err = w.last_err;
}
