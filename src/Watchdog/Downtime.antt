-- ===== src/Watchdog/Downtime.antt =====
-- What the watchdog's statistics say of the time that has passed (plugin_watchdog.go).
use gofins.Base.{
  ℕ, ◌+◌, ◌-◌, ◌≤◌, true, false, Option, none, some, List, [], ◌∷◌, Error, length, length-append,
  ltb, ltb→lt, ◌≡◌, refl, arith, ℤ, Bool-cases, ◌⊎◌, inl, inr,
}
use gofins.Watchdog.{
  Watchdog, ConnectionEvent, new_connection_watchdog, emit, since, on_connected, on_disconnected,
  stats,
}

-- A hook that was run, with its clock readings.
pub data Report : Type 0 where
  up : ℕ → ℕ → Report
  down : ℕ → Error → Report

abbrev pub apply : Report → Watchdog → Watchdog
apply (up now later) w = on_connected now later w
apply (down now e) w = on_disconnected now e w

abbrev pub watch : Watchdog → List Report → Watchdog
watch w [] = w
watch w (r ∷ reports) = watch (apply r w) reports

-- The readings do not decrease, from `t` on; `t'` is the last.
abbrev pub Ordered : ℕ → List Report → ℕ → Type 0
Ordered t [] t' = t ≤ t'
Ordered t (up now later ∷ reports) t' = (t ≤ now) × (now ≤ later) × Ordered later reports t'
Ordered t (down now e ∷ reports) t' = (t ≤ now) × Ordered now reports t'

-- At time `t`, having started at `t0`.
pub record IsSound (t0 t : ℕ) (w : Watchdog) : Type 0 where
  pub begun : t0 ≤ t
  pub bounded : w.total_downtime + since w.downtime_start t ≤ t - t0
  pub running : (start : ℕ) → w.downtime_start ≡ some start → start ≤ t
  pub up_ends : w.connected ≡ true → w.downtime_start ≡ none
  pub room : length w.events ≤ w.event_buf

emit-IsSound :
    (t0 t : ℕ) (event : ConnectionEvent) (w : Watchdog)
    → IsSound t0 t w
    → IsSound t0 t (emit event w)
unfolding emit
emit-IsSound t0 t event w s = elim (Bool-cases (ltb (length w.events) w.event_buf)) [
  | inr full ↦ rw full s
  | inl free ↦ rw free (record {
    begun = s.begun;
    bounded = s.bounded;
    running = s.running;
    up_ends = s.up_ends;
    room =
        omega
          (arith, length-append w.events (event ∷ []), ltb→lt (length w.events) w.event_buf free);
  })
]

-- Time that passes adds at most itself to a running downtime.
since_later :
    (t0 t t' : ℕ) (start : Option ℕ) (total : ℕ)
    → t ≤ t'
    → t0 ≤ t
    → ((s : ℕ) → start ≡ some s → s ≤ t)
    → total + since start t ≤ t - t0
    → total + since start t' ≤ t' - t0
since_later t0 t t' none total le begun running h = omega arith
since_later t0 t t' (some s) total le begun running h = omega (arith, running s refl)

on_connected-IsSound :
    (t0 t now later : ℕ) (w : Watchdog)
    → t ≤ now
    → now ≤ later
    → IsSound t0 t w
    → IsSound t0 later (on_connected now later w)
unfolding on_connected
on_connected-IsSound t0 t now later w h k s =
    let b =
      since_later t0 t later w.downtime_start w.total_downtime (omega arith) s.begun s.running
        s.bounded in
    emit-IsSound t0 later _ _ (record {
      begun = omega (arith, s.begun);
      bounded = omega (arith, b);
      running = λ start p. cc;
      up_ends = λ p. refl;
      room = s.room;
    })

on_disconnected-IsSound :
    (t0 t now : ℕ) (e : Error) (w : Watchdog)
    → t ≤ now
    → IsSound t0 t w
    → IsSound t0 now (on_disconnected now e w)
unfolding on_disconnected
on_disconnected-IsSound t0 t now e w h s =
    let b = since_later t0 t now w.downtime_start w.total_downtime h s.begun s.running s.bounded in
    emit-IsSound t0 now _ _ (record {
      begun = omega (arith, s.begun);
      bounded = omega (arith, b);
      running = λ start p. ground arith;
      up_ends = λ p. cc;
      room = s.room;
    })

watch-IsSound :
    (t0 t t' : ℕ) (reports : List Report) (w : Watchdog)
    → Ordered t reports t'
    → IsSound t0 t w
    → IsSound t0 t' (watch w reports)
watch-IsSound t0 t t' [] w h s = record {
  begun = omega (arith, s.begun);
  bounded = since_later t0 t t' w.downtime_start w.total_downtime h s.begun s.running s.bounded;
  running = λ start p. omega (arith, s.running start p);
  up_ends = s.up_ends;
  room = s.room;
}
watch-IsSound t0 t t' (up now later ∷ reports) w (h, k, o) s =
    watch-IsSound t0 later t' reports (on_connected now later w) o
      (on_connected-IsSound t0 t now later w h k s)
watch-IsSound t0 t t' (down now e ∷ reports) w (h, o) s =
    watch-IsSound t0 now t' reports (on_disconnected now e w) o
      (on_disconnected-IsSound t0 t now e w h s)

new-IsSound : (t0 : ℕ) (event_buffer : ℤ) → IsSound t0 t0 (new_connection_watchdog event_buffer)
unfolding new_connection_watchdog
new-IsSound t0 event_buffer = record {
  begun = omega arith;
  bounded = omega arith;
  running = λ start p. cc;
  up_ends = λ p. refl;
  room = omega arith;
}

-- After any sequence of connects and disconnects whose clock readings do not decrease, the total
-- and the current downtime of the statistics together are at most the time since the start, no
-- downtime is current while the client is connected, and the channel's buffer is not overrun.
pub watch_downtime_bounded :
    (event_buffer : ℤ) (t0 now : ℕ) (reports : List Report)
    → Ordered t0 reports now
    → let w = watch (new_connection_watchdog event_buffer) reports in
      let s = stats now w in
      (s.total_downtime + s.current_downtime ≤ now - t0)
      × ((s.connected ≡ false) ⊎ (s.current_downtime ≡ 0))
      × (length w.events ≤ w.event_buf)
unfolding stats
watch_downtime_bounded event_buffer t0 now reports h =
    let w = watch (new_connection_watchdog event_buffer) reports in
    let s =
      watch-IsSound t0 t0 now reports (new_connection_watchdog event_buffer) h
        (new-IsSound t0 event_buffer) in
    (
      (elim (Bool-cases w.connected) [
        | inl connected ↦ rw connected (omega (arith, s.bounded))
        | inr gone ↦ rw gone s.bounded
      ]),
      (elim (Bool-cases w.connected) [
        | inl connected ↦ inr (rw connected refl)
        | inr gone ↦ inl gone
      ]),
      s.room,
    )

-- A second disconnect before the next connect restarts the downtime: of an outage from `t1` to
-- `t3` that is reported again at `t2`, only the time from `t2` on is counted.
pub on_connected-on_disconnected :
    (w : Watchdog) (t1 t2 t3 : ℕ) (e1 e2 : Error)
    → (on_connected t3 t3 (on_disconnected t2 e2 (on_disconnected t1 e1 w))).total_downtime
      ≡ w.total_downtime + (t3 - t2)
unfolding on_connected on_disconnected emit
on_connected-on_disconnected w t1 t2 t3 e1 e2 = ground arith
