-- ===== src/Client/Lifecycle.antt =====
-- The life of a connection (client.go): Close and Shutdown, reconnecting, and what the listener
-- does with an error of the transport.
use gofins.Base.{
  ℕ, zero, suc, ◌+◌, ◌*◌, Bool, true, false, ◌&&◌, not, Option, none, some, List, [], ◌∷◌, Result,
  ok, err, panic, Error, reconnecting_already, max_attempts_reached, closed_during_reconnect,
  auto_reconnect_disabled, transport_missing, ℤ, pos, negsuc, Slice, leb, ltb, if◌then◌else◌,
}
use gofins.Interceptor.{Env, Effect}
use gofins.Plugin.{notify_connected, notify_disconnected}
use gofins.Client.State.{Client, max_reconnect_delay, disable_auto_reconnect}
use gofins.Client.Exchange.{Net, manager, put_manager, is_connected, deliver, lift_client, hook_run}

-- `maxRetries > 0 && attempts >= maxRetries`
abbrev pub exhausted : ℤ → ℕ → Bool
exhausted (pos max_retries) attempts = ltb 0 max_retries && leb max_retries attempts
exhausted (negsuc n) attempts = false

-- The delay after the next sleep.
abbrev pub next_delay : Bool → ℕ → ℕ
next_delay false delay = delay
next_delay true delay =
    if ltb max_reconnect_delay (delay * 2) then max_reconnect_delay else delay * 2

-- What the transport's Recv returns.
pub data Received : Type 0 where
  payload : Slice → Received
  failed : Error → Received

module _ (env : Env) (net : Net env) where
  open env use {World, Ctx, sleep}
  open net use {client, put_client}

  abbrev pub change :
      (Client net.values.plugins.Plugin net.values.Handle
        → Client net.values.plugins.Plugin net.values.Handle)
      → World
      → World
  change f w = put_client (f (client w)) w

  -- `close_transport` is the transport's Close, whose error Close returns.
  unfoldable pub close : (World → Option Error × World) → World → Option Error × World
  close close_transport w =
      if (client w).closed
      then (none, w)
      else (let w1 = change (λ c. record c { closed = true }) w in
          if (client w1).tr then close_transport w1 else (none, w1))

  unfoldable pub shutdown : (World → Option Error × World) → World → Option Error × World
  unfolding close
  shutdown close_transport w = close close_transport (change (disable_auto_reconnect) w)

  -- `time.Sleep(delay)` from the second attempt on, and the delay after it.
  abbrev pub pause : ℕ → ℕ → World → World
  pause attempts delay w = if ltb 0 attempts && ltb 0 delay then sleep delay w else w

  abbrev pub paused_delay : Bool → ℕ → ℕ → ℕ
  paused_delay backoff attempts delay =
      if ltb 0 attempts && ltb 0 delay then next_delay backoff delay else delay

  -- The end of a successful attempt: the new transport, and the plugins' hooks.
  unfoldable pub reconnected : Effect env (Unit {0})
  reconnected w =
      notify_connected env net.values.plugins (manager env net) (put_manager env net)
        (is_connected env net) (change (λ c. record c { tr = true; connected = true }) w)

  -- What follows on dialling: the next round with the error, or the end.
  abbrev pub after_dial :
      (Error → World → Option (Result (Unit {0}) × World))
      → Option Error × World
      → Option (Result (Unit {0}) × World)
  after_dial again (some e, w) = again e w
  after_dial again (none, w) = some (reconnected w)

  -- The loop of `reconnect`, on fuel. `dial` makes a new transport once the old one is closed;
  -- `last` is not looked at before an attempt has set it.
  unfoldable pub reconnect_loop :
      (World → Option Error × World)
      → ℤ
      → Bool
      → ℕ
      → ℕ
      → ℕ
      → Error
      → World
      → Option (Result (Unit {0}) × World)
  unfolding reconnected
  reconnect_loop dial max_retries backoff zero attempts delay last w = none
  reconnect_loop dial max_retries backoff (suc fuel) attempts delay last w =
      let again =
        reconnect_loop dial max_retries backoff fuel (attempts + 1)
          (paused_delay backoff attempts delay) in
      if (client w).closed
      then some (err closed_during_reconnect, w)
      else if not (client w).auto_reconnect
      then some (err auto_reconnect_disabled, w)
      else if exhausted max_retries attempts
      then some (err (max_attempts_reached last), w)
      else after_dial again (dial (change (λ c. record c { tr = false }) (pause attempts delay w)))

  abbrev pub set_reconnecting : Bool → World → World
  set_reconnecting b = change (λ c. record c { reconnecting = b })

  -- The deferred function.
  abbrev pub finished : Option (Result (Unit {0}) × World) → Option (Result (Unit {0}) × World)
  finished none = none
  finished (some (r, w)) = some (r, set_reconnecting false w)

  unfoldable pub reconnect :
      (World → Option Error × World) → ℕ → World → Option (Result (Unit {0}) × World)
  unfolding reconnect_loop
  reconnect dial fuel w =
      let c = client w in
      if c.reconnecting
      then some (err reconnecting_already, w)
      else finished (
          reconnect_loop dial c.max_reconnect c.use_reconnect_backoff fuel 0
            (if c.use_reconnect_backoff then c.reconnect_delay else 0) transport_missing
            (set_reconnecting true w))

  -- The rest of the listener's error branch, once the plugins know.
  abbrev pub after_hooks :
      (World → Option Error × World)
      → ℕ
      → Result (Unit {0}) × World
      → Option (Result (Unit {0}) × World)
  after_hooks dial fuel (panic, w) = some (panic, w)
  after_hooks dial fuel (err e, w) =
      if (client w).auto_reconnect && not (client w).closed
      then reconnect dial fuel w
      else some (err e, w)
  after_hooks dial fuel (ok _, w) =
      if (client w).auto_reconnect && not (client w).closed
      then reconnect dial fuel w
      else some (ok tt, w)

  -- The listener on an error of Recv: it ends, and may have reconnected first.
  unfoldable pub listen_failed :
      (World → Option Error × World) → ℕ → Error → World → Option (Result (Unit {0}) × World)
  unfolding reconnect
  listen_failed dial fuel e w =
      if (client w).closed
      then some (ok tt, w)
      else after_hooks dial fuel (
          hook_run env net (
            notify_disconnected env net.values.plugins (manager env net) (put_manager env net)
              (is_connected env net) e (change (λ c. record c { connected = false }) w)))

  abbrev pub listen_on :
      Result (Unit {0}) × World
      → (World → Option (Result (Unit {0}) × World))
      → Option (Result (Unit {0}) × World)
  listen_on (ok _, w) rest = rest w
  listen_on (err e, w) rest = some (err e, w)
  listen_on (panic, w) rest = some (panic, w)

  -- `listenLoop` on what Recv returns, one after the other.
  unfoldable pub listen_loop :
      (World → Option Error × World)
      → ℕ
      → List Received
      → World
      → Option (Result (Unit {0}) × World)
  unfolding deliver listen_failed
  listen_loop dial fuel [] w = some (ok tt, w)
  listen_loop dial fuel (failed e ∷ rest) w = listen_failed dial fuel e w
  listen_loop dial fuel (payload p ∷ rest) w =
      listen_on (lift_client env net (deliver p (client w)) w) (listen_loop dial fuel rest)
