-- ===== src/Client/Reconnects.antt =====
-- Reconnecting ends, and what an error of the transport leaves behind (client.go).
use gofins.Base.{
  ℕ, zero, suc, ◌+◌, ◌≤◌, ◌<◌, Bool, true, false, ◌&&◌, not, Option, none, some, List, [], ◌∷◌,
  Result, ok, err, Error, closed_during_reconnect, auto_reconnect_disabled, max_attempts_reached,
  transport_missing, reconnecting_already, ℤ, pos, ◌≡◌, refl, ap, ◌∙◌, inl, inr, arith, Bool-cases,
  if◌then◌else◌,
}
use gofins.Interceptor.{Env}
use gofins.Plugin.{notify_disconnected, notify_disconnected_each}
use gofins.Client.State.{Client}
use gofins.Client.Exchange.{Net, manager, put_manager, is_connected, hook_run}
use gofins.Client.Lifecycle.{
  exhausted, reconnect, reconnect_loop, after_dial, finished, set_reconnecting, change, pause,
  paused_delay, listen_loop, listen_failed, failed, Received, after_hooks,
}

module _ (env : Env) (net : Net env)
    (client-put_client : (c : Client net.values.plugins.Plugin net.values.Handle) (w : env.World)
      → net.client (net.put_client c w) ≡ c)
    (dial : env.World → Option Error × env.World) where
  open env use {World}
  open net use {client, put_client}

  abbrev Outcome : Type 0
  Outcome = Result (Unit {0}) × World

  abbrev Returns : Option Outcome → Type 0
  Returns r = (result : Result (Unit {0})) × (w' : World) × (r ≡ some (result, w'))

  after_dial-Returns :
      (again : Error → World → Option Outcome) (answer : Option Error × World)
      → ((e : Error) (w : World) → Returns (again e w))
      → Returns (after_dial env net again answer)
  after_dial-Returns again (some e, w) h = h e w
  after_dial-Returns again (none, w) h = (_, _, refl)

  -- With `m + 1` attempts allowed and some of them made.
  reconnect_loop-Returns :
      (m : ℕ) (backoff : Bool) (fuel attempts delay : ℕ) (last : Error) (w : World)
      → attempts ≤ suc m
      → suc m < fuel + attempts
      → Returns (reconnect_loop env net dial (pos (suc m)) backoff fuel attempts delay last w)
  unfolding reconnect_loop
  reconnect_loop-Returns m backoff zero attempts delay last w few enough = absurd (omega arith)
  reconnect_loop-Returns m backoff (suc fuel) attempts delay last w few enough =
      elim (Bool-cases (client w).closed) [
        | inl closed ↦ (err closed_during_reconnect, w, rw (reconnect_loop, closed) refl)
        | inr up ↦ elim (Bool-cases (client w).auto_reconnect) [
          | inr off ↦ (err auto_reconnect_disabled, w, rw (reconnect_loop, up, off) refl)
          | inl on ↦ elim (Bool-cases (exhausted (pos (suc m)) attempts)) [
            | inl over ↦
                (err (max_attempts_reached last), w, rw (reconnect_loop, up, on, over) refl)
            | inr more ↦
                rw (up, on, more)
                  (after_dial-Returns
                    (reconnect_loop env net dial (pos (suc m)) backoff fuel (attempts + 1)
                      (paused_delay env net backoff attempts delay))
                    (dial (
                      change env net (λ c. record c { tr = false })
                        (pause env net attempts delay w)))
                    (λ e w'.
                      reconnect_loop-Returns m backoff fuel (attempts + 1)
                        (paused_delay env net backoff attempts delay) e w' (ground arith)
                        (omega arith)))
          ]
        ]
      ]

  finished-Returns :
      (r : Option Outcome)
      → Returns r
      → (result : Result (Unit {0})) × (w' : World) × (finished env net r ≡ some (result, w'))
        × ((client w').reconnecting ≡ false)
  finished-Returns r (result, w', returned) = (
    result,
    set_reconnecting env net false w',
    rw returned refl,
    ap (λ c. c.reconnecting) (client-put_client (record (client w') { reconnecting = false }) w'),
  )

  -- With a positive limit on the attempts, `reconnect` returns, however dialling goes and whatever
  -- it does to the world: one round of the loop for each attempt that is allowed and one more are
  -- enough. It leaves the client not reconnecting, so that it can be run again.
  pub reconnect_returns :
      (m k : ℕ) (w : World)
      → (client w).max_reconnect ≡ pos (suc m)
      → (client w).reconnecting ≡ false
      → (result : Result (Unit {0})) × (w' : World) × (reconnect env net dial (suc (suc m) + k) w
          ≡ some (result, w'))
        × ((client w').reconnecting ≡ false)
  unfolding reconnect
  reconnect_returns m k w limit idle =
      let backoff = (client w).use_reconnect_backoff in
      let delay = if backoff then (client w).reconnect_delay else 0 in
      let w1 = set_reconnecting env net true w in
      let loop : ℤ → Option Outcome = λ limit.
        reconnect_loop env net dial limit backoff (suc (suc m) + k) 0 delay transport_missing w1 in
      let begun : reconnect env net dial (suc (suc m) + k) w
          ≡ finished env net (loop (pos (suc m))) =
        ap
          (λ b.
            if b
            then some (err reconnecting_already, w)
            else finished env net (loop (client w).max_reconnect))
          idle
        ∙ ap (λ l. finished env net (loop l)) limit in
      let (result, w', ends, cleared) = finished-Returns (loop (pos (suc m))) (
        reconnect_loop-Returns m backoff (suc (suc m) + k) 0 delay transport_missing w1
          (omega arith) (omega arith)) in
      (result, w', begun ∙ ends, cleared)

  -- Without automatic reconnection and without plugins, any error of Recv, also the read timeout
  -- of an idle connection, ends the listener: the client is marked disconnected, and nothing that
  -- is received later is delivered.
  pub listen_loop_failed :
      (fuel : ℕ) (e : Error) (rest : List Received) (w : World)
      → (client w).closed ≡ false
      → (client w).auto_reconnect ≡ false
      → (client w).pm.order ≡ []
      → listen_loop env net dial fuel (failed e ∷ rest) w
        ≡ some (ok tt, put_client (record (client w) { connected = false }) w)
  unfolding listen_loop listen_failed notify_disconnected notify_disconnected_each
  listen_loop_failed fuel e rest w up off none_registered =
      let c = record (client w) { connected = false } in
      let w1 = put_client c w in
      let now : client w1 ≡ c = client-put_client c w in
      let order : (client w1).pm.order ≡ [] = ap (λ d. d.pm.order) now ∙ none_registered in
      let off1 : (client w1).auto_reconnect ≡ false = ap (λ d. d.auto_reconnect) now ∙ off in
      let notify : notify_disconnected env net.values.plugins (manager env net)
            (put_manager env net) (is_connected env net) e w1
          ≡ (ok tt, w1) =
        ap
          (λ l.
            notify_disconnected_each env net.values.plugins (manager env net) (put_manager env net)
              (is_connected env net) e l w1)
          order in
      ap
        (λ b.
          if b
          then some (ok tt, w)
          else after_hooks env net dial fuel (
              hook_run env net (
                notify_disconnected env net.values.plugins (manager env net) (put_manager env net)
                  (is_connected env net) e w1)))
        up
      ∙ ap (λ t. after_hooks env net dial fuel (hook_run env net t)) notify
      ∙ ap
          (λ b.
            if b && not (client w1).closed
            then reconnect env net dial fuel w1
            else some (ok tt, w1))
          off1
