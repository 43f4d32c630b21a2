-- ===== src/Client/Exchange.antt =====
-- One command and its response (client.go): `waitForConnection`, `sendCommand` with the `select`
-- that it ends in, the deliveries of the listener, `checkResponse` and `triggerReconnect`.
use gofins.Base.{
  ℕ, ◌+◌, Bool, true, false, ◌||◌, not, Option, none, some, List, [], ◌∷◌, ◌++◌, Result, ok, err,
  panic, ◌>>=◌, map_result, Error, client_closed, response_timeout, transport_missing,
  end_code_error, incompatible_memory_area, Slice, ◌==◌, if◌then◌else◌,
}
use gofins.Protocol.{Response, decode_response, encode_header, normal_completion}
use gofins.Interceptor.{Env, Effect}
use gofins.Plugin.{PluginManager, notify_disconnected}
use gofins.Client.State.{
  Client, Values, Channel, missing, empty, holding, set_channel, increment_sid, next_header,
}

-- What the `select` of waitForConnection takes.
pub data Waited : Type 0 where
  ready closing : Waited
  expired : Error → Waited

-- What the `select` of sendCommand takes if it takes no response. With a response timeout of zero
-- it does not take `timed_out`.
pub data Ending : Type 0 where
  timed_out client_done : Ending
  cancelled : Error → Ending

-- What becomes of a frame: Send's error; else the payloads that the listener receives before the
-- `select` ends without a response, how it ends then, and the payloads after that.
pub record Delivery : Type 0 where
  pub send_error : Option Error
  pub incoming : List Slice
  pub ending : Ending
  pub late : List Slice

-- The client's place in the world, the scheduler's and the network's choices.
pub record Net (env : Env) : Type 1 where
  pub values : Values env
  pub client : env.World → Client values.plugins.Plugin values.Handle
  pub put_client : Client values.plugins.Plugin values.Handle → env.World → env.World
  pub select_connection : env.Ctx → env.World → Waited × env.World
  pub transmit : env.Ctx → List ℕ → env.World → Delivery × env.World

-- The listener's non-blocking send of a response.
abbrev pub offer : Response → Channel → Channel
offer r empty = holding r
offer r missing = missing
offer r (holding old) = holding old

module _ {Plugin Handle : Type 0} where
  -- The listener on one payload.
  unfoldable pub deliver : Slice → Client Plugin Handle → Result (Client Plugin Handle)
  deliver payload c =
      if payload.len == 0
      then ok c
      else (decode_response payload >>= λ ans.
          let sid = ans.header.service_id in ok (set_channel sid (offer ans (c.resp sid)) c))

  unfoldable pub deliver_all : List Slice → Client Plugin Handle → Result (Client Plugin Handle)
  unfolding deliver
  deliver_all [] c = ok c
  deliver_all (payload ∷ rest) c = deliver payload c >>= deliver_all rest

  -- Receiving from the channel of `sid`.
  abbrev pub take_response : ℕ → Client Plugin Handle → Option (Response × Client Plugin Handle)
  take_response sid c = elim (c.resp sid) [
    | holding r ↦ some (r, set_channel sid empty c)
    | _ ↦ none
  ]

  -- The wait for the response: it is taken as soon as it is there.
  unfoldable pub await :
      ℕ → List Slice → Client Plugin Handle → Result (Option Response × Client Plugin Handle)
  unfolding deliver deliver_all
  await sid [] c = ok (none, c)
  await sid (payload ∷ rest) c = deliver payload c >>= λ c'. elim (take_response sid c') [
    | some (r, c2) ↦ map_result (λ c3. (some r, c3)) (deliver_all rest c2)
    | none ↦ await sid rest c'
  ]

module _ (env : Env) (net : Net env) where
  open env use {World, Ctx}
  open net use {values, client, put_client, select_connection, transmit}

  abbrev pub after {ℓ κ} :
      {A : Type ℓ} {B : Type κ}
      → Result A × World
      → (A → World → Result B × World)
      → Result B × World
  after (ok a, w) next = next a w
  after (err e, w) next = (err e, w)
  after (panic, w) next = (panic, w)

  abbrev pub lift_client :
      Result (Client values.plugins.Plugin values.Handle) → World → Result (Unit {0}) × World
  lift_client (ok c) w = (ok tt, put_client c w)
  lift_client (err e) w = (err e, w)
  lift_client panic w = (panic, w)

  -- The error of a hook goes to the listener's error channel, and the work goes on.
  abbrev pub hook_run : Result (Unit {0}) × World → Result (Unit {0}) × World
  hook_run (panic, w) = (panic, w)
  hook_run (ok _, w) = (ok tt, w)
  hook_run (err e, w) = (ok tt, w)

  abbrev pub manager : World → PluginManager values.plugins.Plugin
  manager w = (client w).pm

  abbrev pub put_manager : PluginManager values.plugins.Plugin → World → World
  put_manager pm w = put_client (record (client w) { pm = pm }) w

  abbrev pub is_connected : World → Bool
  is_connected w = (client w).connected

  -- `go c.reconnect()`
  abbrev pub start_reconnect : Unit {0} → Effect env (Unit {0})
  start_reconnect _ w =
      let c = client w in (ok tt, put_client (record c { started = c.started + 1 }) w)

  unfoldable pub trigger_reconnect : Error → Effect env (Unit {0})
  trigger_reconnect reason w =
      let c = client w in
      if c.closed || (not c.auto_reconnect || c.reconnecting)
      then (ok tt, w)
      else after
          (hook_run (
            notify_disconnected env values.plugins manager put_manager is_connected reason
              (put_client (record c { connected = false }) w)))
          start_reconnect

  abbrev pub waited : Waited × World → Result (Unit {0}) × World
  waited (ready, w) = (ok tt, w)
  waited (closing, w) = (err client_closed, w)
  waited (expired e, w) = (err e, w)

  unfoldable pub wait_for_connection : Ctx → Effect env (Unit {0})
  wait_for_connection ctx w =
      if (client w).closed then (err client_closed, w) else waited (select_connection ctx w)

  -- The cases of the `select` other than a response.
  abbrev pub no_response : Ending → Effect env Response
  no_response (cancelled e) w = (err e, w)
  no_response client_done w = (err client_closed, w)
  no_response timed_out w =
      let e = response_timeout (client w).response_timeout_ms in
      after (trigger_reconnect e w) λ _ w'. (err e, w')

  abbrev pub received :
      Delivery
      → Result (Option Response × Client values.plugins.Plugin values.Handle)
      → Effect env Response
  received d panic w = (panic, w)
  received d (err e) w = (err e, w)
  received d (ok (some r, c)) w = (ok r, put_client c w)
  received d (ok (none, c)) w = no_response d.ending (put_client c w)

  -- The payloads behind the end of the wait go to the channels too.
  abbrev pub then_late : Delivery → Result Response × World → Result Response × World
  then_late d (panic, w) = (panic, w)
  then_late d (ok r, w) = after (lift_client (deliver_all d.late (client w)) w) λ _ w'. (ok r, w')
  then_late d (err e, w) = after (lift_client (deliver_all d.late (client w)) w) λ _ w'. (err e, w')

  abbrev pub sent : ℕ → Delivery × World → Result Response × World
  sent sid (d, w) = elim (d.send_error) [
    | some e ↦ (err e, w)
    | none ↦ then_late d (received d (await sid d.incoming (client w)) w)
  ]

  -- With the context's error, and whether there is a transport.
  unfoldable pub send_when : Ctx → List ℕ → Option Error → Bool → Effect env Response
  unfolding await increment_sid next_header
  send_when ctx command (some e) tr w = (err e, w)
  send_when ctx command none false w = (err transport_missing, w)
  send_when ctx command none true w =
      let c = increment_sid (client w) in
      sent c.sid (transmit ctx (encode_header (next_header c) ++ command) (put_client c w))

  unfoldable pub send_command : Ctx → List ℕ → Effect env Response
  unfolding send_when
  send_command ctx command w = send_when ctx command (env.ctx_err ctx w) (client w).tr w

  unfoldable pub check_response : Response → Result Response
  check_response r =
      if r.end_code == normal_completion then ok r else err (end_code_error r.end_code)

  -- With what every operation on memory begins.
  unfoldable pub prepare : Ctx → Bool → ℕ → Effect env (Unit {0})
  unfolding wait_for_connection
  prepare ctx compatible area w =
      after (wait_for_connection ctx w)
        λ _ w1. if compatible then (ok tt, w1) else (err (incompatible_memory_area area), w1)

  -- `checkResponse(c.sendCommand(ctx, command))`
  unfoldable pub perform : Ctx → List ℕ → Effect env Response
  unfolding send_command check_response
  perform ctx command w = after (send_command ctx command w) (λ r w'. (check_response r, w'))

  unfoldable pub request : Ctx → Bool → ℕ → List ℕ → Effect env Response
  unfolding prepare perform
  request ctx compatible area command w =
      after (prepare ctx compatible area w) λ _ w1. perform ctx command w1
