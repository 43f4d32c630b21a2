-- ===== src/Client/Answers.antt =====
-- Which response a command gets (client.go): `listenLoop`'s deliveries and the wait for them.
use gofins.Base.{
  ℕ, ◌+◌, ◌%◌, true, false, none, some, List, [], ◌∷◌, ◌++◌, ok, Error, Slice, ◌==◌, ==_refl, ◌≡◌,
  ◌≢◌, ◌⊎◌, inl, inr, refl, ap, ◌∙◌, All, arith, client_closed, ◌>>=◌, response_timeout,
}
use gofins.Protocol.{Response, decode_response, encode_header}
use gofins.Interceptor.{Env}
use gofins.Client.State.{Client, Channel, empty, holding, set_channel, increment_sid, next_header}
use gofins.Client.Exchange.{
  Net, Delivery, Ending, cancelled, client_done, deliver, deliver_all, await, offer, take_response,
  send_when, send_command, sent, received, then_late, timed_out,
}

-- A payload that is no response to `sid`.
abbrev pub IsOther : ℕ → Slice → Type 0
IsOther sid p =
    (p.len ≡ 0)
    ⊎ ((p.len ≢ 0) × (r : Response) × (decode_response p ≡ ok r) × (r.header.service_id ≢ sid))

-- A payload that is one.
abbrev pub IsAnswer : ℕ → Slice → Response → Type 0
IsAnswer sid p r = (p.len ≢ 0) × (decode_response p ≡ ok r) × (r.header.service_id ≡ sid)

ne→== : (a b : ℕ) → a ≢ b → (a == b) ≡ false
ne→== a b h = ground arith

module _ {Plugin Handle : Type 0} where
  -- Deliveries change the channels alone.
  abbrev with_channels : (ℕ → Channel) → Client Plugin Handle → Client Plugin Handle
  with_channels resp c = record c { resp = resp }

  abbrev pub Same : Client Plugin Handle → Client Plugin Handle → Type 0
  Same c d = d ≡ record c { resp = d.resp }

  deliver_other :
      (sid : ℕ) (p : Slice) (c : Client Plugin Handle)
      → IsOther sid p
      → c.resp sid ≡ empty
      → (c' : Client Plugin Handle) × (deliver p c ≡ ok c') × (c'.resp sid ≡ empty) × Same c c'
  unfolding deliver
  deliver_other sid p c (inl zero) e = (c, rw zero refl, e, refl)
  deliver_other sid p c (inr (some_bytes, r, decoded, other)) e =
      let k = r.header.service_id in
      (
        set_channel k (offer r (c.resp k)) c,
        rw (ne→== p.len 0 some_bytes, decoded) refl,
        rw (ne→== k sid other) e,
        refl,
      )

  deliver_answer :
      (sid : ℕ) (p : Slice) (c : Client Plugin Handle) {r : Response}
      → IsAnswer sid p r
      → c.resp sid ≡ empty
      → deliver p c ≡ ok (set_channel sid (holding r) c)
  unfolding deliver
  deliver_answer sid p c {r} (some_bytes, decoded, own) e =
      rw (ne→== p.len 0 some_bytes, decoded, own, e) refl

  -- The wait passes over what is no response to its command.
  await_others :
      (sid : ℕ) (others rest : List Slice) (c : Client Plugin Handle)
      → All (IsOther sid) others
      → c.resp sid ≡ empty
      → (c' : Client Plugin Handle) × (await sid (others ++ rest) c ≡ await sid rest c')
        × (c'.resp sid ≡ empty)
        × Same c c'
  unfolding await
  await_others sid [] rest c h e = (c, refl, e, refl)
  await_others sid (p ∷ others) rest c (o, h) e =
      let (c1, delivered, e1, same1) = deliver_other sid p c o e in
      let (c2, waits, e2, same2) = await_others sid others rest c1 h e1 in
      (
        c2,
        rw (await, delivered, ◌>>=◌, take_response, e1) waits,
        e2,
        same2 ∙ ap (with_channels c2.resp) same1,
      )

  await_answer :
      (sid : ℕ) (p : Slice) (c : Client Plugin Handle) {r : Response}
      → IsAnswer sid p r
      → c.resp sid ≡ empty
      → await sid (p ∷ []) c ≡ ok (some r, set_channel sid empty (set_channel sid (holding r) c))
  unfolding await deliver_all
  await_answer sid p c {r} answer e =
      rw (await, deliver_answer sid p c answer e, ◌>>=◌, take_response, ==_refl sid) refl

module _ (env : Env) (net : Net env)
    (client-put_client : (c : Client net.values.plugins.Plugin net.values.Handle) (w : env.World)
      → net.client (net.put_client c w) ≡ c) where
  open env use {World, Ctx, ctx_err}
  open net use {client, put_client, transmit}

  -- The client while a command waits: it has the next service id, and a new channel for it.
  abbrev pub waiting : World → Client net.values.plugins.Plugin net.values.Handle
  waiting w = increment_sid (client w)

  waiting_empty : (w : World) → (waiting w).resp (waiting w).sid ≡ empty
  unfolding increment_sid
  waiting_empty w = rw (==_refl (((client w).sid + 1) % 256)) refl

  -- The frame that a command becomes.
  abbrev pub framed : World → List ℕ → List ℕ
  framed w command = encode_header (next_header (waiting w)) ++ command

  -- What the network does with that frame, and the world then.
  abbrev pub Transmits : Ctx → List ℕ → World → List Slice → Ending → World → Type 0
  Transmits ctx command w incoming ending w' =
      transmit ctx (framed w command) (put_client (waiting w) w)
      ≡ (record { send_error = none; incoming = incoming; ending = ending; late = [] }, w')

  pub send_command_answer :
      (ctx : Ctx) (command : List ℕ) (w w' : World) (others : List Slice) (p : Slice) (r : Response)
      (ending : Ending)
      → ctx_err ctx w ≡ none
      → (client w).tr ≡ true
      → Transmits ctx command w (others ++ (p ∷ [])) ending w'
      → client w' ≡ waiting w
      → All (IsOther (waiting w).sid) others
      → IsAnswer (waiting w).sid p r
      → (c : Client net.values.plugins.Plugin net.values.Handle) × (send_command env net ctx command
            w
          ≡ (ok r, put_client c (put_client c w')))
        × Same (waiting w) c
  unfolding send_command send_when deliver_all
  send_command_answer ctx command w w' others p r ending live tr sends same other answer =
      let (c1, waits, e1, same1) =
        await_others (waiting w).sid others (p ∷ []) (waiting w) other (waiting_empty w) in
      let sid = (waiting w).sid in
      let c2 = set_channel sid empty (set_channel sid (holding r) c1) in
      let wait : await sid (others ++ (p ∷ [])) (client w') ≡ ok (some r, c2) =
        rw same (waits ∙ await_answer sid p c1 answer e1) in
      let d : Delivery = record {
        send_error = none;
        incoming = others ++ (p ∷ []);
        ending = ending;
        late = [];
      } in
      (
        c2,
        ap (λ o. send_when env net ctx command o (client w).tr w) live
            ∙ ap (λ b. send_when env net ctx command none b w) tr
            ∙ ap (sent env net sid) sends
            ∙ ap (λ a. then_late env net d (received env net d a w')) wait
            ∙ ap (λ c. (ok r, put_client c (put_client c2 w'))) (client-put_client c2 w'),
        ap (with_channels c2.resp) same1,
      )

  abbrev response_error : Ending → ℕ → Error
  response_error timed_out t = response_timeout t
  response_error client_done t = client_closed
  response_error (cancelled e) t = e

  -- The error of a command that no response ends.
  abbrev pub ending_error : Ending → Client net.values.plugins.Plugin net.values.Handle → Error
  ending_error ending c = response_error ending c.response_timeout_ms
