-- ===== src/Client/Serving.antt =====
-- The Client on a network that takes every frame to the simulator and its answer back (client.go,
-- driver.go, server.go): one command that the simulator serves.
use mathlib.Core.List.{append-nil}
use gofins.Base.{
  ℕ, ◌+◌, Bool, true, false, none, List, [], ◌∷◌, ◌++◌, ok, err, client_closed,
  incompatible_memory_area, of_list, to_list, length, ◌≡◌, refl, sym, ap, ◌∙◌, arith, if◌then◌else◌,
}
use gofins.Protocol.{
  Header, Response, IsU16, encode_response, encode_header, decode_response, default_response_header,
  default_command_header,
}
use gofins.Protocol.Headers.{decoded_type}
use gofins.Protocol.Frames.{decode_response-encode_response}
use gofins.Server.{Server, Time, serve}
use gofins.Server.EndToEnd.{frame, reply}
use gofins.Interceptor.{Env}
use gofins.Client.State.{Client, increment_sid, next_header}
use gofins.Client.Exchange.{
  Net, ready, client_done, waited, wait_for_connection, prepare, perform, check_response, after,
}
use gofins.Client.Answers.{waiting, framed, IsAnswer, send_command_answer}

-- A network whose other end is the simulator, and a world with a client and a simulator apart.
pub record Loopback (env : Env) (net : Net env) (server : env.World → Server)
    (put_server : Server → env.World → env.World) : Type 0 where
  pub client-put_client :
      (c : Client net.values.plugins.Plugin net.values.Handle) (w : env.World)
      → net.client (net.put_client c w) ≡ c
  pub client-put_server : (s : Server) (w : env.World) → net.client (put_server s w) ≡ net.client w
  pub server-put_client :
      (c : Client net.values.plugins.Plugin net.values.Handle) (w : env.World)
      → server (net.put_client c w) ≡ server w
  pub server-put_server : (s : Server) (w : env.World) → server (put_server s w) ≡ s
  pub ctx_err-put_client :
      (ctx : env.Ctx) (c : Client net.values.plugins.Plugin net.values.Handle) (w : env.World)
      → env.ctx_err ctx (net.put_client c w) ≡ env.ctx_err ctx w
  pub ctx_err-put_server :
      (ctx : env.Ctx) (s : Server) (w : env.World)
      → env.ctx_err ctx (put_server s w) ≡ env.ctx_err ctx w
  pub connects :
      (ctx : env.Ctx) (w : env.World)
      → (net.client w).connected ≡ true
      → env.ctx_err ctx w ≡ none
      → net.select_connection ctx w ≡ (ready, w)
  pub carries :
      (ctx : env.Ctx) (bytes answer : List ℕ) (w : env.World) (s : Server)
      → ((now : Time) → serve (server w) (of_list bytes) now ≡ ok (answer, s))
      → net.transmit ctx bytes w ≡ (
        record {
          send_error = none;
          incoming = of_list answer ∷ [];
          ending = client_done;
          late = [];
        },
        put_server s w,
      )

-- What the client decodes from a response's frame.
abbrev pub decoded_response : Response → Response
decoded_response r = record {
  header = record (r.header) { message_type = decoded_type r.header };
  command_code = r.command_code;
  end_code = r.end_code;
  body = record { elems = to_list r.body ++ []; len = length (to_list r.body) };
}

pub reply_IsAnswer :
    (r : Response) (sid : ℕ)
    → IsU16 r.command_code
    → IsU16 r.end_code
    → r.header.service_id ≡ sid
    → IsAnswer sid (of_list (encode_response r)) (decoded_response r)
unfolding encode_response encode_header
reply_IsAnswer r sid c e own = (
  omega arith,
  ap (λ l. decode_response (record { elems = l; len = length (encode_response r) }))
        (sym (append-nil (encode_response r)))
      ∙ decode_response-encode_response r [] c e,
  own,
)

-- A frame with nothing behind it.
pub frame_exact :
    (h : Header) (command : List ℕ) → of_list (encode_header h ++ command) ≡ frame h command []
unfolding encode_header
frame_exact h command =
    let size : length (encode_header h ++ command) ≡ 10 + length command = omega arith in
    rw (size, append-nil command) refl

module _ (env : Env) (net : Net env) (server : env.World → Server)
    (put_server : Server → env.World → env.World) (loop : Loopback env net server put_server)
    (ctx : env.Ctx) where
  open env use {World, ctx_err}
  open net use {client, put_client}

  -- A client that is open and connected, with no interceptor, under a live context.
  pub record IsUp (w : World) : Type 0 where
    pub live : ctx_err ctx w ≡ none
    pub open_ : (client w).closed ≡ false
    pub connected : (client w).connected ≡ true
    pub dialled : (client w).tr ≡ true
    pub plain : (client w).interceptor ≡ none

  abbrev pub next : World → Client net.values.plugins.Plugin net.values.Handle
  next = waiting env net loop.client-put_client

  abbrev pub frame_of : World → List ℕ → List ℕ
  frame_of = framed env net loop.client-put_client

  -- A command that the simulator answers.
  pub perform_served :
      (command : List ℕ) (w : World) (r : Response) (s : Server)
      → IsUp w
      → IsU16 r.command_code
      → IsU16 r.end_code
      → r.header.service_id ≡ (next w).sid
      → ((now : Time)
          → serve (server w) (of_list (frame_of w command)) now ≡ ok (encode_response r, s))
      → (w' : World) × (perform env net ctx command w
          ≡ (check_response env net (decoded_response r), w'))
        × (server w' ≡ s)
        × ((client w').byte_order ≡ (client w).byte_order)
        × IsUp w'
  unfolding perform increment_sid
  perform_served command w r s up c e own served =
      let w1 = put_client (next w) w in
      let w2 = put_server s w1 in
      let sends = loop.carries ctx (frame_of w command) (encode_response r) w1 s (λ now.
        ap (λ t. serve t (of_list (frame_of w command)) now) (loop.server-put_client (next w) w)
        ∙ served now) in
      let (d, answered, same) =
        send_command_answer env net loop.client-put_client ctx command w w2 []
          (of_list (encode_response r)) (decoded_response r) client_done up.live up.dialled sends
          (loop.client-put_server s w1 ∙ loop.client-put_client (next w) w) tt
          (reply_IsAnswer r (next w).sid c e own) in
      let w3 = put_client d w2 in
      let w4 = put_client d w3 in
      let now : client w4 ≡ d = loop.client-put_client d w3 in
      (
        w4,
        ap (λ t. after env net t (λ r w'. (check_response env net r, w'))) answered,
        loop.server-put_client d w3 ∙ loop.server-put_client d w2 ∙ loop.server-put_server s w1,
        ap (λ c. c.byte_order) (now ∙ same),
        record {
          live =
              loop.ctx_err-put_client ctx d w3
              ∙ loop.ctx_err-put_client ctx d w2
              ∙ loop.ctx_err-put_server ctx s w1
              ∙ loop.ctx_err-put_client ctx (next w) w
              ∙ up.live;
          open_ = ap (λ c. c.closed) (now ∙ same) ∙ up.open_;
          connected = ap (λ c. c.connected) (now ∙ same) ∙ up.connected;
          dialled = ap (λ c. c.tr) (now ∙ same) ∙ up.dialled;
          plain = ap (λ c. c.interceptor) (now ∙ same) ∙ up.plain;
        },
      )

  pub prepare-IsUp :
      (w : World) (compatible : Bool) (area : ℕ)
      → IsUp w
      → compatible ≡ true
      → prepare env net ctx compatible area w ≡ (ok tt, w)
  unfolding prepare wait_for_connection
  prepare-IsUp w compatible area up fine =
      let wait : wait_for_connection env net ctx w ≡ (ok tt, w) =
        ap (λ b. if b then (err client_closed, w) else waited env net (net.select_connection ctx w))
          up.open_
        ∙ ap (waited env net) (loop.connects ctx w up.connected up.live) in
      ap
        (λ t.
          after env net t
            (λ _ w1. if compatible then (ok tt, w1) else (err (incompatible_memory_area area), w1)))
        wait
      ∙ ap (λ b. if b then (ok tt, w) else (err (incompatible_memory_area area), w)) fine

  pub own_sid :
      (code end_code : ℕ) (found : List ℕ) (w : World)
      → (reply (next_header (next w)) code end_code found).header.service_id ≡ (next w).sid
  unfolding default_response_header default_command_header next_header
  own_sid code end_code found w = refl
