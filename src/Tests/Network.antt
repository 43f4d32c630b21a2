-- ===== src/Tests/Network.antt =====
-- The client on a network to a simulator, at concrete inputs (client.go, server.go).
use gofins.Base.{
  ℕ, suc, ◌+◌, ◌≡◌, refl, ap, arith, true, false, none, some, List, [], ◌∷◌, Result, ok, eof,
  deadline_exceeded, Slice, of_list, length, big_endian,
}
use gofins.Area
use gofins.Protocol.{FinsAddress, Response}
use gofins.Server.{Server, new_plc_simulator, serve}
use gofins.Server.Words.{with_words}
use gofins.Codec.{flat}
use gofins.Interceptor.{Env}
use gofins.Plugin.{Plugins}
use gofins.Client.State.{Client, Values, fresh}
use gofins.Client.Exchange.{Net, Delivery, ready, timed_out, client_done, Ending}
use gofins.Client.Operations.{read_words, write_words}
use gofins.Client.Serving.{Loopback, IsUp}
use gofins.Client.Loopback.{write_words_through}
use gofins.Client.Lifecycle.{reconnect, listen_loop, failed, payload}
use gofins.Client.Reconnects.{reconnect_returns, listen_loop_failed}
use gofins.Tests.Memory.{noon, dm_kept, zeros}
use gofins.Tests.Direct.{dm_word_compatible, three}

-- A client without interceptors, of plugins that are known by a number, and a simulator.
pub record World : Type 0 where
  pub client : Client ℕ (Unit {0})
  pub server : Server

abbrev pub here : Env
here = record {
  World = World;
  Ctx = Unit {0};
  ctx_err = λ _ _. none;
  sleep = λ _ w. w;
  now = λ _. 0;
}

-- Plugin n has the name n, and no hooks.
abbrev numbered : Plugins World
numbered = record {
  Plugin = ℕ;
  name = λ n. n ∷ [];
  initialize = λ n w. (none, w);
  hooks = λ _. none;
}

abbrev values : Values here
values = record {
  plugins = numbered;
  Handle = Unit {0};
  intercept = λ _ call w. call.invoker call.ctx w;
}

abbrev answered : List Slice → Ending → Delivery
answered incoming ending = record {
  send_error = none;
  incoming = incoming;
  ending = ending;
  late = [];
}

-- What the simulator makes of a frame.
abbrev carry : World → Result (List ℕ × Server) → Delivery × World
carry w (ok (answer, s)) = (answered (of_list answer ∷ []) client_done, record w { server = s })
carry w _ = (answered [] timed_out, w)

abbrev pub put_server : Server → World → World
put_server s w = record w { server = s }

abbrev pub wire : Net here
wire = record {
  values = values;
  client = λ w. w.client;
  put_client = λ c w. record w { client = c };
  select_connection = λ _ w. (ready, w);
  transmit = λ _ bytes w. carry w (serve w.server (of_list bytes) noon);
}

pub looped : Loopback here wire (λ w. w.server) put_server
looped = record {
  client-put_client = λ c w. refl;
  client-put_server = λ s w. refl;
  server-put_client = λ c w. refl;
  server-put_server = λ s w. refl;
  ctx_err-put_client = λ ctx c w. refl;
  ctx_err-put_server = λ ctx s w. refl;
  connects = λ ctx w up live. refl;
  carries = λ ctx bytes answer w s served. ap (carry w) (served noon);
}

abbrev node : ℕ → FinsAddress
node n = record { network = 0; node = n; unit = 0 }

abbrev pub start : World
start = record {
  client = record (fresh (node 2) (node 10)) { tr = true; connected = true };
  server = new_plc_simulator;
}

pub start-IsUp : IsUp here wire (λ w. w.server) put_server looped tt start
start-IsUp = record { live = refl; open_ = refl; connected = refl; dialled = refl; plain = refl }

write_words_through_example :
    (w1 : World) × (write_words here wire tt Area.dm_word 100 three start ≡ (ok tt, w1))
    × (w1.server ≡ with_words new_plc_simulator Area.dm_word zeros 100 (flat big_endian three))
    × (w2 : World) × (read_words here wire tt Area.dm_word 100 (length three) w1 ≡ (ok three, w2))
write_words_through_example =
    write_words_through here wire (λ w. w.server) put_server looped tt Area.dm_word 100 three start
      start-IsUp dm_word_compatible dm_kept (omega arith, (omega arith, (omega arith, tt)))
      (omega arith)

reconnect_returns_example :
    (result : Result (Unit {0})) × (w' : World) × (reconnect here wire
        (λ w. (some eof, w))
        (suc (suc 4) + 0)
        start
      ≡ some (result, w'))
    × (w'.client.reconnecting ≡ false)
reconnect_returns_example =
    reconnect_returns here wire (λ c w. refl) (λ w. (some eof, w)) 4 0 start refl refl

-- Five seconds without a payload.
listen_loop_failed_example :
    listen_loop here wire
      (λ w. (none, w))
      1
      (failed deadline_exceeded ∷ payload (of_list []) ∷ [])
      start
    ≡ some (ok tt, record start { client = record (start.client) { connected = false } })
listen_loop_failed_example =
    listen_loop_failed here wire (λ c w. refl) (λ w. (none, w)) 1 deadline_exceeded
      (payload (of_list []) ∷ []) start refl refl refl

-- A network that delivers an empty payload, and then an answer if there is one.
abbrev noisy : List Slice → Net here
noisy answers = record wire {
  transmit = λ _ bytes w. (answered (of_list [] ∷ answers) timed_out, w);
}

-- The answer to service id 1: command code 0x0701, a normal completion and no data.
abbrev reply_one : Slice
reply_one = of_list (0xc0 ∷ 0 ∷ 2 ∷ 0 ∷ 2 ∷ 0 ∷ 0 ∷ 10 ∷ 0 ∷ 1 ∷ 7 ∷ 1 ∷ 0 ∷ 0 ∷ [])

abbrev response_one : Response
response_one = record {
  header = record {
    message_type = 0;
    response_required = true;
    src = node 10;
    dst = node 2;
    service_id = 1;
    gateway_count = 2;
  };
  command_code = 0x0701;
  end_code = 0;
  body = of_list [];
}
