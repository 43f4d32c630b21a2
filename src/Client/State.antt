-- ===== src/Client/State.antt =====
-- The Client of client.go, its constructors and its settings. Addresses of sockets are left out.
use gofins.Base.{
  ℕ, ◌+◌, ◌*◌, ◌%◌, Bool, true, false, Option, none, some, [], Result, ok, err, Error,
  remote_address_missing, ByteOrder, big_endian, ℤ, pos, ◌==◌, if◌then◌else◌,
}
use gofins.Protocol.{FinsAddress, Header, Response, default_command_header}
use gofins.Interceptor.{Env, Interceptor}
use gofins.Plugin.{Plugins, PluginManager}

abbrev pub default_response_timeout : ℕ
default_response_timeout = 1000

-- Durations are nanoseconds.
abbrev pub second : ℕ
second = 1000000000

abbrev pub default_read_timeout : ℕ
default_read_timeout = 5 * second

abbrev pub max_service_id_count : ℕ
max_service_id_count = 256

abbrev pub default_max_reconnect : ℤ
default_max_reconnect = pos 5

abbrev pub default_reconnect_delay : ℕ
default_reconnect_delay = second

abbrev pub max_reconnect_delay : ℕ
max_reconnect_delay = 30 * second

-- A response channel: it does not exist yet, or its buffer of one holds nothing, or a response.
pub data Channel : Type 0 where
  missing empty : Channel
  holding : Response → Channel

-- The values of the interface types that a client holds, and what the interceptors among them do.
pub record Values (env : Env) : Type 1 where
  pub plugins : Plugins env.World
  pub Handle : Type 0
  pub intercept : Handle → Interceptor env

-- Client. `tr` says that the transport is not nil, `connected` that the channel of that name is
-- closed; `started` counts the goroutines of reconnect that were started.
pub record Client (Plugin Handle : Type 0) : Type 0 where
  pub tr : Bool
  pub resp : ℕ → Channel
  pub dst : FinsAddress
  pub src : FinsAddress
  pub sid : ℕ
  pub closed : Bool
  pub response_timeout_ms : ℕ
  pub read_timeout : ℕ
  pub byte_order : ByteOrder
  pub auto_reconnect : Bool
  pub max_reconnect : ℤ
  pub reconnect_delay : ℕ
  pub use_reconnect_backoff : Bool
  pub reconnecting : Bool
  pub connected : Bool
  pub dynamic_local : Bool
  pub interceptor : Option Handle
  pub pm : PluginManager Plugin
  pub started : ℕ

module _ {Plugin Handle : Type 0} where
  -- The fields as both constructors set them before they dial.
  abbrev pub fresh : FinsAddress → FinsAddress → Client Plugin Handle
  fresh src dst = record {
    tr = false;
    resp = λ _. missing;
    dst = dst;
    src = src;
    sid = 0;
    closed = false;
    response_timeout_ms = default_response_timeout;
    read_timeout = default_read_timeout;
    byte_order = big_endian;
    auto_reconnect = false;
    max_reconnect = default_max_reconnect;
    reconnect_delay = default_reconnect_delay;
    use_reconnect_backoff = true;
    reconnecting = false;
    connected = false;
    dynamic_local = false;
    interceptor = none;
    pm = record { registered = λ _. false; order = [] };
    started = 0;
  }

  -- What follows on dialling; the new client has no plugins to notify.
  abbrev pub dialled :
      {World : Type 0}
      → Client Plugin Handle
      → Option Error × World
      → Result (Client Plugin Handle) × World
  dialled c (some e, w) = (err e, w)
  dialled c (none, w) = (ok (record c { tr = true; connected = true }), w)

  -- `NewUDPClient`; `unspecified` is its test of the local address, `dial` is newUDPTransport.
  unfoldable pub new_udp_client :
      {World : Type 0}
      → (World → Option Error × World)
      → FinsAddress
      → FinsAddress
      → Bool
      → World
      → Result (Client Plugin Handle) × World
  new_udp_client dial src dst unspecified w =
      dialled (record (fresh src dst) { dynamic_local = unspecified }) (dial w)

  -- `NewTCPClient`; `remote` says that there is a remote address, `dial` is newTCPTransport.
  unfoldable pub new_tcp_client :
      {World : Type 0}
      → (World → Option Error × World)
      → FinsAddress
      → FinsAddress
      → Bool
      → World
      → Result (Client Plugin Handle) × World
  new_tcp_client dial src dst remote w =
      if remote then dialled (fresh src dst) (dial w) else (err remote_address_missing, w)

  abbrev pub set_byte_order : ByteOrder → Client Plugin Handle → Client Plugin Handle
  set_byte_order order c = record c { byte_order = order }

  abbrev pub set_timeout_ms : ℕ → Client Plugin Handle → Client Plugin Handle
  set_timeout_ms t c = record c { response_timeout_ms = t }

  abbrev pub set_read_timeout : ℕ → Client Plugin Handle → Client Plugin Handle
  set_read_timeout t c = record c { read_timeout = t }

  abbrev pub enable_auto_reconnect : ℤ → ℕ → Client Plugin Handle → Client Plugin Handle
  enable_auto_reconnect max_retries initial_delay c = record c {
    auto_reconnect = true;
    max_reconnect = max_retries;
    reconnect_delay = initial_delay;
    use_reconnect_backoff = true;
  }

  abbrev pub disable_auto_reconnect : Client Plugin Handle → Client Plugin Handle
  disable_auto_reconnect c = record c { auto_reconnect = false }

  abbrev pub disable_reconnect_backoff : Client Plugin Handle → Client Plugin Handle
  disable_reconnect_backoff c = record c { use_reconnect_backoff = false }

  abbrev pub enable_reconnect_backoff : Client Plugin Handle → Client Plugin Handle
  enable_reconnect_backoff c = record c { use_reconnect_backoff = true }

  abbrev pub enable_dynamic_local_address : Client Plugin Handle → Client Plugin Handle
  enable_dynamic_local_address c = record c { dynamic_local = true }

  abbrev pub disable_dynamic_local_address : Client Plugin Handle → Client Plugin Handle
  disable_dynamic_local_address c = record c { dynamic_local = false }

  abbrev pub set_interceptor : Option Handle → Client Plugin Handle → Client Plugin Handle
  set_interceptor interceptor c = record c { interceptor = interceptor }

  abbrev pub set_channel : ℕ → Channel → Client Plugin Handle → Client Plugin Handle
  set_channel sid channel c = record c {
    resp = λ other. if sid == other then channel else c.resp other;
  }

  -- `incrementSid`: the next service id, with a new channel.
  unfoldable pub increment_sid : Client Plugin Handle → Client Plugin Handle
  increment_sid c =
      let sid = (c.sid + 1) % max_service_id_count in set_channel sid empty (record c { sid = sid })

  -- `nextHeader`, of the client after `increment_sid`.
  unfoldable pub next_header : Client Plugin Handle → Header
  next_header c = default_command_header c.src c.dst c.sid
