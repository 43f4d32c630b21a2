-- ===== src/Interface/Nop.antt =====
-- The NopClient of nop_client.go: every method returns zero values and changes nothing.
use gofins.Base.{false, none, [], ok}
use gofins.Interceptor.{Env}
use gofins.Interface.{
  ClientConfig, AutoReconnect, ClientHooks, ClientLifecycle, ClientReader, ClientWriter, FinsClient,
}

module _ (World : Type 0) where
  abbrev pub nop_config : ClientConfig World
  nop_config = record {
    set_byte_order = λ _ w. w;
    set_timeout_ms = λ _ w. w;
    set_read_timeout = λ _ w. w;
  }

  abbrev pub nop_reconnect : AutoReconnect World
  nop_reconnect = record {
    enable_auto_reconnect = λ _ _ w. w;
    disable_auto_reconnect = λ w. w;
    is_reconnecting = λ _. false;
    enable_dynamic_local_address = λ w. w;
    disable_dynamic_local_address = λ w. w;
  }

  abbrev pub nop_hooks : (Plugin Handle : Type 0) → ClientHooks World Plugin Handle
  nop_hooks Plugin Handle = record { set_interceptor = λ _ w. w; use_plugins = λ _ w. (ok tt, w) }

  abbrev pub nop_lifecycle : ClientLifecycle World
  nop_lifecycle = record {
    is_closed = λ _. false;
    close = λ w. (ok tt, w);
    shutdown = λ w. (ok tt, w);
  }

module _ (env : Env) where
  abbrev pub nop_reader : ClientReader env
  nop_reader = record {
    read_words = λ _ _ _ _ w. (ok [], w);
    read_bytes = λ _ _ _ _ w. (ok [], w);
    read_string = λ _ _ _ _ w. (ok [], w);
    read_bits = λ _ _ _ _ _ w. (ok [], w);
    read_clock = λ _ w. (ok none, w);
  }

  abbrev pub nop_writer : ClientWriter env
  nop_writer = record {
    write_words = λ _ _ _ _ w. (ok tt, w);
    write_string = λ _ _ _ _ w. (ok tt, w);
    write_bytes = λ _ _ _ _ w. (ok tt, w);
    write_bits = λ _ _ _ _ _ w. (ok tt, w);
    set_bit = λ _ _ _ _ w. (ok tt, w);
    reset_bit = λ _ _ _ _ w. (ok tt, w);
    toggle_bit = λ _ _ _ _ w. (ok tt, w);
  }

  abbrev pub nop_client : (Plugin Handle : Type 0) → FinsClient env Plugin Handle
  nop_client Plugin Handle = record {
    config = nop_config env.World;
    reconnection = nop_reconnect env.World;
    hooks = nop_hooks env.World Plugin Handle;
    lifecycle = nop_lifecycle env.World;
    reader = nop_reader;
    writer = nop_writer;
  }
