-- ===== src/Interface/Real.antt =====
-- The Client of client.go as a FINSClient: the operations on the client that the world holds.
use gofins.Base.{Option, none, some, Result, ok, err, Error}
use gofins.Interceptor.{Env}
use gofins.Plugin
use gofins.Client.State
use gofins.Client.Exchange.{Net, after, manager, put_manager, is_connected}
use gofins.Client.Operations
use gofins.Client.Lifecycle.{change, close, shutdown}
use gofins.Interface.{
  ClientConfig, AutoReconnect, ClientHooks, ClientLifecycle, ClientReader, ClientWriter, FinsClient,
}

module _ (env : Env) (net : Net env) where
  open env use {World}
  open net use {values, client}

  abbrev pub of_error : Option Error × World → Result (Unit {0}) × World
  of_error (none, w) = (ok tt, w)
  of_error (some e, w) = (err e, w)

  abbrev pub client_config : ClientConfig World
  client_config = record {
    set_byte_order = λ order. change env net (State.set_byte_order order);
    set_timeout_ms = λ t. change env net (State.set_timeout_ms t);
    set_read_timeout = λ t. change env net (State.set_read_timeout t);
  }

  abbrev pub client_reconnection : AutoReconnect World
  client_reconnection = record {
    enable_auto_reconnect = λ n delay. change env net (State.enable_auto_reconnect n delay);
    disable_auto_reconnect = change env net State.disable_auto_reconnect;
    is_reconnecting = λ w. (client w).reconnecting;
    enable_dynamic_local_address = change env net State.enable_dynamic_local_address;
    disable_dynamic_local_address = change env net State.disable_dynamic_local_address;
  }

  abbrev pub client_hooks : ClientHooks World values.plugins.Plugin values.Handle
  client_hooks = record {
    set_interceptor = λ i. change env net (State.set_interceptor i);
    use_plugins =
        Plugin.use_plugins env values.plugins (manager env net) (put_manager env net)
          (is_connected env net);
  }

  -- `close_transport` is the transport's Close.
  abbrev pub client_lifecycle : (World → Option Error × World) → ClientLifecycle World
  client_lifecycle close_transport = record {
    is_closed = λ w. (client w).closed;
    close = λ w. of_error (close env net close_transport w);
    shutdown = λ w. of_error (shutdown env net close_transport w);
  }

  abbrev pub client_reader : ClientReader env
  client_reader = record {
    read_words = Operations.read_words env net;
    read_bytes = Operations.read_bytes env net;
    read_string = Operations.read_string env net;
    read_bits = Operations.read_bits env net;
    read_clock =
        λ ctx w. after env net (Operations.read_clock env net ctx w) λ t w'. (ok (some t), w');
  }

  abbrev pub client_writer : ClientWriter env
  client_writer = record {
    write_words = Operations.write_words env net;
    write_string = Operations.write_string env net;
    write_bytes = Operations.write_bytes env net;
    write_bits = Operations.write_bits env net;
    set_bit = Operations.set_bit env net;
    reset_bit = Operations.reset_bit env net;
    toggle_bit = Operations.toggle_bit env net;
  }

  abbrev pub real_client :
      (World → Option Error × World) → FinsClient env values.plugins.Plugin values.Handle
  real_client close_transport = record {
    config = client_config;
    reconnection = client_reconnection;
    hooks = client_hooks;
    lifecycle = client_lifecycle close_transport;
    reader = client_reader;
    writer = client_writer;
  }
