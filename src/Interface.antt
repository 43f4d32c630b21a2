-- ===== src/Interface.antt =====
-- The interfaces of client_interface.go, as records of operations on a world: ClientConfig,
-- AutoReconnect, ClientHooks, ClientLifecycle, ClientReader, ClientWriter and FINSClient. The
-- children fill them: Interface/Nop by the NopClient, Interface/Real by the Client.
pub mod Nop
pub mod Real
use gofins.Base.{ℕ, Bool, Option, List, Result, ByteOrder, ℤ}
use gofins.Server.{Time}
use gofins.Interceptor.{Env, Effect}

-- The setters of a client: each replaces a part of the world.
pub record ClientConfig (World : Type 0) : Type 0 where
  pub set_byte_order : ByteOrder → World → World
  pub set_timeout_ms : ℕ → World → World
  pub set_read_timeout : ℕ → World → World

pub record AutoReconnect (World : Type 0) : Type 0 where
  pub enable_auto_reconnect : ℤ → ℕ → World → World
  pub disable_auto_reconnect : World → World
  pub is_reconnecting : World → Bool
  pub enable_dynamic_local_address : World → World
  pub disable_dynamic_local_address : World → World

-- `Plugin` and `Handle` are the values of the types Plugin and Interceptor.
pub record ClientHooks (World Plugin Handle : Type 0) : Type 0 where
  pub set_interceptor : Option Handle → World → World
  pub use_plugins : List (Option Plugin) → World → Result (Unit {0}) × World

pub record ClientLifecycle (World : Type 0) : Type 0 where
  pub is_closed : World → Bool
  pub close : World → Result (Unit {0}) × World
  pub shutdown : World → Result (Unit {0}) × World

module _ (env : Env) where
  open env use {World, Ctx}

  pub record ClientReader : Type 0 where
    pub read_words : Ctx → ℕ → ℕ → ℕ → Effect env (List ℕ)
    pub read_bytes : Ctx → ℕ → ℕ → ℕ → Effect env (List ℕ)
    pub read_string : Ctx → ℕ → ℕ → ℕ → Effect env (List ℕ)
    pub read_bits : Ctx → ℕ → ℕ → ℕ → ℕ → Effect env (List Bool)
    -- A pointer, which may be nil.
    pub read_clock : Ctx → Effect env (Option Time)

  pub record ClientWriter : Type 0 where
    pub write_words : Ctx → ℕ → ℕ → List ℕ → Effect env (Unit {0})
    pub write_string : Ctx → ℕ → ℕ → List ℕ → Effect env (Unit {0})
    pub write_bytes : Ctx → ℕ → ℕ → List ℕ → Effect env (Unit {0})
    pub write_bits : Ctx → ℕ → ℕ → ℕ → List Bool → Effect env (Unit {0})
    pub set_bit : Ctx → ℕ → ℕ → ℕ → Effect env (Unit {0})
    pub reset_bit : Ctx → ℕ → ℕ → ℕ → Effect env (Unit {0})
    pub toggle_bit : Ctx → ℕ → ℕ → ℕ → Effect env (Unit {0})

  -- FINSClient
  pub record FinsClient (Plugin Handle : Type 0) : Type 0 where
    pub config : ClientConfig World
    pub reconnection : AutoReconnect World
    pub hooks : ClientHooks World Plugin Handle
    pub lifecycle : ClientLifecycle World
    pub reader : ClientReader
    pub writer : ClientWriter
