-- ===== src/Interceptor.antt =====
-- Interceptors: interceptor.go, and `invoke` of client.go and inline_client.go. An operation runs in
-- a world that it may change; the world, contexts and the clock are the caller's.
pub mod Chain
pub mod Retry
pub mod Validation
pub mod Guards
pub mod Operations
pub mod Metrics
pub mod Logging
use gofins.Base.{ℕ, Bool, Option, none, some, List, [], ◌∷◌, Result, Error}
use gofins.Server.{Time}

-- OperationType
pub data Operation : Type 0 where
  read_words read_bytes read_string read_bits read_clock : Operation
  write_words write_bytes write_string write_bits : Operation
  set_bit reset_bit toggle_bit : Operation

-- The values that an `interface{}` holds here.
pub data Value : Type 0 where
  nil_value : Value
  words bytes : List ℕ → Value
  bools : List Bool → Value
  text : List ℕ → Value
  time : Time → Value

-- InterceptorInfo; `payload` is the field Data.
pub record Info : Type 0 where
  pub operation : Operation
  pub memory_area : ℕ
  pub address : ℕ
  pub bit_offset : ℕ
  pub count : ℕ
  pub payload : Value

-- What the code uses of package context and package time. A context's error depends on the world.
pub record Env : Type 1 where
  pub World : Type 0
  pub Ctx : Type 0
  pub ctx_err : Ctx → World → Option Error
  pub sleep : ℕ → World → World
  pub now : World → ℕ

module _ (env : Env) where
  open env use {World, Ctx}

  -- A call: how it ended, and the world after it. The value beside an error is never looked at.
  abbrev pub Effect : Type 0 → Type 0
  Effect A = World → Result A × World

  -- Invoker
  abbrev pub Invoker : Type 0
  Invoker = Ctx → Effect Value

  -- InterceptorCtx
  pub record Call : Type 0 where
    pub ctx : Ctx
    pub info : Info
    pub invoker : Invoker

  -- Interceptor
  abbrev pub Interceptor : Type 0
  Interceptor = Call → Effect Value

  -- `Invoke`: without a context the stored one is used.
  abbrev pub invoke_with : Call → Option Ctx → Effect Value
  invoke_with c none = c.invoker c.ctx
  invoke_with c (some ctx) = c.invoker ctx

  -- `ChainInterceptors` on one interceptor and those behind it.
  unfoldable pub chain_from : Interceptor → List Interceptor → Interceptor
  chain_from i [] c = i c
  chain_from i (j ∷ rest) c = i (record {
    ctx = c.ctx;
    info = c.info;
    invoker = λ ctx. chain_from j rest (record { ctx = ctx; info = c.info; invoker = c.invoker });
  })

  -- `ChainInterceptors`; of none it is nil.
  unfoldable pub chain_interceptors : List Interceptor → Option Interceptor
  unfolding chain_from
  chain_interceptors [] = none
  chain_interceptors (i ∷ rest) = some (chain_from i rest)

  -- `invoke` of both clients
  unfoldable pub invoke : Option Interceptor → Ctx → Info → Invoker → Effect Value
  invoke none ctx info invoker = invoker ctx
  invoke (some i) ctx info invoker = i (record { ctx = ctx; info = info; invoker = invoker })
