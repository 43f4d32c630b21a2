-- ===== src/Interceptor/Logging.antt =====
-- The interceptors of interceptor_logging.go and interceptor_tracing.go. A logger is what it does
-- with an entry; the text of an entry is zap's and log's.
use gofins.Base.{ℕ, ◌-◌, ◌≡◌, refl, Option, none, some, Result, ok, err, panic, Error}
use gofins.Interceptor.{Env, Operation, Info, Value, Call, Interceptor, invoke_with}

-- The entries of the logging interceptor, and a line of the tracing ones, with the area or without.
pub data Entry (TraceId : Type 0) : Type 0 where
  starting : Operation → ℕ → ℕ → Entry TraceId
  failed : Operation → ℕ → Error → Entry TraceId
  completed : Operation → ℕ → Entry TraceId
  traced : TraceId → Operation → Option ℕ → ℕ → Entry TraceId

module _ (env : Env) (TraceId : Type 0) where
  open env use {World, Ctx, now}

  abbrev pub Logger : Type 0
  Logger = Entry TraceId → World → World

  -- `zap.NewNop()` in the place of a nil logger.
  abbrev pub or_nop : Option Logger → Logger
  or_nop none = λ _ w. w
  or_nop (some logger) = logger

  -- The end of the operation; a panic passes by.
  abbrev pub log_end : Logger → Operation → ℕ → Result Value × World → Result Value × World
  log_end log op start (ok v, w) = (ok v, log (completed op (now w - start)) w)
  log_end log op start (err e, w) = (err e, log (failed op (now w - start) e) w)
  log_end log op start (panic, w) = (panic, w)

  -- `LoggingInterceptor`
  unfoldable pub logging_interceptor : Option Logger → Interceptor env
  logging_interceptor logger c w =
      let log = or_nop logger in
      log_end log c.info.operation (now w) (
        invoke_with env c none
          (log (starting c.info.operation c.info.memory_area c.info.address) w))

  -- `trace_id` is `ctx.Value(traceIDKey)`.
  abbrev pub log_trace : Logger → (Info → Option ℕ) → Info → Option TraceId → World → World
  log_trace log area info none w = w
  log_trace log area info (some id) w = log (traced id info.operation (area info) info.address) w

  -- `TracingInterceptor`, by the standard logger.
  unfoldable pub tracing_interceptor : (Ctx → Option TraceId) → Logger → Interceptor env
  tracing_interceptor trace_id default_log c w =
      invoke_with env c none (log_trace default_log (λ _. none) c.info (trace_id c.ctx) w)

  -- `log.Default()` in the place of a nil logger.
  abbrev pub or_default : Logger → Option Logger → Logger
  or_default default_log none = default_log
  or_default default_log (some logger) = logger

  -- `TracingInterceptorWithLogger`
  unfoldable pub tracing_interceptor_with_logger :
      (Ctx → Option TraceId) → Logger → Option Logger → Interceptor env
  tracing_interceptor_with_logger trace_id default_log logger c w = invoke_with env c none (
      log_trace (or_default default_log logger) (λ info. some info.memory_area) c.info
        (trace_id c.ctx) w)

  log_end_result :
      (log : Logger) (op : Operation) (start : ℕ) (r : Result Value × World)
      → (log_end log op start r).0 ≡ r.0
  log_end_result log op start (ok v, w) = refl
  log_end_result log op start (err e, w) = refl
  log_end_result log op start (panic, w) = refl

  -- A logged operation ends as it does in the world that the first entry left, and a traced one is
  -- the operation in the world that the trace left: neither changes a result, an error or a panic.
  logging_result :
      (logger : Option Logger) (trace_id : Ctx → Option TraceId) (log : Logger) (c : Call env)
      (w : World)
      → ((logging_interceptor logger c w).0
          ≡ (c.invoker c.ctx
              (or_nop logger (starting c.info.operation c.info.memory_area c.info.address) w)).0)
        × (tracing_interceptor trace_id log c w
            ≡ c.invoker c.ctx (log_trace log (λ _. none) c.info (trace_id c.ctx) w))
        × (tracing_interceptor_with_logger trace_id log logger c w
            ≡ c.invoker c.ctx (
                log_trace
                  (or_default log logger)
                  (λ info. some info.memory_area)
                  c.info
                  (trace_id c.ctx)
                  w))
  unfolding logging_interceptor tracing_interceptor tracing_interceptor_with_logger
  logging_result logger trace_id log c w =
      (log_end_result (or_nop logger) c.info.operation (now w) _, refl, refl)
