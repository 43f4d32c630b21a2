-- ===== src/Coalescer.antt =====
-- BulkReadCoalescer of plugin_coalescer.go: which reads it takes, how it collects them into
-- batches, and how it answers them from one read. The combined read, by the client under the
-- earliest deadline, is a parameter; the goroutine's `select` appears as a sequence of events.
pub mod Segments
pub mod Answering
pub mod Completeness
use gofins.Base.{
  ℕ, zero, suc, ◌+◌, ◌-◌, ◌*◌, ◌%◌, ◌^◌, Bool, true, false, ◌&&◌, ◌||◌, not, Option, none, some,
  List, [], ◌∷◌, ◌++◌, map, Result, ok, err, panic, Error, response_too_short, ℤ, pos, negsuc,
  length, take, drop, ltb, leb, ◌==◌, if◌then◌else◌,
}
use gofins.Server.{u16}
use gofins.Interceptor.{Env, Operation, Info, read_words}
use gofins.Interceptor.Operations.{same}

-- BulkReadCoalescer, its settings. The window is in nanoseconds.
pub record Coalescer : Type 0 where
  pub window : ℕ
  pub max_span : ℕ
  pub max_batch : ℕ
  pub use_interceptors : Bool

abbrev pub window_or_default : ℤ → ℕ
window_or_default (pos zero) = 2000000
window_or_default (pos (suc n)) = suc n
window_or_default (negsuc n) = 2000000

unfoldable pub new_bulk_read_coalescer : ℤ → ℕ → Coalescer
new_bulk_read_coalescer window max_span = record {
  window = window_or_default window;
  max_span = if max_span == 0 then 32 else max_span;
  max_batch = 0;
  use_interceptors = true;
}

abbrev pub with_interceptors : Bool → Coalescer → Coalescer
with_interceptors enabled b = record b { use_interceptors = enabled }

abbrev pub with_max_batch_size : ℤ → Coalescer → Coalescer
with_max_batch_size (pos n) b = record b { max_batch = n }
with_max_batch_size (negsuc n) b = record b { max_batch = 0 }

-- The interceptor's test for what it does not collect; `skipped` says that the context carries the
-- coalescer's key, `has_client` that it was initialized.
unfoldable pub bypasses : Coalescer → Info → Bool → Bool → Bool
bypasses b info skipped has_client =
    not (same info.operation read_words)
    || (info.count == 0 || (ltb b.max_span info.count || (skipped || not has_client)))

-- `min` and `max` of the file.
abbrev pub smaller : ℕ → ℕ → ℕ
smaller a b = if ltb a b then a else b

abbrev pub larger : ℕ → ℕ → ℕ
larger a b = if ltb b a then a else b

-- `a - b` of two uint16, and of two uint16 as uint32.
abbrev pub u16_sub : ℕ → ℕ → ℕ
u16_sub a b = u16 (a + 65536 - b)

abbrev pub u32_sub : ℕ → ℕ → ℕ
u32_sub a b = (a + 2 ^ 32 - b) % 2 ^ 32

-- bulkReadRequest
pub record Request (Ctx : Type 0) : Type 0 where
  pub ctx : Ctx
  pub area : ℕ
  pub address : ℕ
  pub count : ℕ

-- The batch of processBatch, its first request apart, and its bounds.
pub record Batch (Ctx : Type 0) : Type 0 where
  pub first : Request Ctx
  pub others : List (Request Ctx)
  pub min_addr : ℕ
  pub max_end : ℕ

-- What the goroutine's `select` takes.
pub data Event (Ctx : Type 0) : Type 0 where
  arrives : Request Ctx → Event Ctx
  timer stop : Event Ctx

module _ (env : Env) (read : ℕ → ℕ → ℕ → env.World → Result (List ℕ) × env.World)
    (b : Coalescer) where
  open env use {World, Ctx, ctx_err}

  -- What a request's channel gets.
  abbrev pub Answer : Type 0
  Answer = Request Ctx × Result (List ℕ)

  -- The requests of a batch that are not cancelled, and the answers to those that are.
  abbrev pub active : World → List (Request Ctx) → List (Request Ctx)
  active w [] = []
  active w (req ∷ rest) = elim (ctx_err req.ctx w) [
    | some _ ↦ active w rest
    | none ↦ req ∷ active w rest
  ]

  abbrev pub cancellations : World → List (Request Ctx) → List Answer
  cancellations w [] = []
  cancellations w (req ∷ rest) = elim (ctx_err req.ctx w) [
    | some e ↦ (req, err e) ∷ cancellations w rest
    | none ↦ cancellations w rest
  ]

  -- The answer to one request, from the words that were read from `min_addr` on.
  abbrev pub answer : ℕ → Result (List ℕ) → Request Ctx → Answer
  answer min_addr panic req = (req, panic)
  answer min_addr (err e) req = (req, err e)
  answer min_addr (ok words) req =
      let start = u16_sub req.address min_addr in
      if ltb (length words) (start + req.count)
      then (req, err response_too_short)
      else (req, ok (take req.count (drop start words)))

  abbrev pub answered : ℕ → List (Request Ctx) → Result (List ℕ) × World → List Answer × World
  answered min_addr requests (r, w) = (map (answer min_addr r) requests, w)

  abbrev pub flush_active : ℕ → ℕ → List (Request Ctx) → World → List Answer × World
  flush_active min_addr max_end [] w = ([], w)
  flush_active min_addr max_end (req ∷ rest) w =
      answered min_addr (req ∷ rest) (read req.area min_addr (u16_sub max_end min_addr) w)

  -- `flushBatch`
  unfoldable pub flush_batch : List (Request Ctx) → ℕ → ℕ → World → List Answer × World
  flush_batch batch min_addr max_end w =
      let (answers, w') = flush_active min_addr max_end (active w batch) w in
      (cancellations w batch ++ answers, w')

  abbrev pub requests : Batch Ctx → List (Request Ctx)
  requests batch = batch.first ∷ batch.others

  abbrev pub flush : Batch Ctx → World → List Answer × World
  flush batch = flush_batch (requests batch) batch.min_addr batch.max_end

  -- The batch of one request.
  abbrev pub start_batch : Request Ctx → Batch Ctx
  start_batch req = record {
    first = req;
    others = [];
    min_addr = req.address;
    max_end = u16 (req.address + req.count);
  }

  abbrev pub extend : Batch Ctx → Request Ctx → Batch Ctx
  extend batch req = record {
    first = batch.first;
    others = batch.others ++ (req ∷ []);
    min_addr = smaller batch.min_addr req.address;
    max_end = larger batch.max_end (u16 (req.address + req.count));
  }

  abbrev pub combined_span : Batch Ctx → ℕ
  combined_span batch = u32_sub batch.max_end batch.min_addr

  -- A step's answers, and the batch that is collected next: none after a return.
  abbrev pub Step : Type 0
  Step = List Answer × Option (Batch Ctx) × World

  abbrev pub then_batch : Option (Batch Ctx) → List Answer × World → Step
  then_batch next (answers, w) = (answers, next, w)

  -- processBatch on a request that is not cancelled.
  unfoldable pub collect : Batch Ctx → Request Ctx → World → Step
  unfolding flush_batch
  collect batch req w =
      let grown = extend batch req in
      let fresh = then_batch (some (start_batch req)) (flush batch w) in
      if ltb 0 b.max_batch && leb b.max_batch (length (requests batch))
      then fresh
      else if req.area == batch.first.area && leb (combined_span grown) b.max_span
      then (if leb b.max_span (u16 (combined_span grown))
          then then_batch none (flush grown w)
          else ([], some grown, w))
      else fresh

  -- The goroutine on one event, while it collects a batch or waits for one.
  unfoldable pub step : Option (Batch Ctx) → Event Ctx → World → Step
  unfolding collect flush_batch
  step none (arrives req) w = ([], some (start_batch req), w)
  step none timer w = ([], none, w)
  step none stop w = ([], none, w)
  step (some batch) timer w = then_batch none (flush batch w)
  step (some batch) stop w = ([], none, w)
  step (some batch) (arrives req) w = elim (ctx_err req.ctx w) [
    | some e ↦ ((req, err e) ∷ [], some batch, w)
    | none ↦ collect batch req w
  ]

  abbrev pub is_stop : Event Ctx → Bool
  is_stop stop = true
  is_stop _ = false

  -- `run`, up to the end of the events, or to the stop.
  unfoldable pub run : Option (Batch Ctx) → List (Event Ctx) → World → List Answer × World
  unfolding step
  run state [] w = ([], w)
  run state (event ∷ events) w =
      let (answers, next, w1) = step state event w in
      let (more, w2) = run next events w1 in
      if is_stop event then (answers, w1) else (answers ++ more, w2)
