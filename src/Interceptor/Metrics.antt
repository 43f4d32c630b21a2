-- ===== src/Interceptor/Metrics.antt =====
-- MetricsCollector of interceptor_metrics.go. Its maps are functions that are zero where the map
-- has no entry, and the operations that have one; counts and durations do not reach 2 ^ 63.
use gofins.Base.{
  ℕ, ◌+◌, ◌-◌, ◌/◌, Bool, true, false, ◌||◌, Option, none, some, Result, ok, err, panic, ltb,
  if◌then◌else◌, arith, ◌≡◌, refl, List, [], ◌∷◌, foldl, ◌∙◌,
}
use gofins.Interceptor.{Env, Operation, Value, Interceptor}
use gofins.Interceptor.Operations.{same}

pub record MetricsCollector : Type 0 where
  pub recorded : Operation → Bool
  pub operation_count : Operation → ℕ
  pub error_count : Operation → ℕ
  pub total_duration : Operation → ℕ

unfoldable pub new_metrics_collector : MetricsCollector
new_metrics_collector = record {
  recorded = λ _. false;
  operation_count = λ _. 0;
  error_count = λ _. 0;
  total_duration = λ _. 0;
}

abbrev pub add_at : Operation → ℕ → (Operation → ℕ) → Operation → ℕ
add_at op n f other = if same op other then f other + n else f other

-- The locked part of the interceptor: one finished operation is recorded.
unfoldable pub record_call : MetricsCollector → Operation → ℕ → Bool → MetricsCollector
record_call m op duration failed = record {
  recorded = λ other. same op other || m.recorded other;
  operation_count = add_at op 1 m.operation_count;
  error_count = if failed then add_at op 1 m.error_count else m.error_count;
  total_duration = add_at op duration m.total_duration;
}

-- GetStats: count, errors, average duration.
unfoldable pub get_stats : MetricsCollector → Operation → ℕ × ℕ × ℕ
get_stats m op =
    let count = m.operation_count op in
    (count, m.error_count op, (if ltb 0 count then m.total_duration op / count else 0))

-- GetAllStats: a map with an entry for each recorded operation.
unfoldable pub get_all_stats : MetricsCollector → Operation → Option (ℕ × ℕ × ℕ)
get_all_stats m op =
    if m.recorded op
    then some (
      m.operation_count op,
      m.error_count op,
      (if ltb 0 (m.operation_count op) then m.total_duration op / m.operation_count op else 0),
    )
    else none

unfoldable pub reset : MetricsCollector → MetricsCollector
unfolding new_metrics_collector
reset m = new_metrics_collector

abbrev pub has_failed : Result Value → Bool
has_failed (err e) = true
has_failed _ = false

-- The collector is an object of the world that its interceptor reads and replaces.
module _ (env : Env) (collector : env.World → MetricsCollector)
    (put_collector : MetricsCollector → env.World → env.World) where
  open env use {World, now}

  -- A panic of the operation passes through, unrecorded.
  abbrev pub finish : Operation → ℕ → Result Value × World → Result Value × World
  finish op start (panic, w) = (panic, w)
  finish op start (ok value, w) =
      (ok value, put_collector (record_call (collector w) op (now w - start) false) w)
  finish op start (err e, w) =
      (err e, put_collector (record_call (collector w) op (now w - start) true) w)

  -- `Interceptor` of the collector.
  unfoldable pub metrics_interceptor : Interceptor env
  metrics_interceptor c w = finish c.info.operation (now w) (c.invoker c.ctx w)

-- One finished operation.
pub record Event : Type 0 where
  pub operation : Operation
  pub duration : ℕ
  pub failed : Bool

abbrev pub replay : MetricsCollector → List Event → MetricsCollector
replay m events = foldl (λ m e. record_call m e.operation e.duration e.failed) m events

-- What a log of the finished operations says of `op`.
abbrev pub calls : Operation → List Event → ℕ
calls op [] = 0
calls op (e ∷ events) = (if same e.operation op then 1 else 0) + calls op events

abbrev pub failures : Operation → List Event → ℕ
failures op [] = 0
failures op (e ∷ events) =
    (if e.failed then (if same e.operation op then 1 else 0) else 0) + failures op events

abbrev pub total : Operation → List Event → ℕ
total op [] = 0
total op (e ∷ events) = (if same e.operation op then e.duration else 0) + total op events

replay_counts :
    (op : Operation) (events : List Event) (m : MetricsCollector)
    → ((replay m events).operation_count op ≡ m.operation_count op + calls op events)
      × ((replay m events).error_count op ≡ m.error_count op + failures op events)
      × ((replay m events).total_duration op ≡ m.total_duration op + total op events)
unfolding record_call
replay_counts op [] m = (omega arith, omega arith, omega arith)
replay_counts op (e ∷ events) m =
    let (a, b, c) = replay_counts op events (record_call m e.operation e.duration e.failed) in
    (ground arith, ground arith, ground arith)

replay_recorded :
    (op : Operation) (events : List Event) (m : MetricsCollector)
    → (replay m events).recorded op ≡ (m.recorded op || ltb 0 (calls op events))
unfolding record_call
replay_recorded op [] m = ground arith
replay_recorded op (e ∷ events) m =
    let ih = replay_recorded op events (record_call m e.operation e.duration e.failed) in
    ih ∙ ground arith

-- The collector after a log of operations.
abbrev pub collected : List Event → MetricsCollector
collected events = replay new_metrics_collector events

-- After any sequence of finished operations the collector's statistics of an operation are those
-- of the log: the number of calls, the number of failed calls, and the average duration, zero if
-- there was no call; GetAllStats has the same for the operations that were called, and no others.
pub get_stats_replay :
    (op : Operation) (events : List Event)
    → (get_stats (collected events) op ≡ (
      calls op events,
      failures op events,
      (if ltb 0 (calls op events) then total op events / calls op events else 0),
    ))
      × (get_all_stats (collected events) op
          ≡ (if ltb 0 (calls op events) then some (get_stats (collected events) op) else none))
unfolding get_stats get_all_stats new_metrics_collector
get_stats_replay op events =
    let (a, b, c) = replay_counts op events new_metrics_collector in
    let a' : (collected events).operation_count op ≡ calls op events = omega arith in
    let b' : (collected events).error_count op ≡ failures op events = omega arith in
    let c' : (collected events).total_duration op ≡ total op events = omega arith in
    (rw (a', b', c') refl, rw (replay_recorded op events new_metrics_collector, get_stats) refl)
