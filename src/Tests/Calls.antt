-- ===== src/Tests/Calls.antt =====
-- Examples for the interceptors: the world is a clock, and an operation that fails before time 2.
use gofins.Base.{
  ℕ, ◌+◌, ◌≡◌, ◌↔◌, ◌⊎◌, ◌≤◌, ◌<◌, ◌-◌, arith, true, false, none, some, List, [], ◌∷◌, ◌++◌, ok,
  err, eof, ltb, if◌then◌else◌, pos,
}
use gofins.Interceptor.{Env, Info, Call, Invoker, nil_value, words, read_words, write_words}
use gofins.Interceptor.Chain.{run_chain, run_chain-append}
use gofins.Interceptor.Retry.{retry_loop, Succeeds, retry_loop_ok_iff, retry_interceptor}
use gofins.Interceptor.Validation.{check_range, validation_interceptor}
use gofins.Interceptor.Guards.{check_range_passes_iff}
use gofins.Interceptor.Metrics.{get_stats, get_all_stats, collected, Event, get_stats_replay}

abbrev clock_env : Env
clock_env = record {
  World = ℕ;
  Ctx = Unit {0};
  ctx_err = λ _ w. none;
  sleep = λ d w. w + d;
  now = λ w. w;
}

abbrev early : Invoker clock_env
early ctx w = if ltb w 2 then (err eof, w + 1) else (ok nil_value, w + 1)

abbrev always : Invoker clock_env
always ctx w = (err eof, w + 1)

abbrev two : List ℕ
two = 1 ∷ 2 ∷ []

abbrev info : Info
info = record {
  operation = write_words;
  memory_area = 0x82;
  address = 10;
  bit_offset = 0;
  count = 5;
  payload = words two;
}

abbrev call : Invoker clock_env → Call clock_env
call k = record { ctx = tt; info = info; invoker = k }

retry_loop_ok_iff_example :
    (retry_loop clock_env (λ _. true) (λ d. d) (call early) 3 1 none 0 ≡ (ok nil_value, 3))
    ↔ Succeeds clock_env (λ _. true) (λ d. d) (call early) 3 1 0 nil_value 3
retry_loop_ok_iff_example =
    retry_loop_ok_iff clock_env (λ _. true) (λ d. d) (call early) 3 1 none 0 3 nil_value

run_chain-append_example :
    run_chain clock_env
      ((validation_interceptor clock_env ∷ []) ++ (retry_interceptor clock_env (pos 2) 1 ∷ []))
      tt
      info
      early
    ≡ run_chain clock_env
        (validation_interceptor clock_env ∷ [])
        tt
        info
        (λ inner. run_chain clock_env (retry_interceptor clock_env (pos 2) 1 ∷ []) inner info early)
run_chain-append_example =
    run_chain-append clock_env (validation_interceptor clock_env ∷ [])
      (retry_interceptor clock_env (pos 2) 1 ∷ []) tt info early

-- Five words from address 10 on, where 0 to 12 are allowed.
check_range_passes_iff_example :
    (check_range (some (0, 12)) info ≡ ok tt)
    ↔ ((0 ≤ 10) × (10 ≤ 12) × ((10 + 5 - 1 ≤ 12) ⊎ (65536 < 10 + 5)))
check_range_passes_iff_example =
    check_range_passes_iff 0 12 info (omega arith) (omega arith) (omega arith)

abbrev events : List Event
events =
    record { operation = write_words; duration = 4; failed = false }
    ∷ record { operation = read_words; duration = 9; failed = false }
    ∷ record { operation = write_words; duration = 6; failed = true }
    ∷ []

get_stats_replay_example :
    (get_stats (collected events) write_words ≡ (2, 1, 5))
    × (get_all_stats (collected events) write_words
        ≡ some (get_stats (collected events) write_words))
get_stats_replay_example = get_stats_replay write_words events
