-- ===== src/Tests/Batches.antt =====
-- The coalescer at concrete inputs (plugin_coalescer.go): every word of the memory is its address,
-- and the world counts the reads.
use gofins.Base.{ℕ, ◌+◌, ◌≡◌, refl, arith, none, List, [], ◌∷◌, ◌++◌, Result, ok, All, true}
use gofins.Server.{Buffer, cells}
use gofins.Interceptor.{Env}
use gofins.Coalescer.{Coalescer, Event, arrives, timer, stop, run, step, collect, flush_batch}
use gofins.Coalescer.Answering.{IsRight, run-IsRight}

abbrev counting : Env
counting = record {
  World = ℕ;
  Ctx = Unit {0};
  ctx_err = λ _ _. none;
  sleep = λ _ w. w;
  now = λ w. w;
}

abbrev addresses : ℕ → Buffer
addresses _ i = i

abbrev read : ℕ → ℕ → ℕ → ℕ → Result (List ℕ) × ℕ
read area start n w = (ok (cells (addresses area) start n), w + 1)

abbrev coalescer : Coalescer
coalescer = record { window = 2000000; max_span = 8; max_batch = 0; use_interceptors = true }

abbrev reading : ℕ → ℕ → ℕ → Event (Unit {0})
reading area address count =
    arrives (record { ctx = tt; area = area; address = address; count = count })

-- Two neighbours, and a read of another area.
abbrev three_reads : List (Event (Unit {0}))
three_reads = reading 0x82 100 2 ∷ reading 0x82 104 3 ∷ reading 0xb1 100 1 ∷ []

run-IsRight_example :
    All
      (IsRight counting read coalescer addresses (λ area start n w. refl))
      (run counting read coalescer none (three_reads ++ (stop ∷ [])) 0).0
run-IsRight_example =
    run-IsRight counting read coalescer addresses (λ area start n w. refl) none
      (three_reads ++ (stop ∷ [])) 0 tt (omega arith, (omega arith, (omega arith, (tt, tt))))

-- The three requests take two reads.
two_reads : (run counting read coalescer none (three_reads ++ (timer ∷ [])) 0).1 ≡ 2
unfolding run step collect flush_batch
two_reads = refl
