-- ===== src/Coalescer/Completeness.antt =====
-- The coalescer leaves no request without an answer (plugin_coalescer.go).
use gofins.Base.{ℕ, suc, ◌+◌, false, Option, none, some, List, [], ◌∷◌, Result, length, ◌≡◌}
use gofins.Interceptor.{Env}
use gofins.Coalescer.{Coalescer, Batch, Event, arrives, timer, stop, requests, is_stop, Step}

module _ (env : Env) (read : ℕ → ℕ → ℕ → env.World → Result (List ℕ) × env.World)
    (b : Coalescer) where
  open env use {World, Ctx, ctx_err}

  -- The requests that are collected and not answered yet.
  abbrev pub pending : Option (Batch Ctx) → ℕ
  pending none = 0
  pending (some batch) = length (requests env read b batch)

  -- The requests among events.
  abbrev pub arrivals : List (Event Ctx) → ℕ
  arrivals [] = 0
  arrivals (arrives req ∷ events) = suc (arrivals events)
  arrivals (timer ∷ events) = arrivals events
  arrivals (stop ∷ events) = arrivals events

  abbrev pub NoStop : List (Event Ctx) → Type 0
  NoStop [] = Unit
  NoStop (event ∷ events) = (is_stop env read b event ≡ false) × NoStop events

  -- A step accounts for `n` requests.
  abbrev Accounts : ℕ → Step env read b → Type 0
  Accounts n s = length s.0 + pending s.1 ≡ n
