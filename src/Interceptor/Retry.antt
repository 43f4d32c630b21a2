-- ===== src/Interceptor/Retry.antt =====
-- The three retry interceptors of interceptor_retry.go. Delays are nanoseconds below 2 ^ 62, so
-- that doubling them does not overflow an int64; the log lines are left out.
use gofins.Base.{
  ℕ, zero, suc, ◌*◌, ◌<◌, Bool, true, false, Option, none, some, Result, ok, err, panic, Error,
  retries_failed, retries_never_ran, ℤ, pos, negsuc, ltb, lt→ltb, arith, refl, sym, ◌∙◌, ap,
  Bool-cases, Option-cases, inl, inr, ◌≡◌, ◌↔◌, if◌then◌else◌,
}
use gofins.Interceptor.{Env, Value, Call, Interceptor, Effect}

-- How often `for attempt := 0; attempt <= maxRetries; attempt++` runs its body.
abbrev pub attempts : ℤ → ℕ
attempts (pos n) = suc n
attempts (negsuc n) = 0

module _ (env : Env) where
  open env use {World, Ctx, ctx_err, sleep}

  -- `if err == nil { return result, nil }`, and what follows it.
  abbrev pub on_error : Result Value × World → (Error → Effect env Value) → Result Value × World
  on_error (ok value, w) rest = (ok value, w)
  on_error (panic, w) rest = (panic, w)
  on_error (err e, w) rest = rest e w

  -- The loop: `left` attempts are left, `last` is the error of the attempt before. The errors
  -- that are retried and the change of the delay differ between the three interceptors.
  unfoldable pub retry_loop :
      (Error → Bool) → (ℕ → ℕ) → Call env → ℕ → ℕ → Option Error → Effect env Value
  retry_loop should_retry next_delay c zero delay none w = (err retries_never_ran, w)
  retry_loop should_retry next_delay c zero delay (some e) w = (err (retries_failed e), w)
  retry_loop should_retry next_delay c (suc left) delay last w =
      on_error (c.invoker c.ctx w) λ e w1. elim (ctx_err c.ctx w1) [
        | some _ ↦ (err e, w1)
        | none ↦ elim (should_retry e) [
          | false ↦ (err e, w1)
          | true ↦ elim (ltb 0 left) [
            | true ↦
                retry_loop should_retry next_delay c left (next_delay delay) (some e)
                  (sleep delay w1)
            | false ↦ retry_loop should_retry next_delay c left delay (some e) w1
          ]
        ]
      ]

  unfoldable pub retry_interceptor : ℤ → ℕ → Interceptor env
  unfolding retry_loop
  retry_interceptor max_retries delay c =
      retry_loop (λ _. true) (λ d. d) c (attempts max_retries) delay none

  unfoldable pub retry_interceptor_with_backoff : ℤ → ℕ → ℕ → Interceptor env
  unfolding retry_loop
  retry_interceptor_with_backoff max_retries initial_delay max_delay c =
      retry_loop (λ _. true) (λ d. if ltb max_delay (d * 2) then max_delay else d * 2) c
        (attempts max_retries) initial_delay none

  unfoldable pub retry_interceptor_conditional : ℤ → ℕ → (Error → Bool) → Interceptor env
  unfolding retry_loop
  retry_interceptor_conditional max_retries delay should_retry c =
      retry_loop should_retry (λ d. d) c (attempts max_retries) delay none

module _ (env : Env) (should_retry : Error → Bool) (next_delay : ℕ → ℕ) (c : Call env) where
  open env use {World, Ctx, ctx_err, sleep}

  -- `n` attempts in a row fail with an error that is retried, while the context is live, and each
  -- is followed by a sleep; the first begins in `w`, and after the last sleep the world is `w'`.
  abbrev pub Fails : ℕ → ℕ → World → World → Type 0
  Fails zero delay w w' = w ≡ w'
  Fails (suc n) delay w w' =
      (e : Error) × (w1 : World) × (c.invoker c.ctx w ≡ (err e, w1))
      × (ctx_err c.ctx w1 ≡ none)
      × (should_retry e ≡ true)
      × Fails n (next_delay delay) (sleep delay w1) w'

  -- A success after `n` failed attempts, within the attempts that are left.
  abbrev pub Succeeds : ℕ → ℕ → World → Value → World → Type 0
  Succeeds left delay w value w' =
      (n : ℕ) × (n < left)
      × (wn : World) × Fails n delay w wn
      × (c.invoker c.ctx wn ≡ (ok value, w'))

  err_ne_ok :
      {e : Error} {value : Value} {w w' : World}
      → ¬ Path (Result Value × World) (err e, w) (ok value, w')
  err_ne_ok p = cc

  panic_ne_ok :
      {value : Value} {w w' : World} → ¬ Path (Result Value × World) (panic, w) (ok value, w')
  panic_ne_ok p = cc

  -- A successful attempt ends the loop.
  attempt_ok :
      (left delay : ℕ) (last : Option Error) (w : World) {value : Value} {w' : World}
      → c.invoker c.ctx w ≡ (ok value, w')
      → retry_loop env should_retry next_delay c (suc left) delay last w ≡ (ok value, w')
  unfolding retry_loop
  attempt_ok left delay last w s = rw (retry_loop, s)

  -- A failed attempt that is retried goes on with the next.
  attempt_err :
      (left delay : ℕ) (last : Option Error) (w w1 : World) {e : Error}
      → c.invoker c.ctx w ≡ (err e, w1)
      → ctx_err c.ctx w1 ≡ none
      → should_retry e ≡ true
      → retry_loop env should_retry next_delay c (suc (suc left)) delay last w
        ≡ retry_loop env should_retry next_delay c
            (suc left)
            (next_delay delay)
            (some e)
            (sleep delay w1)
  unfolding retry_loop
  attempt_err left delay last w w1 s live again =
      rw (retry_loop, s, on_error, live, again, lt→ltb 0 (suc left) (omega arith)) refl

  retry_succeeds :
      (n left delay : ℕ) (last : Option Error) (w wn : World) {value : Value} {w' : World}
      → n < left
      → Fails n delay w wn
      → c.invoker c.ctx wn ≡ (ok value, w')
      → retry_loop env should_retry next_delay c left delay last w ≡ (ok value, w')
  retry_succeeds n zero delay last w wn h f s = absurd (omega arith)
  retry_succeeds zero (suc left) delay last w wn h f s =
      attempt_ok left delay last w (ap (c.invoker c.ctx) f ∙ s)
  retry_succeeds (suc n) (suc zero) delay last w wn h f s = absurd (omega arith)
  retry_succeeds (suc n) (suc (suc left)) delay last w wn h (e, w1, failed, live, again, f) s =
      attempt_err left delay last w w1 failed live again
      ∙ retry_succeeds n (suc left) (next_delay delay) (some e) (sleep delay w1) wn (omega arith) f
          s

  attempt_panic :
      (left delay : ℕ) (last : Option Error) (w w1 : World)
      → c.invoker c.ctx w ≡ (panic, w1)
      → retry_loop env should_retry next_delay c (suc left) delay last w ≡ (panic, w1)
  unfolding retry_loop
  attempt_panic left delay last w w1 s = rw (retry_loop, s, on_error) refl

  attempt_cancelled :
      (left delay : ℕ) (last : Option Error) (w w1 : World) {e cancelled : Error}
      → c.invoker c.ctx w ≡ (err e, w1)
      → ctx_err c.ctx w1 ≡ some cancelled
      → retry_loop env should_retry next_delay c (suc left) delay last w ≡ (err e, w1)
  unfolding retry_loop
  attempt_cancelled left delay last w w1 s dead = rw (retry_loop, s, on_error, dead) refl

  attempt_refused :
      (left delay : ℕ) (last : Option Error) (w w1 : World) {e : Error}
      → c.invoker c.ctx w ≡ (err e, w1)
      → ctx_err c.ctx w1 ≡ none
      → should_retry e ≡ false
      → retry_loop env should_retry next_delay c (suc left) delay last w ≡ (err e, w1)
  unfolding retry_loop
  attempt_refused left delay last w w1 s live again = rw (retry_loop, s, on_error, live, again) refl

  attempt_last :
      (delay : ℕ) (last : Option Error) (w w1 : World) {e : Error}
      → c.invoker c.ctx w ≡ (err e, w1)
      → ctx_err c.ctx w1 ≡ none
      → should_retry e ≡ true
      → retry_loop env should_retry next_delay c 1 delay last w ≡ (err (retries_failed e), w1)
  unfolding retry_loop
  attempt_last delay last w w1 s live again = rw (retry_loop, s, on_error, live, again) refl

  -- Every success of a loop with `left` attempts comes from a success of the operation.
  abbrev Sound : ℕ → Type 0
  Sound left =
      (delay : ℕ) (last : Option Error) (w : World) (value : Value) (w' : World)
      → retry_loop env should_retry next_delay c left delay last w ≡ (ok value, w')
      → Succeeds left delay w value w'

  retry_ok_retried :
      (left delay : ℕ) (last : Option Error) (w w1 : World) (e : Error) {value : Value} {w' : World}
      → Sound left
      → c.invoker c.ctx w ≡ (err e, w1)
      → ctx_err c.ctx w1 ≡ none
      → should_retry e ≡ true
      → retry_loop env should_retry next_delay c (suc left) delay last w ≡ (ok value, w')
      → Succeeds (suc left) delay w value w'
  retry_ok_retried zero delay last w w1 e ih s live again h =
      absurd (err_ne_ok (sym (attempt_last delay last w w1 s live again) ∙ h))
  retry_ok_retried (suc left) delay last w w1 e {value} {w'} ih s live again h =
      let (n, n<left, wn, failures, success) =
        ih (next_delay delay) (some e) (sleep delay w1) value w'
          (sym (attempt_err left delay last w w1 s live again) ∙ h) in
      (suc n, omega arith, wn, (e, w1, s, live, again, failures), success)

  -- The same, told how the next attempt ends.
  retry_ok_after :
      (left delay : ℕ) (last : Option Error) (w : World) (r : Result Value × World) {value : Value}
      {w' : World}
      → Sound left
      → c.invoker c.ctx w ≡ r
      → retry_loop env should_retry next_delay c (suc left) delay last w ≡ (ok value, w')
      → Succeeds (suc left) delay w value w'
  retry_ok_after left delay last w (ok value, w1) ih s h =
      (0, omega arith, w, refl, s ∙ sym (attempt_ok left delay last w s) ∙ h)
  retry_ok_after left delay last w (panic, w1) ih s h =
      absurd (panic_ne_ok (sym (attempt_panic left delay last w w1 s) ∙ h))
  retry_ok_after left delay last w (err e, w1) ih s h = elim (Option-cases (ctx_err c.ctx w1)) [
    | inr (_, dead) ↦ absurd (err_ne_ok (sym (attempt_cancelled left delay last w w1 s dead) ∙ h))
    | inl live ↦ elim (Bool-cases (should_retry e)) [
      | inr final ↦ absurd (err_ne_ok (sym (attempt_refused left delay last w w1 s live final) ∙ h))
      | inl again ↦ retry_ok_retried left delay last w w1 e ih s live again h
    ]
  ]

  retry_loop-Sound : (left : ℕ) → Sound left
  unfolding retry_loop
  retry_loop-Sound zero delay none w value w' h = absurd (err_ne_ok h)
  retry_loop-Sound zero delay (some e) w value w' h = absurd (err_ne_ok h)
  retry_loop-Sound (suc left) delay last w value w' h =
      retry_ok_after left delay last w (c.invoker c.ctx w) (retry_loop-Sound left) refl h

  -- A retry interceptor succeeds exactly if one of its `left` attempts succeeds and those before
  -- it all failed with an error that is retried while the context was live; the result and the
  -- world are then those of the successful attempt, with a sleep after each failure.
  pub retry_loop_ok_iff :
      (left delay : ℕ) (last : Option Error) (w w' : World) (value : Value)
      → (retry_loop env should_retry next_delay c left delay last w ≡ (ok value, w'))
        ↔ Succeeds left delay w value w'
  retry_loop_ok_iff left delay last w w' value = (
    retry_loop-Sound left delay last w value w',
    λ (n, n<left, wn, failures, success).
        retry_succeeds n left delay last w wn n<left failures success,
  )

  retry_exhausted_lem :
      (n delay : ℕ) (last : Option Error) (w wn w1 : World) {e : Error}
      → Fails n delay w wn
      → c.invoker c.ctx wn ≡ (err e, w1)
      → ctx_err c.ctx w1 ≡ none
      → should_retry e ≡ true
      → retry_loop env should_retry next_delay c (suc n) delay last w ≡ (err (retries_failed e), w1)
  retry_exhausted_lem zero delay last w wn w1 f s live again =
      attempt_last delay last w w1 (ap (c.invoker c.ctx) f ∙ s) live again
  retry_exhausted_lem (suc n) delay last w wn w1 (e, w2, failed, alive, retry, f) s live again =
      attempt_err n delay last w w2 failed alive retry
      ∙ retry_exhausted_lem n (next_delay delay) (some e) (sleep delay w2) wn w1 f s live again

module _ (env : Env) (c : Call env) where
  open env use {World, ctx_err}

  -- When all of the 1 + max_retries attempts fail while the context is live, RetryInterceptor
  -- reports the last error, wrapped, with no sleep after the last attempt.
  pub retry_interceptor_exhausted :
      (n delay : ℕ) (w wn w1 : World) (e : Error)
      → Fails env (λ _. true) (λ d. d) c n delay w wn
      → c.invoker c.ctx wn ≡ (err e, w1)
      → ctx_err c.ctx w1 ≡ none
      → retry_interceptor env (pos n) delay c w ≡ (err (retries_failed e), w1)
  unfolding retry_interceptor
  retry_interceptor_exhausted n delay w wn w1 e failures failed live =
      retry_exhausted_lem env (λ _. true) (λ d. d) c n delay none w wn w1 failures failed live refl
