-- ===== src/Interceptor/Chain.antt =====
-- `ChainInterceptors` of interceptor.go nests.
use gofins.Base.{◌≡◌, refl, fun_ext, ap, sym, ◌∙◌, List, [], ◌∷◌, ◌++◌}
use gofins.Interceptor.{
  Env, Info, Value, Call, Invoker, Interceptor, Effect, chain_from, chain_interceptors, invoke,
}

module _ (env : Env) where
  open env use {World, Ctx}

  -- Running an operation under a chain.
  abbrev pub run_chain : List (Interceptor env) → Ctx → Info → Invoker env → Effect env Value
  run_chain is ctx info invoker = invoke env (chain_interceptors env is) ctx info invoker

  pub chain_from_run :
      (i : Interceptor env) (rest : List (Interceptor env)) (c : Call env)
      → chain_from env i rest c
        ≡ i (record {
          ctx = c.ctx;
          info = c.info;
          invoker = λ ctx. run_chain rest ctx c.info c.invoker;
        })
  unfolding chain_from chain_interceptors invoke
  chain_from_run i [] c = refl
  chain_from_run i (j ∷ rest) c = refl

  -- An operation under a chain of two parts runs under the first part, with the operation under
  -- the second part in the operation's place; an empty chain adds nothing.
  pub run_chain-append :
      (is js : List (Interceptor env)) (ctx : Ctx) (info : Info) (invoker : Invoker env)
      → run_chain (is ++ js) ctx info invoker
        ≡ run_chain is ctx info (λ inner. run_chain js inner info invoker)
  unfolding chain_interceptors invoke
  run_chain-append [] js ctx info invoker = refl
  run_chain-append (i ∷ is) js ctx info invoker =
      chain_from_run i (is ++ js) (record { ctx = ctx; info = info; invoker = invoker })
      ∙ ap (λ k. i (record { ctx = ctx; info = info; invoker = k }))
          (fun_ext λ inner. run_chain-append is js inner info invoker)
      ∙ sym (
          chain_from_run i is
            (record { ctx = ctx; info = info; invoker = λ inner. run_chain js inner info invoker }))
