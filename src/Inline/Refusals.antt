-- ===== src/Inline/Refusals.antt =====
-- What the inline client refuses before it touches the simulator's memory (inline_client.go).
use gofins.Base.{
  ℕ, Bool, Option, none, some, List, err, arith, Error, client_closed, incompatible_memory_area,
  ◌≡◌, refl, if◌then◌else◌,
}
use gofins.Area.{check_is_bit_memory_area}
use gofins.Server.{Server, Time}
use gofins.Interceptor.{Env}
use gofins.Inline.{ready, read_bits_body, write_bits_body, bit_twiddle_body}

module _ (env : Env) (server : env.World → Server) (put_server : Server → env.World → env.World)
    (time_now : env.World → Time) where
  open env use {World, Ctx, ctx_err}

  -- The error that an operation reports before it reads or writes, if it does.
  abbrev pub refusal : Ctx → World → Bool → ℕ → Option Error
  refusal ctx w is_compatible area = elim (ctx_err ctx w) [
    | some e ↦ some e
    | none ↦
        if (server w).closed
        then some client_closed
        else if is_compatible
        then none
        else some (incompatible_memory_area area)
  ]

  ready_refused :
      (ctx : Ctx) (w : World) (b : Bool) (area : ℕ) {e : Error}
      → refusal ctx w b area ≡ some e
      → ready env server put_server time_now ctx w b area ≡ err e
  ready_refused ctx w b area h = ground arith

  -- The same of the operations on bits.
  pub bit_operations_refused :
      (area address bit_offset count value : ℕ) (bs : List Bool) (ctx : Ctx) (w : World) (e : Error)
      → refusal ctx w (check_is_bit_memory_area area) area ≡ some e
      → (read_bits_body env server put_server time_now area address bit_offset count ctx w
          ≡ (err e, w))
        × (write_bits_body env server put_server time_now area address bit_offset bs ctx w
            ≡ (err e, w))
        × (bit_twiddle_body env server put_server time_now area address bit_offset value ctx w
            ≡ (err e, w))
  unfolding read_bits_body write_bits_body bit_twiddle_body
  bit_operations_refused area address bit_offset count value bs ctx w e h =
      let r = ready_refused ctx w (check_is_bit_memory_area area) area h in
      (rw r refl, rw r refl, rw r refl)
