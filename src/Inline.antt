-- ===== src/Inline.antt =====
-- The inline client of inline_client.go, which works on a simulator's memory. The simulator is an
-- object of the world: `server` and `put_server` read and replace it. A nil context is one that
-- has no error. Close and the settings of timeouts and reconnecting do nothing there, and
-- are left out.
pub mod RoundTrip
pub mod Refusals
use gofins.Base.{
  big_endian, plugins_unsupported, ℕ, ◌+◌, ◌*◌, ◌/◌, Bool, true, false, Option, none, some, List,
  [], ◌∷◌, map, Result, ok, err, panic, check, ◌>>=◌, ◌>>◌, map_result, Error,
  incompatible_memory_area, client_closed, end_code_error, ByteOrder, of_list, length, take, ltb,
  leb, ◌==◌, if◌then◌else◌, ◌++◌, ◌-◌, replicate,
}
use gofins.Area.{check_is_word_memory_area, check_is_bit_memory_area}
use gofins.Protocol.{normal_completion}
use gofins.Server
use gofins.Server.{Server, Time, u16}
use gofins.Codec.{words_of, put_words, is_set, bit_byte, text_of, string_bytes}
use gofins.Interceptor.{
  Env, Operation, Value, nil_value, words, bytes, bools, text, time, Info, Invoker, Interceptor,
  Effect, invoke,
}

-- `result.([]uint16)` and the like: a value of another type is a panic.
abbrev pub as_words : Value → Result (List ℕ)
as_words (words ws) = ok ws
as_words _ = panic

abbrev pub as_bytes : Value → Result (List ℕ)
as_bytes (bytes bs) = ok bs
as_bytes _ = panic

abbrev pub as_bools : Value → Result (List Bool)
as_bools (bools bs) = ok bs
as_bools _ = panic

abbrev pub as_time : Value → Result Time
as_time (time t) = ok t
as_time _ = panic

-- `if endCode != EndCodeNormalCompletion { return nil, EndCodeError{endCode} }`
abbrev pub completed : ℕ → Result (Unit {0})
completed end_code = if end_code == normal_completion then ok tt else err (end_code_error end_code)

abbrev pub compatible : Bool → ℕ → Result (Unit {0})
compatible is_compatible area = if is_compatible then ok tt else err (incompatible_memory_area area)

abbrev pub read_info : Operation → ℕ → ℕ → ℕ → ℕ → Info
read_info op area address bit_offset count = record {
  operation = op;
  memory_area = area;
  address = address;
  bit_offset = bit_offset;
  count = count;
  payload = nil_value;
}

abbrev pub write_info : Operation → ℕ → ℕ → ℕ → Value → Info
write_info op area address bit_offset payload = record {
  operation = op;
  memory_area = area;
  address = address;
  bit_offset = bit_offset;
  count = 0;
  payload = payload;
}

module _ (env : Env) (server : env.World → Server) (put_server : Server → env.World → env.World)
    (time_now : env.World → Time) where
  open env use {World, Ctx, ctx_err}

  pub record InlineClient : Type 0 where
    pub byte_order : ByteOrder
    pub interceptor : Option (Interceptor env)

  -- `(s *Server).InlineClient`; the simulator is the world's.
  abbrev pub inline_client : InlineClient
  inline_client = record { byte_order = big_endian; interceptor = none }

  -- A byte order that is nil is ignored.
  abbrev pub set_byte_order : Option ByteOrder → InlineClient → InlineClient
  set_byte_order none ic = ic
  set_byte_order (some order) ic = record ic { byte_order = order }

  abbrev pub set_interceptor : Option (Interceptor env) → InlineClient → InlineClient
  set_interceptor interceptor ic = record ic { interceptor = interceptor }

  -- `Use` refuses every plugin.
  abbrev pub use_plugins {ℓ} : {Plugin : Type ℓ} → List Plugin → Result (Unit {0})
  use_plugins plugins = err plugins_unsupported

  abbrev pub is_closed : World → Bool
  is_closed w = (server w).closed

  -- `check`
  abbrev pub check_open : Ctx → World → Result (Unit {0})
  check_open ctx w = elim (ctx_err ctx w) [
    | some e ↦ err e
    | none ↦ if (server w).closed then err client_closed else ok tt
  ]

  -- A write's end code and memory, as the operation's outcome.
  abbrev pub stored : World → Result (ℕ × Server) → Result Value × World
  stored w panic = (panic, w)
  stored w (err e) = (err e, w)
  stored w (ok (end_code, s)) = (map_result (λ _. nil_value) (completed end_code), put_server s w)

  abbrev pub finish_with {ℓ} :
      {A : Type ℓ} → (Value → Result A) → Result Value × World → Result A × World
  finish_with f (r, w) = (r >>= f, w)

  -- `check` and the test of the area, with which every operation on memory begins.
  abbrev pub ready : Ctx → World → Bool → ℕ → Result (Unit {0})
  ready ctx w is_compatible area = check_open ctx w >> compatible is_compatible area

  -- The operations' bodies, the functions that `invoke` is given.
  unfoldable pub read_words_body : ByteOrder → ℕ → ℕ → ℕ → Invoker env
  read_words_body order area address count ctx w = (
    (do
      _ ← ready ctx w (check_is_word_memory_area area) area
      (raw, end_code) ← Server.read_words (server w) area address count
      _ ← completed end_code
      map_result words (words_of order (of_list raw) 0 count)),
    w,
  )

  unfoldable pub read_bytes_body : ℕ → ℕ → ℕ → Invoker env
  read_bytes_body area address count ctx w = (
    (do
      _ ← ready ctx w (check_is_word_memory_area area) area
      (raw, end_code) ← Server.read_words (server w) area address count
      _ ← completed end_code
      ok (bytes raw)),
    w,
  )

  unfoldable pub read_bits_body : ℕ → ℕ → ℕ → ℕ → Invoker env
  read_bits_body area address bit_offset count ctx w = (
    (do
      _ ← ready ctx w (check_is_bit_memory_area area) area
      (raw, end_code) ← Server.read_bits (server w) area address bit_offset count
      _ ← completed end_code
      _ ← check (leb (length raw) count)
      ok (bools (map is_set raw ++ replicate (count - length raw) false))),
    w,
  )

  unfoldable pub read_clock_body : Invoker env
  read_clock_body ctx w = ((check_open ctx w >> ok (time (time_now w))), w)

  unfoldable pub write_words_body : ByteOrder → ℕ → ℕ → List ℕ → Invoker env
  write_words_body order area address items ctx w = stored w (do
    _ ← ready ctx w (check_is_word_memory_area area) area
    let l = u16 (length items)
    bts ← put_words order (u16 (2 * l)) 0 (take l items)
    Server.write_words (server w) area address l bts)

  unfoldable pub write_string_body : ℕ → ℕ → List ℕ → Invoker env
  write_string_body area address s ctx w = stored w (do
    _ ← ready ctx w (check_is_word_memory_area area) area
    Server.write_words (server w) area address (u16 ((length s + 1) / 2)) (string_bytes s))

  unfoldable pub write_bytes_body : ℕ → ℕ → List ℕ → Invoker env
  write_bytes_body area address b ctx w = stored w (do
    _ ← ready ctx w (check_is_word_memory_area area) area
    Server.write_words (server w) area address (u16 (length b)) b)

  unfoldable pub write_bits_body : ℕ → ℕ → ℕ → List Bool → Invoker env
  write_bits_body area address bit_offset items ctx w = stored w (do
    _ ← ready ctx w (check_is_bit_memory_area area) area
    let l = u16 (length items)
    Server.write_bits (server w) area address bit_offset l (map bit_byte (take l items)))

  unfoldable pub bit_twiddle_body : ℕ → ℕ → ℕ → ℕ → Invoker env
  bit_twiddle_body area address bit_offset value ctx w = stored w (do
    _ ← ready ctx w (check_is_bit_memory_area area) area
    Server.write_bits (server w) area address bit_offset 1 (value ∷ []))

  module _ (ic : InlineClient) (ctx : Ctx) where
    -- An operation under the interceptor that is set.
    abbrev pub run : Info → Invoker env → Effect env Value
    run = invoke env ic.interceptor ctx

    unfoldable pub read_words : ℕ → ℕ → ℕ → Effect env (List ℕ)
    unfolding invoke read_words_body
    read_words area address count w = finish_with as_words (
        run (read_info Operation.read_words area address 0 count)
          (read_words_body ic.byte_order area address count) w)

    unfoldable pub read_bytes : ℕ → ℕ → ℕ → Effect env (List ℕ)
    unfolding invoke read_bytes_body
    read_bytes area address count w = finish_with as_bytes (
        run (read_info Operation.read_bytes area address 0 count)
          (read_bytes_body area address count) w)

    unfoldable pub read_string : ℕ → ℕ → ℕ → Effect env (List ℕ)
    unfolding read_bytes text_of
    read_string area address count w =
        let (r, w') = read_bytes area address count w in (map_result text_of r, w')

    unfoldable pub read_bits : ℕ → ℕ → ℕ → ℕ → Effect env (List Bool)
    unfolding invoke read_bits_body
    read_bits area address bit_offset count w = finish_with as_bools (
        run (read_info Operation.read_bits area address bit_offset count)
          (read_bits_body area address bit_offset count) w)

    unfoldable pub read_clock : Effect env Time
    unfolding invoke read_clock_body
    read_clock w =
        finish_with as_time (run (read_info Operation.read_clock 0 0 0 0) read_clock_body w)

    -- A write returns no value.
    abbrev pub done : Result Value × World → Result (Unit {0}) × World
    done = finish_with (λ _. ok tt)

    unfoldable pub write_words : ℕ → ℕ → List ℕ → Effect env (Unit {0})
    unfolding invoke write_words_body
    write_words area address items w = done (
        run (write_info Operation.write_words area address 0 (words items))
          (write_words_body ic.byte_order area address items) w)

    unfoldable pub write_string : ℕ → ℕ → List ℕ → Effect env (Unit {0})
    unfolding invoke write_string_body
    write_string area address s w = done (
        run (write_info Operation.write_string area address 0 (text s))
          (write_string_body area address s) w)

    unfoldable pub write_bytes : ℕ → ℕ → List ℕ → Effect env (Unit {0})
    unfolding invoke write_bytes_body
    write_bytes area address b w = done (
        run (write_info Operation.write_bytes area address 0 (bytes b))
          (write_bytes_body area address b) w)

    unfoldable pub write_bits : ℕ → ℕ → ℕ → List Bool → Effect env (Unit {0})
    unfolding invoke write_bits_body
    write_bits area address bit_offset items w = done (
        run (write_info Operation.write_bits area address bit_offset (bools items))
          (write_bits_body area address bit_offset items) w)

    unfoldable pub bit_twiddle : Operation → ℕ → ℕ → ℕ → ℕ → Effect env (Unit {0})
    unfolding invoke bit_twiddle_body
    bit_twiddle op area address bit_offset value w = done (
        run (write_info op area address bit_offset (bools ((value == 1) ∷ [])))
          (bit_twiddle_body area address bit_offset value) w)

    unfoldable pub set_bit : ℕ → ℕ → ℕ → Effect env (Unit {0})
    unfolding bit_twiddle
    set_bit area address bit_offset = bit_twiddle Operation.set_bit area address bit_offset 1

    unfoldable pub reset_bit : ℕ → ℕ → ℕ → Effect env (Unit {0})
    unfolding bit_twiddle
    reset_bit area address bit_offset = bit_twiddle Operation.reset_bit area address bit_offset 0

    -- The write of ToggleBit, on what its read gave.
    abbrev pub toggle_read : ℕ → ℕ → ℕ → Result (List Bool) × World → Result (Unit {0}) × World
    toggle_read area address bit_offset (ok (b ∷ bs), w) =
        bit_twiddle Operation.toggle_bit area address bit_offset (if b then 0 else 1) w
    toggle_read area address bit_offset (ok [], w) = (panic, w)
    toggle_read area address bit_offset (err e, w) = (err e, w)
    toggle_read area address bit_offset (panic, w) = (panic, w)

    unfoldable pub toggle_bit : ℕ → ℕ → ℕ → Effect env (Unit {0})
    unfolding read_bits bit_twiddle
    toggle_bit area address bit_offset w =
        toggle_read area address bit_offset (read_bits area address bit_offset 1 w)
