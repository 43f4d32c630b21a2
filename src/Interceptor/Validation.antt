-- ===== src/Interceptor/Validation.antt =====
-- The validating interceptors of interceptor_validation.go. The limits' products are uint16, and
-- so are the lengths of the data that are compared with them.
use gofins.Base.{
  ℕ, ◌+◌, ◌*◌, Bool, true, false, ◌||◌, Option, none, some, Result, ok, err, panic,
  invalid_read_count, invalid_write_type, empty_write_data, read_too_large, write_too_large,
  area_not_allowed, address_outside, end_outside, read_only, ltb, ◌==◌, length, if◌then◌else◌,
}
use gofins.Server.{u16}
use gofins.Interceptor.{
  Env, Operation, read_words, read_bytes, read_string, read_bits, read_clock, write_words,
  write_bytes, write_string, write_bits, set_bit, reset_bit, toggle_bit, Value, words, bytes, bools,
  text, Info, Interceptor,
}

-- The reads: a count of at least one and of at most `most`.
abbrev pub check_read_count : ℕ → ℕ → Result (Unit {0})
check_read_count count most =
    if count == 0
    then err invalid_read_count
    else if ltb most count
    then err (read_too_large count most)
    else ok tt

-- The writes: of the data's length only the low 16 bits are compared.
abbrev pub check_write_length : ℕ → ℕ → Result (Unit {0})
check_write_length n most =
    if n == 0
    then err empty_write_data
    else if ltb most (u16 n)
    then err (write_too_large n most)
    else ok tt

abbrev pub check_words : Value → ℕ → Result (Unit {0})
check_words (words ws) most = check_write_length (length ws) most
check_words _ most = err invalid_write_type

abbrev pub check_bytes : Value → ℕ → Result (Unit {0})
check_bytes (bytes bs) most = check_write_length (length bs) most
check_bytes (text s) most = check_write_length (length s) most
check_bytes _ most = err invalid_write_type

abbrev pub check_bools : Value → ℕ → Result (Unit {0})
check_bools (bools bs) most = check_write_length (length bs) most
check_bools _ most = err invalid_write_type

-- The `switch` of `ValidationInterceptorWithLimits`.
unfoldable pub check_limits : ℕ → ℕ → Info → Result (Unit {0})
check_limits max_read max_write info = elim info.operation [
  | read_words ↦ check_read_count info.count max_read
  | read_bytes ↦ check_read_count info.count max_read
  | read_string ↦ check_read_count info.count max_read
  | read_bits ↦ check_read_count info.count (u16 (max_read * 16))
  | read_clock ↦ ok tt
  | write_words ↦ check_words info.payload max_write
  | write_bytes ↦ check_bytes info.payload (u16 (max_write * 2))
  | write_string ↦ check_bytes info.payload (u16 (max_write * 2))
  | write_bits ↦ check_bools info.payload (u16 (max_write * 16))
  | set_bit ↦ ok tt
  | reset_bit ↦ ok tt
  | toggle_bit ↦ ok tt
]

-- The guards of `AddressRangeValidator`, on what the map holds for the area.
abbrev pub check_range : Option (ℕ × ℕ) → Info → Result (Unit {0})
check_range none info = err (area_not_allowed info.memory_area)
check_range (some (low, high)) info =
    let last = u16 (info.address + info.count + 65535) in
    if ltb info.address low || ltb high info.address
    then err (address_outside info.address)
    else if ltb 0 info.count
    then (if ltb high last then err (end_outside last) else ok tt)
    else ok tt

abbrev pub is_write : Operation → Bool
is_write write_words = true
is_write write_bytes = true
is_write write_string = true
is_write write_bits = true
is_write set_bit = true
is_write reset_bit = true
is_write toggle_bit = true
is_write _ = false

module _ (env : Env) where
  open env use {World}

  -- `return nil, err` where a guard fails, and `return c.Invoke(nil)` behind them.
  abbrev pub guarded : Result (Unit {0}) → Interceptor env
  guarded (ok _) c w = c.invoker c.ctx w
  guarded (err e) c w = (err e, w)
  guarded panic c w = (panic, w)

  unfoldable pub validation_interceptor_with_limits : ℕ → ℕ → Interceptor env
  unfolding check_limits
  validation_interceptor_with_limits max_read max_write c =
      guarded (check_limits max_read max_write c.info) c

  unfoldable pub validation_interceptor : Interceptor env
  unfolding validation_interceptor_with_limits
  validation_interceptor = validation_interceptor_with_limits 1000 1000

  unfoldable pub address_range_validator : (ℕ → Option (ℕ × ℕ)) → Interceptor env
  address_range_validator allowed c = guarded (check_range (allowed c.info.memory_area) c.info) c

  unfoldable pub read_only_interceptor : Interceptor env
  read_only_interceptor c =
      if is_write c.info.operation then guarded (err read_only) c else guarded (ok tt) c
