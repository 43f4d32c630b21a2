-- ===== src/Base/Results.antt =====
-- How a Go call ends: it returns a value, returns an error, or panics. The errors are those of
-- error.go and one constructor for each message that the modelled code builds by `fmt.Errorf`.
use Prim.Native.Nat.{ℕ}
use mathlib.Core.Path.{◌≡◌, refl}
use mathlib.Core.Logic.{◌⊎◌, ◌≢◌, inl, inr}
use gofins.Base.Tests.{if◌then◌else◌}
use mathlib.Core.Bool.{Bool, true, false}
use mathlib.Core.Option.{Option, none, some}
use mathlib.Core.List.{List}

pub data Error : Type 0 where
  -- error.go
  response_timeout : ℕ → Error
  incompatible_memory_area : ℕ → Error
  client_closed : Error
  end_code_error : ℕ → Error
  bad_hi_digit bad_lo_digit : ℕ → Error
  bcd_overflow : Error
  -- context.Canceled and context.DeadlineExceeded
  canceled deadline_exceeded : Error
  -- io.EOF and io.ErrUnexpectedEOF
  eof unexpected_eof : Error
  -- transport.go
  invalid_signature : Error
  invalid_length : ℕ → Error
  unexpected_handshake : ℕ → Error
  handshake_failed tcp_error : ℕ → Error
  -- interceptor_validation.go
  invalid_read_count invalid_write_type empty_write_data : Error
  read_too_large write_too_large : ℕ → ℕ → Error
  area_not_allowed : ℕ → Error
  address_outside : ℕ → Error
  end_outside : ℕ → Error
  read_only : Error
  -- interceptor_retry.go: the wrapped error is missing if the loop never ran
  retries_failed : Error → Error
  retries_never_ran : Error
  -- plugin.go
  plugin_nil plugin_name_empty plugin_registered plugins_unsupported : Error
  plugin_initialize plugin_connected plugin_disconnected : Error → Error
  -- plugin_coalescer.go
  response_too_short : Error
  -- client.go
  transport_missing remote_address_missing : Error
  reconnecting_already closed_during_reconnect auto_reconnect_disabled transport_unknown : Error
  max_attempts_reached : Error → Error
  -- examples/client/main.go
  usage unknown_word_area unknown_bit_area invalid_bit_value : List ℕ → Error
  unknown_command unsupported_format : List ℕ → Error
  invalid_number : List ℕ → Error → Error
  unknown_output_mode : Error
  -- strconv.ErrSyntax and strconv.ErrRange
  number_syntax number_range : Error
  -- server.go
  tcp_address_required simulator_transport_unsupported : Error
  -- an error of the operating system, or of a callback
  external : ℕ → Error

pub data Result {ℓ} (A : Type ℓ) : Type ℓ where
  panic : Result A
  ok : A → Result A
  err : Error → Result A

-- A call whose error or panic ends the caller too.
infixl 5 ◌>>=◌ ◌>>◌
abbrev pub ◌>>=◌ {ℓ κ} : {A : Type ℓ} {B : Type κ} → Result A → (A → Result B) → Result B
panic >>= next = panic
err e >>= next = err e
ok value >>= next = next value

-- The same where the value is not looked at.
abbrev pub ◌>>◌ {ℓ} : {B : Type ℓ} → Result (Unit {0}) → Result B → Result B
panic >> next = panic
err e >> next = err e
ok _ >> next = next

-- A run-time check: the program panics where it fails.
abbrev pub check : Bool → Result (Unit {0})
check true = ok tt
check false = panic

abbrev pub or_panic {ℓ} : {A : Type ℓ} → Option A → Result A
or_panic none = panic
or_panic (some a) = ok a

abbrev pub map_result {ℓ κ} : {A : Type ℓ} {B : Type κ} → (A → B) → Result A → Result B
map_result f (ok a) = ok (f a)
map_result f (err e) = err e
map_result f panic = panic

pub Result-cases {ℓ} :
    {A : Type ℓ} (r : Result A)
    → ((a : A) × (r ≡ ok a)) ⊎ (((e : Error) × (r ≡ err e)) ⊎ (r ≡ panic))
Result-cases (ok a) = inl (a, refl)
Result-cases (err e) = inr (inl (e, refl))
Result-cases panic = inr (inr refl)

-- What holds of a returned value, if one is returned.
abbrev pub Ensures {ℓ κ} : {A : Type ℓ} → (A → Type κ) → Result A → Type κ
Ensures P (ok a) = P a
Ensures P (err e) = Unit
Ensures P panic = Unit

pub Ensures-bind {ℓ κ ι ν} :
    {A : Type ℓ} {B : Type κ} (P : A → Type ι) (Q : B → Type ν) (m : Result A) (f : A → Result B)
    → Ensures P m
    → ((a : A) → P a → Ensures Q (f a))
    → Ensures Q (m >>= f)
Ensures-bind P Q (ok a) f h k = k a h
Ensures-bind P Q (err e) f h k = tt
Ensures-bind P Q panic f h k = tt

-- Where nothing is known of the first step's value.
pub Ensures-after {ℓ κ ν} :
    {A : Type ℓ} {B : Type κ} (Q : B → Type ν) (m : Result A) (f : A → Result B)
    → ((a : A) → Ensures Q (f a))
    → Ensures Q (m >>= f)
Ensures-after Q (ok a) f k = k a
Ensures-after Q (err e) f k = tt
Ensures-after Q panic f k = tt

pub Ensures-ok {ℓ κ} :
    {A : Type ℓ} (P : A → Type κ) (r : Result A) {a : A} → Ensures P r → r ≡ ok a → P a
Ensures-ok P r h e = rw e at h

pub Ensures-if {ℓ κ} :
    {A : Type ℓ} (P : A → Type κ) (b : Bool) (m n : Result A)
    → Ensures P m
    → Ensures P n
    → Ensures P (if b then m else n)
Ensures-if P true m n h k = h
Ensures-if P false m n h k = k

-- A chain that returned a value did so step by step.
pub >>=-eq-ok {ℓ κ} :
    {A : Type ℓ} {B : Type κ} (first : Result A) (next : A → Result B) {last : B}
    → (first >>= next) ≡ ok last
    → (value : A) × (first ≡ ok value) × (next value ≡ ok last)
>>=-eq-ok panic next returned = cc
>>=-eq-ok (err e) next returned = cc
>>=-eq-ok (ok value) next returned = (value, refl, returned)

-- A chain panics only in a step that is reached.
pub >>=-ne-panic {ℓ κ} :
    {A : Type ℓ} {B : Type κ} (m : Result A) (f : A → Result B)
    → m ≢ panic
    → ((a : A) → m ≡ ok a → f a ≢ panic)
    → (m >>= f) ≢ panic
>>=-ne-panic (ok a) f h k = k a refl
>>=-ne-panic (err e) f h k = λ p. cc
>>=-ne-panic panic f h k = absurd (h refl)
