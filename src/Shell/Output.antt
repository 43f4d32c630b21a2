-- ===== src/Shell/Output.antt =====
-- The type output of examples/client/main.go. What fmt and encoding/json make of a value is theirs:
-- a line is what they are given.
use gofins.Base.{
  ℕ, ◌/◌, Bool, true, false, Option, none, some, [], ◌∷◌, Result, ok, err, Error,
  unsupported_format, unknown_output_mode, if◌then◌else◌,
}
use gofins.Interceptor.{Env, Value, Effect}
use gofins.Plugin.{same_name}
use gofins.Shell.Texts.{Text, codes, is_any, to_lower}

-- outputMode; `unset` is its zero value.
pub data Mode : Type 0 where
  unset text json : Mode

pub record Output : Type 0 where
  pub mode : Mode
  pub quiet : Bool
  pub transport : Text

-- `newOutput`
unfoldable pub new_output : Text → Bool → Text → Result Output
new_output mode quiet transport =
    let tr = if same_name transport [] then codes "udp" else transport in
    if is_any ("text" ∷ []) (to_lower mode)
    then ok (record { mode = text; quiet = quiet; transport = to_lower tr })
    else if is_any ("json" ∷ []) (to_lower mode)
    then ok (record { mode = json; quiet = quiet; transport = to_lower tr })
    else err (unsupported_format mode)

-- What is written to the standard output: a label, or none, a value, and perhaps the transport
-- with the milliseconds of the round trip.
pub record Line : Type 0 where
  pub as_json : Bool
  pub label : Text
  pub shown : Value
  pub round_trip : Option (Text × ℕ)

-- The terminal: its three streams, the help, and an empty line. Writing may fail.
pub record Terminal (World : Type 0) : Type 0 where
  pub write_out : Line → World → Option Error × World
  pub write_error : Bool → Error → World → World
  pub log_error : Error → World → World
  pub print_help : World → World
  pub new_line : World → World

abbrev pub label_of : Output → Text → Text
label_of out label = if out.quiet then [] else label

module _ (env : Env) (terminal : Terminal env.World) where
  open env use {World}
  open terminal use {write_out, write_error}

  -- fmt.Printf's error is dropped, the JSON encoder's is returned.
  abbrev pub printed : Option Error × World → Result (Unit {0}) × World
  printed (e, w) = (ok tt, w)

  abbrev pub encoded : Option Error × World → Result (Unit {0}) × World
  encoded (none, w) = (ok tt, w)
  encoded (some e, w) = (err e, w)

  abbrev pub emit_line : Mode → (Bool → Line) → Effect env (Unit {0})
  emit_line text line w = printed (write_out (line false) w)
  emit_line json line w = encoded (write_out (line true) w)
  emit_line unset line w = (err unknown_output_mode, w)

  -- `print`
  unfoldable pub print : Output → Text → Value → Effect env (Unit {0})
  print out label v =
      emit_line out.mode
        λ j. record { as_json = j; label = label_of out label; shown = v; round_trip = none }

  -- `printWithRTT`, on a duration in nanoseconds.
  unfoldable pub print_with_rtt : Output → Text → Value → ℕ → Effect env (Unit {0})
  print_with_rtt out label v rtt = emit_line out.mode λ j. record {
    as_json = j;
    label = label_of out label;
    shown = v;
    round_trip = some (out.transport, rtt / 1000000);
  }

  -- `printError`
  unfoldable pub print_error : Output → Option Error → World → World
  print_error out none w = w
  print_error out (some e) w = write_error (elim (out.mode) [ json ↦ true | _ ↦ false ]) e w
