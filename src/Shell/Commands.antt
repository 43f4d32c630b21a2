-- ===== src/Shell/Commands.antt =====
-- `handleCommand` of examples/client/main.go: the arguments are parsed before the client is called,
-- and its answer is printed with the time that it took. The client is given by the operations that
-- are used of it.
use Prim.Native.String.{String}
use gofins.Base.{
  ℕ, ◌-◌, Bool, Option, none, some, List, [], ◌∷◌, Result, ok, err, panic, ◌>>=◌, usage,
  unknown_command, if◌then◌else◌,
}
use gofins.Server.{Time}
use gofins.Interceptor.{Env, Effect, Value, words, bytes, bools, time}
use gofins.Interface.{ClientReader, ClientWriter}
use gofins.Shell.Texts.{Text, codes, switch}
use gofins.Shell.Arguments.{
  parse_uint16, parse_byte, parse_uint16_slice, parse_byte_slice, parse_bool_slice, parse_word_area,
  parse_bit_area,
}
use gofins.Shell.Output.{Output, Terminal, print_with_rtt}

-- The arguments of the commands: area, address and count, with a bit offset for bits, or the values
-- to write.
abbrev pub range_args : Text → Text → Text → Result (ℕ × ℕ × ℕ)
range_args a b c = do
  area ← parse_word_area a
  address ← parse_uint16 b
  count ← parse_uint16 c
  ok (area, address, count)

abbrev pub bit_range_args : Text → Text → Text → Text → Result (ℕ × ℕ × ℕ × ℕ)
bit_range_args a b o c = do
  area ← parse_bit_area a
  address ← parse_uint16 b
  bit_offset ← parse_byte o
  count ← parse_uint16 c
  ok (area, address, bit_offset, count)

abbrev pub words_args : Text → Text → List Text → Result (ℕ × ℕ × List ℕ)
words_args a b vs = do
  area ← parse_word_area a
  address ← parse_uint16 b
  values ← parse_uint16_slice vs
  ok (area, address, values)

abbrev pub bytes_args : Text → Text → List Text → Result (ℕ × ℕ × List ℕ)
bytes_args a b vs = do
  area ← parse_word_area a
  address ← parse_uint16 b
  values ← parse_byte_slice vs
  ok (area, address, values)

abbrev pub bits_args : Text → Text → Text → List Text → Result (ℕ × ℕ × ℕ × List Bool)
bits_args a b o vs = do
  area ← parse_bit_area a
  address ← parse_uint16 b
  bit_offset ← parse_byte o
  values ← parse_bool_slice vs
  ok (area, address, bit_offset, values)

module _ (env : Env) (reader : ClientReader env) (writer : ClientWriter env)
    (terminal : Terminal env.World) where
  open env use {World, Ctx, now}

  -- A call of the client, and what is printed of its answer; `start` is the time before it.
  abbrev pub report {ℓ} :
      {A : Type ℓ} → Output → Text → (A → Value) → ℕ → Result A × World → Result (Unit {0}) × World
  report out label show start (ok a, w) =
      print_with_rtt env terminal out label (show a) (now w - start) w
  report out label show start (err e, w) = (err e, w)
  report out label show start (panic, w) = (panic, w)

  -- With arguments that may not parse.
  abbrev pub with_args {ℓ} :
      {A : Type ℓ} → Result A → (A → Effect env (Unit {0})) → Effect env (Unit {0})
  with_args (ok a) run w = run a w
  with_args (err e) run w = (err e, w)
  with_args panic run w = (panic, w)

  abbrev pub misused : Text → Effect env (Unit {0})
  misused command w = (err (usage command), w)

  -- `"ok"` as the result.
  abbrev pub done_text : Unit {0} → Value
  done_text _ = Value.text (codes "ok")

  module _ (ctx : Ctx) (out : Output) where
    abbrev pub read_words_command : List Text → Effect env (Unit {0})
    read_words_command (a ∷ b ∷ c ∷ []) w =
        with_args (range_args a b c)
          (λ (area, address, count) w'.
            report out (codes "words") words (now w) (reader.read_words ctx area address count w'))
          w
    read_words_command _ w = misused (codes "readwords") w

    abbrev pub read_bytes_command : List Text → Effect env (Unit {0})
    read_bytes_command (a ∷ b ∷ c ∷ []) w =
        with_args (range_args a b c)
          (λ (area, address, count) w'.
            report out (codes "bytes") bytes (now w) (reader.read_bytes ctx area address count w'))
          w
    read_bytes_command _ w = misused (codes "readbytes") w

    abbrev pub read_bits_command : List Text → Effect env (Unit {0})
    read_bits_command (a ∷ b ∷ o ∷ c ∷ []) w =
        with_args (bit_range_args a b o c)
          (λ (area, address, bit_offset, count) w'.
            report out (codes "bits") bools (now w)
              (reader.read_bits ctx area address bit_offset count w'))
          w
    read_bits_command _ w = misused (codes "readbits") w

    abbrev pub write_words_command : List Text → Effect env (Unit {0})
    write_words_command (a ∷ b ∷ v ∷ vs) w =
        with_args (words_args a b (v ∷ vs))
          (λ (area, address, values) w'.
            report out (codes "writewords") done_text (now w)
              (writer.write_words ctx area address values w'))
          w
    write_words_command _ w = misused (codes "writewords") w

    abbrev pub write_bytes_command : List Text → Effect env (Unit {0})
    write_bytes_command (a ∷ b ∷ v ∷ vs) w =
        with_args (bytes_args a b (v ∷ vs))
          (λ (area, address, values) w'.
            report out (codes "writebytes") done_text (now w)
              (writer.write_bytes ctx area address values w'))
          w
    write_bytes_command _ w = misused (codes "writebytes") w

    abbrev pub write_bits_command : List Text → Effect env (Unit {0})
    write_bits_command (a ∷ b ∷ o ∷ v ∷ vs) w =
        with_args (bits_args a b o (v ∷ vs))
          (λ (area, address, bit_offset, values) w'.
            report out (codes "writebits") done_text (now w)
              (writer.write_bits ctx area address bit_offset values w'))
          w
    write_bits_command _ w = misused (codes "writebits") w

    -- `t.Format` on the pointer that ReadClock returned.
    abbrev pub dated : ℕ → Result (Option Time) × World → Result (Unit {0}) × World
    dated start (ok none, w) = (panic, w)
    dated start (ok (some t), w) = report out (codes "clock") time start (ok t, w)
    dated start (err e, w) = (err e, w)
    dated start (panic, w) = (panic, w)

    abbrev pub clock_command : Effect env (Unit {0})
    clock_command w = dated (now w) (reader.read_clock ctx w)

    -- The default case.
    abbrev pub unknown : Text → Effect env (Unit {0})
    unknown cmd w = (err (unknown_command cmd), if out.quiet then w else terminal.print_help w)

    -- The cases of its `switch`.
    abbrev pub command_cases : List Text → World → List (List String × (Result (Unit {0}) × World))
    command_cases args w =
        ("readw" ∷ "readwords" ∷ [], read_words_command args w)
        ∷ ("readb" ∷ "readbytes" ∷ [], read_bytes_command args w)
        ∷ ("readbits" ∷ [], read_bits_command args w)
        ∷ ("writew" ∷ "writewords" ∷ [], write_words_command args w)
        ∷ ("writeb" ∷ "writebytes" ∷ [], write_bytes_command args w)
        ∷ ("writebits" ∷ [], write_bits_command args w)
        ∷ ("clock" ∷ "readclock" ∷ [], clock_command w)
        ∷ []

    -- `handleCommand`
    unfoldable pub handle_command : Text → List Text → Effect env (Unit {0})
    handle_command cmd args w = switch (command_cases args w) (unknown cmd w) cmd
