-- ===== src/Shell/Calm.antt =====
-- A command of examples/client/main.go does not panic, if the client's operations do not and its
-- clock is no nil pointer.
use gofins.Base.{
  ℕ, ◌≢◌, refl, Bool, true, List, [], ◌∷◌, Option, none, some, Result, ok, err, panic, Error,
}
use gofins.Server.{Time}
use gofins.Interceptor.{Env, Value, words, bytes, bools, time}
use gofins.Interface.{ClientReader, ClientWriter}
use gofins.Shell.Texts.{Text, codes}
use gofins.Shell.Arguments.{parse_uint16, parse_byte}
use gofins.Shell.Typing.{switch-All}
use gofins.Shell.Totality.{
  parse_uint16-ne-panic, parse_byte-ne-panic, range_args-ne-panic, bit_range_args-ne-panic,
  bits_args-ne-panic, write_args-ne-panic,
}
use gofins.Shell.Output.{Output, Mode, Terminal, Line, print_with_rtt, emit_line, encoded}
use gofins.Shell.Commands.{
  handle_command, report, with_args, read_words_command, read_bytes_command, read_bits_command,
  write_words_command, write_bytes_command, write_bits_command, dated, unknown, done_text,
  command_cases,
}

-- A client whose operations do not panic, and whose clock is not nil.
pub record CallsCalm (env : Env) (reader : ClientReader env) (writer : ClientWriter env)
    (ctx : env.Ctx) : Type 0 where
  pub read_words : (r : ℕ × ℕ × ℕ) (w : env.World) → (reader.read_words ctx r.0 r.1 r.2 w).0 ≢ panic
  pub read_bytes : (r : ℕ × ℕ × ℕ) (w : env.World) → (reader.read_bytes ctx r.0 r.1 r.2 w).0 ≢ panic
  pub read_bits :
      (r : ℕ × ℕ × ℕ × ℕ) (w : env.World) → (reader.read_bits ctx r.0 r.1 r.2 r.3 w).0 ≢ panic
  pub read_clock : (w : env.World) → (reader.read_clock ctx w).0 ≢ panic
  pub clock_there : (w : env.World) → (reader.read_clock ctx w).0 ≢ ok none
  pub write_words :
      (r : ℕ × ℕ × List ℕ) (w : env.World) → (writer.write_words ctx r.0 r.1 r.2 w).0 ≢ panic
  pub write_bytes :
      (r : ℕ × ℕ × List ℕ) (w : env.World) → (writer.write_bytes ctx r.0 r.1 r.2 w).0 ≢ panic
  pub write_bits :
      (r : ℕ × ℕ × ℕ × List Bool) (w : env.World)
      → (writer.write_bits ctx r.0 r.1 r.2 r.3 w).0 ≢ panic

module _ (env : Env) (reader : ClientReader env) (writer : ClientWriter env)
    (terminal : Terminal env.World) (ctx : env.Ctx) (out : Output)
    (calm : CallsCalm env reader writer ctx) where
  open env use {World}

  encoded-ne-panic : (r : Option Error × World) → (encoded env terminal r).0 ≢ panic
  encoded-ne-panic (none, w) = λ e. cc
  encoded-ne-panic (some x, w) = λ e. cc

  emit_line-ne-panic :
      (mode : Mode) (line : Bool → Line) (w : World)
      → (emit_line env terminal mode line w).0 ≢ panic
  emit_line-ne-panic Mode.unset line w = λ e. cc
  emit_line-ne-panic Mode.text line w = λ e. cc
  emit_line-ne-panic Mode.json line w = encoded-ne-panic (terminal.write_out (line true) w)

  report-ne-panic {ℓ} :
      {A : Type ℓ} (label : Text) (show : A → Value) (start : ℕ) (r : Result A × World)
      → r.0 ≢ panic
      → (report env reader writer terminal out label show start r).0 ≢ panic
  unfolding print_with_rtt
  report-ne-panic label show start (ok a, w) h = emit_line-ne-panic out.mode _ w
  report-ne-panic label show start (err x, w) h = λ e. cc
  report-ne-panic label show start (panic, w) h = absurd (h refl)

  with_args-ne-panic {ℓ} :
      {A : Type ℓ} (r : Result A) (run : A → World → Result (Unit {0}) × World) (w : World)
      → r ≢ panic
      → ((a : A) → (run a w).0 ≢ panic)
      → (with_args env reader writer terminal r run w).0 ≢ panic
  with_args-ne-panic (ok a) run w h k = k a
  with_args-ne-panic (err x) run w h k = λ e. cc
  with_args-ne-panic panic run w h k = absurd (h refl)

  read_words_command-ne-panic :
      (args : List Text) (w : World)
      → (read_words_command env reader writer terminal ctx out args w).0 ≢ panic
  read_words_command-ne-panic [] w = λ e. cc
  read_words_command-ne-panic (a ∷ []) w = λ e. cc
  read_words_command-ne-panic (a ∷ b ∷ []) w = λ e. cc
  read_words_command-ne-panic (a ∷ b ∷ c ∷ []) w =
      with_args-ne-panic _ _ w (range_args-ne-panic a b c) (λ r.
        report-ne-panic (codes "words") words (env.now w) (reader.read_words ctx r.0 r.1 r.2 w)
          (calm.read_words r w))
  read_words_command-ne-panic (a ∷ b ∷ c ∷ d ∷ more) w = λ e. cc

  read_bytes_command-ne-panic :
      (args : List Text) (w : World)
      → (read_bytes_command env reader writer terminal ctx out args w).0 ≢ panic
  read_bytes_command-ne-panic [] w = λ e. cc
  read_bytes_command-ne-panic (a ∷ []) w = λ e. cc
  read_bytes_command-ne-panic (a ∷ b ∷ []) w = λ e. cc
  read_bytes_command-ne-panic (a ∷ b ∷ c ∷ []) w =
      with_args-ne-panic _ _ w (range_args-ne-panic a b c) (λ r.
        report-ne-panic (codes "bytes") bytes (env.now w) (reader.read_bytes ctx r.0 r.1 r.2 w)
          (calm.read_bytes r w))
  read_bytes_command-ne-panic (a ∷ b ∷ c ∷ d ∷ more) w = λ e. cc

  read_bits_command-ne-panic :
      (args : List Text) (w : World)
      → (read_bits_command env reader writer terminal ctx out args w).0 ≢ panic
  read_bits_command-ne-panic [] w = λ e. cc
  read_bits_command-ne-panic (a ∷ []) w = λ e. cc
  read_bits_command-ne-panic (a ∷ b ∷ []) w = λ e. cc
  read_bits_command-ne-panic (a ∷ b ∷ o ∷ []) w = λ e. cc
  read_bits_command-ne-panic (a ∷ b ∷ o ∷ c ∷ []) w =
      with_args-ne-panic _ _ w (bit_range_args-ne-panic a b o c) (λ r.
        report-ne-panic (codes "bits") bools (env.now w) (reader.read_bits ctx r.0 r.1 r.2 r.3 w)
          (calm.read_bits r w))
  read_bits_command-ne-panic (a ∷ b ∷ o ∷ c ∷ d ∷ more) w = λ e. cc

  write_words_command-ne-panic :
      (args : List Text) (w : World)
      → (write_words_command env reader writer terminal ctx out args w).0 ≢ panic
  write_words_command-ne-panic [] w = λ e. cc
  write_words_command-ne-panic (a ∷ []) w = λ e. cc
  write_words_command-ne-panic (a ∷ b ∷ []) w = λ e. cc
  write_words_command-ne-panic (a ∷ b ∷ v ∷ vs) w =
      with_args-ne-panic _ _ w (write_args-ne-panic parse_uint16 a b (v ∷ vs) parse_uint16-ne-panic)
        (λ r.
          report-ne-panic (codes "writewords") (done_text env reader writer terminal) (env.now w)
            (writer.write_words ctx r.0 r.1 r.2 w) (calm.write_words r w))

  write_bytes_command-ne-panic :
      (args : List Text) (w : World)
      → (write_bytes_command env reader writer terminal ctx out args w).0 ≢ panic
  write_bytes_command-ne-panic [] w = λ e. cc
  write_bytes_command-ne-panic (a ∷ []) w = λ e. cc
  write_bytes_command-ne-panic (a ∷ b ∷ []) w = λ e. cc
  write_bytes_command-ne-panic (a ∷ b ∷ v ∷ vs) w =
      with_args-ne-panic _ _ w (write_args-ne-panic parse_byte a b (v ∷ vs) parse_byte-ne-panic)
        (λ r.
          report-ne-panic (codes "writebytes") (done_text env reader writer terminal) (env.now w)
            (writer.write_bytes ctx r.0 r.1 r.2 w) (calm.write_bytes r w))

  write_bits_command-ne-panic :
      (args : List Text) (w : World)
      → (write_bits_command env reader writer terminal ctx out args w).0 ≢ panic
  write_bits_command-ne-panic [] w = λ e. cc
  write_bits_command-ne-panic (a ∷ []) w = λ e. cc
  write_bits_command-ne-panic (a ∷ b ∷ []) w = λ e. cc
  write_bits_command-ne-panic (a ∷ b ∷ o ∷ []) w = λ e. cc
  write_bits_command-ne-panic (a ∷ b ∷ o ∷ v ∷ vs) w =
      with_args-ne-panic _ _ w (bits_args-ne-panic a b o (v ∷ vs)) (λ r.
        report-ne-panic (codes "writebits") (done_text env reader writer terminal) (env.now w)
          (writer.write_bits ctx r.0 r.1 r.2 r.3 w) (calm.write_bits r w))

  dated-ne-panic :
      (start : ℕ) (r : Result (Option Time) × World)
      → r.0 ≢ panic
      → r.0 ≢ ok none
      → (dated env reader writer terminal ctx out start r).0 ≢ panic
  dated-ne-panic start (ok none, w) h k = absurd (k refl)
  dated-ne-panic start (ok (some t), w) h k =
      report-ne-panic (codes "clock") time start (ok t, w) (λ e. cc)
  dated-ne-panic start (err x, w) h k = λ e. cc
  dated-ne-panic start (panic, w) h k = absurd (h refl)

  pub handle_command-ne-panic :
      (cmd : Text) (args : List Text) (w : World)
      → (handle_command env reader writer terminal ctx out cmd args w).0 ≢ panic
  unfolding handle_command
  handle_command-ne-panic cmd args w =
      switch-All (λ r. r.0 ≢ panic) (command_cases env reader writer terminal ctx out args w)
        (unknown env reader writer terminal ctx out cmd w) cmd
        (
          read_words_command-ne-panic args w,
          (
            read_bytes_command-ne-panic args w,
            (
              read_bits_command-ne-panic args w,
              (
                write_words_command-ne-panic args w,
                (
                  write_bytes_command-ne-panic args w,
                  (
                    write_bits_command-ne-panic args w,
                    (
                      dated-ne-panic (env.now w) (reader.read_clock ctx w) (calm.read_clock w)
                          (calm.clock_there w),
                      tt,
                    ),
                  ),
                ),
              ),
            ),
          ),
        )
        (λ e. cc)
