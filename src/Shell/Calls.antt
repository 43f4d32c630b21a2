-- ===== src/Shell/Calls.antt =====
-- What handleCommand of examples/client/main.go does besides parsing: calls of the client with
-- arguments of their types and areas, and output.
use gofins.Base.{
  ℕ, Bool, true, false, List, [], ◌∷◌, Option, none, some, Result, ok, err, panic, Error, Ensures,
  Bool-cases, inl, inr,
}
use gofins.Server.{Time}
use gofins.Interceptor.{Env, Value, words, bytes, bools, time}
use gofins.Interface.{ClientReader, ClientWriter}
use gofins.Shell.Texts.{Text, codes}
use gofins.Shell.Arguments.{parse_uint16, parse_byte}
use gofins.Shell.Typing.{
  IsWord, IsByte, WordRange, BitRange, WordWrite, BitWrite, parse_uint16-IsWord, parse_byte-IsByte,
  range_args-WordRange, bit_range_args-BitRange, write_args-WordWrite, bits_args-BitWrite,
  switch-All,
}
use gofins.Shell.Output.{Output, Mode, Terminal, Line, print_with_rtt, emit_line, encoded}
use gofins.Shell.Commands.{
  handle_command, report, with_args, read_words_command, read_bytes_command, read_bits_command,
  write_words_command, write_bytes_command, write_bits_command, dated, unknown, done_text,
  command_cases,
}

-- What an operation, called as its parameters' types and its area want, keeps true of the world.
pub record CallsKeep (env : Env) (reader : ClientReader env) (writer : ClientWriter env)
    (terminal : Terminal env.World) (ctx : env.Ctx) (Holds : env.World → Type 0) : Type 0 where
  pub read_words :
      (r : ℕ × ℕ × ℕ) (w : env.World)
      → WordRange r
      → Holds w
      → Holds (reader.read_words ctx r.0 r.1 r.2 w).1
  pub read_bytes :
      (r : ℕ × ℕ × ℕ) (w : env.World)
      → WordRange r
      → Holds w
      → Holds (reader.read_bytes ctx r.0 r.1 r.2 w).1
  pub read_bits :
      (r : ℕ × ℕ × ℕ × ℕ) (w : env.World)
      → BitRange r
      → Holds w
      → Holds (reader.read_bits ctx r.0 r.1 r.2 r.3 w).1
  pub read_clock : (w : env.World) → Holds w → Holds (reader.read_clock ctx w).1
  pub write_words :
      (r : ℕ × ℕ × List ℕ) (w : env.World)
      → WordWrite IsWord r
      → Holds w
      → Holds (writer.write_words ctx r.0 r.1 r.2 w).1
  pub write_bytes :
      (r : ℕ × ℕ × List ℕ) (w : env.World)
      → WordWrite IsByte r
      → Holds w
      → Holds (writer.write_bytes ctx r.0 r.1 r.2 w).1
  pub write_bits :
      (r : ℕ × ℕ × ℕ × List Bool) (w : env.World)
      → BitWrite r
      → Holds w
      → Holds (writer.write_bits ctx r.0 r.1 r.2 r.3 w).1
  pub write_out : (line : Line) (w : env.World) → Holds w → Holds (terminal.write_out line w).1
  pub print_help : (w : env.World) → Holds w → Holds (terminal.print_help w)

module _ (env : Env) (reader : ClientReader env) (writer : ClientWriter env)
    (terminal : Terminal env.World) (ctx : env.Ctx) (Holds : env.World → Type 0)
    (keep : CallsKeep env reader writer terminal ctx Holds) where
  open env use {World}

  emit_line-Holds :
      (mode : Mode) (line : Bool → Line) (w : World)
      → Holds w
      → Holds (emit_line env terminal mode line w).1
  emit_line-Holds Mode.unset line w h = h
  emit_line-Holds Mode.text line w h = keep.write_out (line false) w h
  emit_line-Holds Mode.json line w h =
      encoded-Holds (terminal.write_out (line true) w) (keep.write_out (line true) w h)
    where
      encoded-Holds : (r : Option Error × World) → Holds r.1 → Holds (encoded env terminal r).1
      encoded-Holds (none, w') k = k
      encoded-Holds (some e, w') k = k

  report-Holds {ℓ} :
      {A : Type ℓ} (out : Output) (label : Text) (show : A → Value) (start : ℕ)
      (r : Result A × World)
      → Holds r.1
      → Holds (report env reader writer terminal out label show start r).1
  unfolding print_with_rtt
  report-Holds out label show start (ok a, w) h = emit_line-Holds out.mode _ w h
  report-Holds out label show start (err e, w) h = h
  report-Holds out label show start (panic, w) h = h

  with_args-Holds {ℓ κ} :
      {A : Type ℓ} (P : A → Type κ) (r : Result A) (run : A → World → Result (Unit {0}) × World)
      (w : World)
      → Ensures P r
      → ((a : A) → P a → Holds (run a w).1)
      → Holds w
      → Holds (with_args env reader writer terminal r run w).1
  with_args-Holds P (ok a) run w p k h = k a p
  with_args-Holds P (err e) run w p k h = h
  with_args-Holds P panic run w p k h = h

  read_words_command-Holds :
      (out : Output) (args : List Text) (w : World)
      → Holds w
      → Holds (read_words_command env reader writer terminal ctx out args w).1
  read_words_command-Holds out [] w h = h
  read_words_command-Holds out (a ∷ []) w h = h
  read_words_command-Holds out (a ∷ b ∷ []) w h = h
  read_words_command-Holds out (a ∷ b ∷ c ∷ []) w h =
      with_args-Holds WordRange _ _ w (range_args-WordRange a b c)
        (λ r p.
          report-Holds out (codes "words") words (env.now w) (reader.read_words ctx r.0 r.1 r.2 w)
            (keep.read_words r w p h))
        h
  read_words_command-Holds out (a ∷ b ∷ c ∷ d ∷ more) w h = h

  read_bytes_command-Holds :
      (out : Output) (args : List Text) (w : World)
      → Holds w
      → Holds (read_bytes_command env reader writer terminal ctx out args w).1
  read_bytes_command-Holds out [] w h = h
  read_bytes_command-Holds out (a ∷ []) w h = h
  read_bytes_command-Holds out (a ∷ b ∷ []) w h = h
  read_bytes_command-Holds out (a ∷ b ∷ c ∷ []) w h =
      with_args-Holds WordRange _ _ w (range_args-WordRange a b c)
        (λ r p.
          report-Holds out (codes "bytes") bytes (env.now w) (reader.read_bytes ctx r.0 r.1 r.2 w)
            (keep.read_bytes r w p h))
        h
  read_bytes_command-Holds out (a ∷ b ∷ c ∷ d ∷ more) w h = h

  read_bits_command-Holds :
      (out : Output) (args : List Text) (w : World)
      → Holds w
      → Holds (read_bits_command env reader writer terminal ctx out args w).1
  read_bits_command-Holds out [] w h = h
  read_bits_command-Holds out (a ∷ []) w h = h
  read_bits_command-Holds out (a ∷ b ∷ []) w h = h
  read_bits_command-Holds out (a ∷ b ∷ o ∷ []) w h = h
  read_bits_command-Holds out (a ∷ b ∷ o ∷ c ∷ []) w h =
      with_args-Holds BitRange _ _ w (bit_range_args-BitRange a b o c)
        (λ r p.
          report-Holds out (codes "bits") bools (env.now w) (reader.read_bits ctx r.0 r.1 r.2 r.3 w)
            (keep.read_bits r w p h))
        h
  read_bits_command-Holds out (a ∷ b ∷ o ∷ c ∷ d ∷ more) w h = h

  write_words_command-Holds :
      (out : Output) (args : List Text) (w : World)
      → Holds w
      → Holds (write_words_command env reader writer terminal ctx out args w).1
  write_words_command-Holds out [] w h = h
  write_words_command-Holds out (a ∷ []) w h = h
  write_words_command-Holds out (a ∷ b ∷ []) w h = h
  write_words_command-Holds out (a ∷ b ∷ v ∷ vs) w h =
      with_args-Holds (WordWrite IsWord) _ _ w
        (write_args-WordWrite IsWord parse_uint16 a b (v ∷ vs) parse_uint16-IsWord)
        (λ r p.
          report-Holds out (codes "writewords") (done_text env reader writer terminal) (env.now w)
            (writer.write_words ctx r.0 r.1 r.2 w) (keep.write_words r w p h))
        h

  write_bytes_command-Holds :
      (out : Output) (args : List Text) (w : World)
      → Holds w
      → Holds (write_bytes_command env reader writer terminal ctx out args w).1
  write_bytes_command-Holds out [] w h = h
  write_bytes_command-Holds out (a ∷ []) w h = h
  write_bytes_command-Holds out (a ∷ b ∷ []) w h = h
  write_bytes_command-Holds out (a ∷ b ∷ v ∷ vs) w h =
      with_args-Holds (WordWrite IsByte) _ _ w
        (write_args-WordWrite IsByte parse_byte a b (v ∷ vs) parse_byte-IsByte)
        (λ r p.
          report-Holds out (codes "writebytes") (done_text env reader writer terminal) (env.now w)
            (writer.write_bytes ctx r.0 r.1 r.2 w) (keep.write_bytes r w p h))
        h

  write_bits_command-Holds :
      (out : Output) (args : List Text) (w : World)
      → Holds w
      → Holds (write_bits_command env reader writer terminal ctx out args w).1
  write_bits_command-Holds out [] w h = h
  write_bits_command-Holds out (a ∷ []) w h = h
  write_bits_command-Holds out (a ∷ b ∷ []) w h = h
  write_bits_command-Holds out (a ∷ b ∷ o ∷ []) w h = h
  write_bits_command-Holds out (a ∷ b ∷ o ∷ v ∷ vs) w h =
      with_args-Holds BitWrite _ _ w (bits_args-BitWrite a b o (v ∷ vs))
        (λ r p.
          report-Holds out (codes "writebits") (done_text env reader writer terminal) (env.now w)
            (writer.write_bits ctx r.0 r.1 r.2 r.3 w) (keep.write_bits r w p h))
        h

  dated-Holds :
      (out : Output) (start : ℕ) (r : Result (Option Time) × World)
      → Holds r.1
      → Holds (dated env reader writer terminal ctx out start r).1
  dated-Holds out start (ok none, w) h = h
  dated-Holds out start (ok (some t), w) h = report-Holds out (codes "clock") time start (ok t, w) h
  dated-Holds out start (err e, w) h = h
  dated-Holds out start (panic, w) h = h

  unknown-Holds :
      (out : Output) (cmd : Text) (w : World)
      → Holds w
      → Holds (unknown env reader writer terminal ctx out cmd w).1
  unknown-Holds out cmd w h = elim (Bool-cases out.quiet) [
    | inl e ↦ rw e h
    | inr e ↦ rw e (keep.print_help w h)
  ]

  -- Whatever is typed, the client is only called with arguments of their types: word and byte
  -- operations with a word area, bit operations with a bit area, uint16 addresses, counts and
  -- words, bytes that are bytes. So what such calls and the terminal keep true of the world, a
  -- command keeps true.
  pub handle_command-Holds :
      (out : Output) (cmd : Text) (args : List Text) (w : World)
      → Holds w
      → Holds (handle_command env reader writer terminal ctx out cmd args w).1
  unfolding handle_command
  handle_command-Holds out cmd args w h =
      switch-All (λ r. Holds r.1) (command_cases env reader writer terminal ctx out args w)
        (unknown env reader writer terminal ctx out cmd w) cmd
        (
          read_words_command-Holds out args w h,
          (
            read_bytes_command-Holds out args w h,
            (
              read_bits_command-Holds out args w h,
              (
                write_words_command-Holds out args w h,
                (
                  write_bytes_command-Holds out args w h,
                  (
                    write_bits_command-Holds out args w h,
                    (
                      dated-Holds out (env.now w) (reader.read_clock ctx w) (keep.read_clock w h),
                      tt,
                    ),
                  ),
                ),
              ),
            ),
          ),
        )
        (unknown-Holds out cmd w h)
