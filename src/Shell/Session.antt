-- ===== src/Shell/Session.antt =====
-- The loops of `main` in examples/client/main.go: commands from the prompt, and the command of the
-- flag `-exec`. Flags, name resolution and dialling come before them and are left out.
use Prim.Native.String.{String}
use gofins.Base.{
  ℕ, zero, suc, ◌≡◌, ◌≢◌, refl, true, Bool-cases, inl, inr, Option, none, some, List, [], ◌∷◌,
  Result, ok, err, panic, Error, ℤ, pos, negsuc, All, if◌then◌else◌,
}
use gofins.Interceptor.{Env}
use gofins.Interface.{ClientReader, ClientWriter}
use gofins.Plugin.{same_name}
use gofins.Shell.Texts.{
  Text, to_lower, trim_left, trim_right, trim_space, keep_before, put_letter, fields, switch,
  is_space,
}
use gofins.Shell.Output.{Output, Terminal, print_error}
use gofins.Shell.Commands.{handle_command}

-- What `line.Prompt` returns: a line, ErrPromptAborted, io.EOF or another error.
pub data Prompt : Type 0 where
  entered : Text → Prompt
  aborted ended : Prompt
  failed : Error → Prompt

-- What becomes of the loop after a line.
pub data Turn : Type 0 where
  stay leave crash : Turn

-- How the program ends after `-exec`: it returns, ends with status 1, or panics.
pub data Exit : Type 0 where
  returned exit_one crashed : Exit

module _ (env : Env) (reader : ClientReader env) (writer : ClientWriter env)
    (terminal : Terminal env.World) (with_timeout : env.World → env.Ctx) (out : Output) where
  open env use {World, sleep}

  abbrev pub command : Text → List Text → World → Result (Unit {0}) × World
  command cmd args w =
      handle_command env reader writer terminal (with_timeout w) out (to_lower cmd) args w

  -- `fields[0]` and the rest, which panics without a word.
  abbrev pub run_words : List Text → World → Result (Unit {0}) × World
  run_words [] w = (panic, w)
  run_words (cmd ∷ args) w = command cmd args w

  abbrev pub commanded : Result (Unit {0}) × World → Turn × World
  commanded (ok _, w) = (stay, w)
  commanded (err e, w) = (stay, print_error env terminal out (some e) w)
  commanded (panic, w) = (crash, w)

  -- The lines that are no commands.
  abbrev pub line_cases : World → List (List String × (Turn × World))
  line_cases w =
      ("exit" ∷ "quit" ∷ [], (leave, w)) ∷ ("help" ∷ "?" ∷ [], (stay, terminal.print_help w)) ∷ []

  -- A trimmed line.
  unfoldable pub turn : Text → World → Turn × World
  unfolding print_error
  turn text w =
      if same_name text []
      then (stay, w)
      else switch (line_cases w) (commanded (run_words (fields text) w)) (to_lower text)

  abbrev pub go_on : (World → Result (Unit {0}) × World) → Turn × World → Result (Unit {0}) × World
  go_on rest (stay, w) = rest w
  go_on rest (leave, w) = (ok tt, w)
  go_on rest (crash, w) = (panic, w)

  -- The prompt's loop, up to the end of what is entered.
  unfoldable pub session : List Prompt → World → Result (Unit {0}) × World
  unfolding turn
  session [] w = (ok tt, w)
  session (aborted ∷ rest) w = session rest w
  session (ended ∷ rest) w = (ok tt, terminal.new_line w)
  session (failed e ∷ rest) w = session rest (terminal.log_error e w)
  session (entered input ∷ rest) w = go_on (session rest) (turn (trim_space input) w)

  -- The error of a round of `-exec` is printed if the output is quiet, and logged otherwise.
  abbrev pub told : Result (Unit {0}) × World → World
  told (err e, w) =
      if out.quiet then print_error env terminal out (some e) w else terminal.log_error e w
  told (_, w) = w

  abbrev pub exit_of : Result (Unit {0}) → Exit
  exit_of (err e) = if out.quiet then exit_one else returned
  exit_of (ok _) = returned
  exit_of panic = crashed

  -- What follows on a round: the end, or a sleep and the next round.
  abbrev pub after_round :
      (World → Option (Exit × World)) → ℤ → Result (Unit {0}) × World → Option (Exit × World)
  after_round again (pos (suc interval)) (panic, w) = some (crashed, w)
  after_round again (pos (suc interval)) (ok u, w) = again (sleep (suc interval) (told (ok u, w)))
  after_round again (pos (suc interval)) (err e, w) = again (sleep (suc interval) (told (err e, w)))
  after_round again (pos zero) (r, w) = some (exit_of r, told (r, w))
  after_round again (negsuc n) (r, w) = some (exit_of r, told (r, w))

  -- The loop of `-exec`, on fuel: with a positive interval it does not end by itself.
  unfoldable pub exec_loop : ℤ → ℕ → List Text → World → Option (Exit × World)
  exec_loop interval zero words w = none
  exec_loop interval (suc fuel) words w =
      after_round (exec_loop interval fuel words) interval (run_words words w)

abbrev AllSpace : Text → Type 0
AllSpace s = All (λ c. is_space c ≡ true) s

put_letter-ne-nil : (c : ℕ) (s : Text) (found : List Text) → put_letter c s found ≢ []
put_letter-ne-nil c [] found = λ e. cc
put_letter-ne-nil c (d ∷ s) [] = λ e. cc
put_letter-ne-nil c (d ∷ s) (word ∷ found) = elim (Bool-cases (is_space d)) [
  | inl e ↦ rw e (λ h. cc)
  | inr e ↦ rw e (λ h. cc)
]

fields_none : (s : Text) → fields s ≡ [] → AllSpace s
unfolding fields
fields_none [] h = tt
fields_none (c ∷ s) h = elim (Bool-cases (is_space c)) [
  | inl e ↦ (e, fields_none s (rw e at h))
  | inr e ↦ absurd (put_letter-ne-nil c s (fields s) (rw e at h))
]

keep_before_space :
    (c : ℕ) (t : Text) → (AllSpace t → t ≡ []) → AllSpace (keep_before c t) → keep_before c t ≡ []
keep_before_space c [] h a = elim (Bool-cases (is_space c)) [
  | inl e ↦ rw e refl
  | inr e ↦ let blank = rw e at a in cc
]
keep_before_space c (d ∷ t) h (p, q) = absurd (let e = h q in cc)

trim_right_space : (s : Text) → AllSpace (trim_right s) → trim_right s ≡ []
trim_right_space [] h = refl
trim_right_space (c ∷ s) h = keep_before_space c (trim_right s) (trim_right_space s) h

-- A line that is not blank has a first word.
pub fields-trim_space : (input : Text) → trim_space input ≢ [] → fields (trim_space input) ≢ []
fields-trim_space input h e =
    h (trim_right_space (trim_left input) (fields_none (trim_space input) e))
