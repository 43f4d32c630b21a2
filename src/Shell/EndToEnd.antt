-- ===== src/Shell/EndToEnd.antt =====
-- The whole way of a command of examples/client/main.go: parsed, sent by the client, served by the
-- simulator and printed.
use gofins.Base.{
  ℕ, ◌+◌, ◌-◌, ◌*◌, ◌^◌, ◌≤◌, ◌<◌, ◌≡◌, refl, sym, ap, ◌∙◌, arith, Bool, true, false, Option, none,
  some, List, [], ◌∷◌, ok, Error, Result, length, All,
}
use gofins.Area.{check_is_word_memory_area}
use gofins.Protocol.{normal_completion}
use gofins.Server
use gofins.Server.{Server, Buffer, dm_area_size}
use gofins.Server.Words.{with_words}
use gofins.Codec.{flat}
use gofins.Interceptor.{Env, Value, words}
use gofins.Client.Exchange.{Net}
use gofins.Client.Serving.{Loopback, IsUp}
use gofins.Client.Loopback.{write_words_served, read_words_served, stored_words_found}
use gofins.Client.Operations.{read_words, write_words}
use gofins.Interface.Real.{client_reader, client_writer}
use gofins.Shell.Texts.{Text, codes}
use gofins.Shell.Arguments.{parse_word_area, parse_uint16, parse_uint16_slice, parse_each}
use gofins.Shell.Numbers.{Spells, parse_uint16_iff}
use gofins.Shell.Output.{Output, Mode, Line, Terminal, print_with_rtt, emit_line, encoded}
use gofins.Shell.Commands.{handle_command}

-- Texts that spell the words of a list, one each.
abbrev pub SpellEach : List Text → List ℕ → Type 0
SpellEach [] [] = Unit
SpellEach [] (v ∷ vs) = ⊥
SpellEach (s ∷ rest) [] = ⊥
SpellEach (s ∷ rest) (v ∷ vs) = (Spells s v × (v < 2 ^ 16)) × SpellEach rest vs

parse_each-SpellEach :
    (texts : List Text) (vs : List ℕ) → SpellEach texts vs → parse_uint16_slice texts ≡ ok vs
unfolding parse_each
parse_each-SpellEach [] [] h = refl
parse_each-SpellEach [] (v ∷ vs) h = absurd h
parse_each-SpellEach (s ∷ rest) [] h = absurd h
parse_each-SpellEach (s ∷ rest) (v ∷ vs) (h, hs) =
    rw ((parse_uint16_iff s v).1 h, parse_each-SpellEach rest vs hs) refl

SpellEach-All : (texts : List Text) (vs : List ℕ) → SpellEach texts vs → All (λ v. v < 2 ^ 16) vs
SpellEach-All [] [] h = tt
SpellEach-All [] (v ∷ vs) h = absurd h
SpellEach-All (s ∷ rest) [] h = absurd h
SpellEach-All (s ∷ rest) (v ∷ vs) (h, hs) = (h.1, SpellEach-All rest vs hs)

-- A terminal that writes without touching the client, the simulator or the context.
pub record Apart (env : Env) (net : Net env) (server : env.World → Server) (ctx : env.Ctx)
    (terminal : Terminal env.World) : Type 0 where
  pub same_client :
      (line : Line) (w : env.World) → net.client (terminal.write_out line w).1 ≡ net.client w
  pub same_server : (line : Line) (w : env.World) → server (terminal.write_out line w).1 ≡ server w
  pub same_ctx_err :
      (line : Line) (w : env.World)
      → env.ctx_err ctx (terminal.write_out line w).1 ≡ env.ctx_err ctx w

module _ (env : Env) (net : Net env) (server : env.World → Server)
    (put_server : Server → env.World → env.World) (loop : Loopback env net server put_server)
    (ctx : env.Ctx) (terminal : Terminal env.World)
    (apart : Apart env net server ctx terminal) where
  open env use {World}
  open net use {client}

  abbrev pub Up : World → Type 0
  Up = IsUp env net server put_server loop ctx

  -- What is typed at this terminal, for this client.
  abbrev pub typed : Output → Text → List Text → World → Result (Unit {0}) × World
  typed = handle_command env (client_reader env net) (client_writer env net) terminal ctx

  -- The part of the world that a command works on.
  abbrev Kept : World → World → Type 0
  Kept w w' =
      (client w' ≡ client w) × (server w' ≡ server w) × (env.ctx_err ctx w' ≡ env.ctx_err ctx w)

  written-Kept : (line : Line) (w : World) → Kept w (terminal.write_out line w).1
  written-Kept line w =
      (apart.same_client line w, apart.same_server line w, apart.same_ctx_err line w)

  encoded-Kept :
      (w : World) (r : Option Error × World) → Kept w r.1 → Kept w (encoded env terminal r).1
  encoded-Kept w (none, w') k = k
  encoded-Kept w (some e, w') k = k

  emit_line-Kept :
      (mode : Mode) (line : Bool → Line) (w : World) → Kept w (emit_line env terminal mode line w).1
  emit_line-Kept Mode.unset line w = (refl, refl, refl)
  emit_line-Kept Mode.text line w = written-Kept (line false) w
  emit_line-Kept Mode.json line w =
      encoded-Kept w (terminal.write_out (line true) w) (written-Kept (line true) w)

  IsUp-Kept : (w w' : World) → Kept w w' → Up w → Up w'
  IsUp-Kept w w' k up = record {
    live = k.2 ∙ up.live;
    open_ = ap (λ c. c.closed) k.0 ∙ up.open_;
    connected = ap (λ c. c.connected) k.0 ∙ up.connected;
    dialled = ap (λ c. c.tr) k.0 ∙ up.dialled;
    plain = ap (λ c. c.interceptor) k.0 ∙ up.plain;
  }

  -- A command whose arguments parse calls the client and prints.
  write_words_typed :
      (out : Output) (area address : ℕ) (v : ℕ) (vs : List ℕ) (name at text : Text)
      (texts : List Text) (w w1 : World)
      → parse_word_area name ≡ ok area
      → parse_uint16 at ≡ ok address
      → parse_uint16_slice (text ∷ texts) ≡ ok (v ∷ vs)
      → write_words env net ctx area address (v ∷ vs) w ≡ (ok tt, w1)
      → typed out (codes "writewords") (name ∷ at ∷ text ∷ texts) w
        ≡ print_with_rtt env terminal out
            (codes "writewords")
            (Value.text (codes "ok"))
            (env.now w1 - env.now w)
            w1
  unfolding handle_command
  write_words_typed out area address v vs name at text texts w w1 p q r done =
      rw (p, q, r, done) refl

  read_words_typed :
      (out : Output) (area address count : ℕ) (items : List ℕ) (name at number : Text)
      (w w1 : World)
      → parse_word_area name ≡ ok area
      → parse_uint16 at ≡ ok address
      → parse_uint16 number ≡ ok count
      → read_words env net ctx area address count w ≡ (ok items, w1)
      → typed out (codes "readwords") (name ∷ at ∷ number ∷ []) w
        ≡ print_with_rtt env terminal out (codes "words") (words items) (env.now w1 - env.now w) w1
  unfolding handle_command
  read_words_typed out area address count items name at number w w1 p q r done =
      rw (p, q, r, done) refl

  -- Through a network whose other end is the simulator, and on a terminal apart from both: for a
  -- client that is open, connected and without an interceptor, `writewords` with an area's name, an
  -- address and words, in any decimal spelling, within the area's size, stores the words there and
  -- prints "ok"; `readwords` for as many words then prints these words. The area must be one that
  -- the client accepts, which CIO is not.
  pub typed_words :
      (out : Output) (area address v : ℕ) (vs : List ℕ) (name at number text : Text)
      (texts : List Text) (w : World) {buf : Buffer}
      → Up w
      → parse_word_area name ≡ ok area
      → check_is_word_memory_area area ≡ true
      → (server w).word_areas area ≡ some buf
      → Spells at address
      → SpellEach (text ∷ texts) (v ∷ vs)
      → Spells number (length (v ∷ vs))
      → address + length (v ∷ vs) * 2 ≤ dm_area_size
      → (w1 : World) × (w2 : World) × (typed out (codes "writewords") (name ∷ at ∷ text ∷ texts) w
          ≡ print_with_rtt env terminal out
              (codes "writewords")
              (Value.text (codes "ok"))
              (env.now w1 - env.now w)
              w1)
        × (server w1 ≡ with_words (server w) area buf address (flat (client w).byte_order (v ∷ vs)))
        × (let w' = (typed out (codes "writewords") (name ∷ at ∷ text ∷ texts) w).1 in
            typed out (codes "readwords") (name ∷ at ∷ number ∷ []) w'
            ≡ print_with_rtt env terminal out
                (codes "words")
                (words (v ∷ vs))
                (env.now w2 - env.now w')
                w2)
  unfolding print_with_rtt
  typed_words out area address v vs name at number text texts w {buf} up named c kept a ws n fits =
      let items = v ∷ vs in
      let at_parsed : parse_uint16 at ≡ ok address =
        (parse_uint16_iff at address).1 (a, omega arith) in
      let number_parsed : parse_uint16 number ≡ ok (length items) =
        (parse_uint16_iff number (length items)).1 (n, omega arith) in
      let order = (client w).byte_order in
      let (w1, done1, stored, order1, up1) =
        write_words_served env net server put_server loop ctx area address items w up c kept fits in
      let first =
        write_words_typed out area address v vs name at text texts w w1 named at_parsed
          (parse_each-SpellEach (text ∷ texts) items ws) done1 in
      let w' = (typed out (codes "writewords") (name ∷ at ∷ text ∷ texts) w).1 in
      let k : Kept w1 w' = rw first (emit_line-Kept out.mode _ w1) in
      let up' = IsUp-Kept w1 w' k up1 in
      let same_order : order ≡ (client w').byte_order = sym (ap (λ c. c.byte_order) k.0 ∙ order1) in
      let found : Server.read_words (server w') area address (length items)
          ≡ ok (flat (client w').byte_order items, normal_completion) =
        ap (λ s. Server.read_words s area address (length items)) (k.1 ∙ stored)
        ∙ stored_words_found env net server put_server loop ctx area address items order (server w)
            kept fits
        ∙ ap (λ o. ok (flat o items, normal_completion)) same_order in
      let (w2, done2, _, _) =
        read_words_served env net server put_server loop ctx area address items w' up' c
          (SpellEach-All (text ∷ texts) items ws) fits found in
      (
        w1,
        w2,
        first,
        stored,
        read_words_typed out area address (length items) items name at number w' w2 named at_parsed
            number_parsed done2,
      )
