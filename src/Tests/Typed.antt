-- ===== src/Tests/Typed.antt =====
-- Commands that are typed, at concrete inputs (examples/client/main.go).
use gofins.Base.{
  ℕ, ◌-◌, ◌^◌, ◌<◌, ◌≡◌, ◌↔◌, refl, arith, true, none, List, [], ◌∷◌, ok, err, eof, number_syntax,
  number_range, invalid_number, All, big_endian,
}
use gofins.Area
use gofins.Server.{new_plc_simulator}
use gofins.Server.Words.{with_words}
use gofins.Codec.{flat}
use gofins.Interceptor.{Env, Value, words}
use gofins.Interface.{ClientReader}
use gofins.Interface.Nop.{nop_reader, nop_writer}
use gofins.Shell.Texts.{codes, fields, trim_space}
use gofins.Shell.Arguments.{
  scan, scan_letter, parse_uint, parse_uint_with_size, parse_uint16, parse_byte, parse_word_area,
}
use gofins.Shell.Numbers.{Spells, parse_uint_with_size_iff}
use gofins.Shell.Output.{Output, Mode, Terminal, print_with_rtt}
use gofins.Shell.Commands.{handle_command}
use gofins.Shell.Calls.{CallsKeep, handle_command-Holds}
use gofins.Shell.EndToEnd.{Apart, typed, typed_words}
use gofins.Tests.Memory.{dm_kept, zeros}
use gofins.Tests.Direct.{dm_word_compatible}
use gofins.Tests.Network.{World, here, wire, looped, put_server, start, start-IsUp}

leading_zeros : parse_uint16 (codes "00065535") ≡ ok 65535
unfolding parse_uint16 parse_uint_with_size parse_uint scan scan_letter
leading_zeros = refl

one_too_many : parse_uint16 (codes "65536") ≡ err (invalid_number (codes "65536") number_range)
unfolding parse_uint16 parse_uint_with_size parse_uint scan scan_letter
one_too_many = refl

signed : parse_byte (codes "-1") ≡ err (invalid_number (codes "-1") number_syntax)
unfolding parse_byte parse_uint_with_size parse_uint scan scan_letter
signed = refl

split_line :
    fields (trim_space (codes "  readwords DM\t100   3 "))
    ≡ codes "readwords" ∷ codes "DM" ∷ codes "100" ∷ codes "3" ∷ []
unfolding fields
split_line = refl

parse_uint_with_size_iff_example :
    (parse_uint_with_size (codes "042") 8 ≡ ok 42) ↔ (Spells (codes "042") 42 × (42 < 256))
parse_uint_with_size_iff_example =
    parse_uint_with_size_iff 8 256 (codes "042") 42 refl (omega arith) (omega arith)

-- A terminal that shows nothing, and a quiet text output.
abbrev blank : (W : Type 0) → Terminal W
blank W = record {
  write_out = λ _ w. (none, w);
  write_error = λ _ _ w. w;
  log_error = λ _ w. w;
  print_help = λ w. w;
  new_line = λ w. w;
}

abbrev plain : Output
plain = record { mode = Mode.text; quiet = true; transport = codes "udp" }

apart : Apart here wire (λ w. w.server) tt (blank World)
apart = record {
  same_client = λ line w. refl;
  same_server = λ line w. refl;
  same_ctx_err = λ line w. refl;
}

dm_named : parse_word_area (codes "DM") ≡ ok Area.dm_word
unfolding parse_word_area
dm_named = refl

typed_words_example :
    (w1 : World) × (w2 : World) × (typed here wire
        (λ w. w.server)
        put_server
        looped
        tt
        (blank World)
        apart
        plain
        (codes "writewords")
        (codes "DM" ∷ codes "0100" ∷ codes "7" ∷ codes "65535" ∷ [])
        start
      ≡ print_with_rtt here
          (blank World)
          plain
          (codes "writewords")
          (Value.text (codes "ok"))
          (here.now w1 - here.now start)
          w1)
    × (w1.server
        ≡ with_words new_plc_simulator Area.dm_word zeros 100 (flat big_endian (7 ∷ 65535 ∷ [])))
    × (let w' =
          (typed here wire
            (λ w. w.server)
            put_server
            looped
            tt
            (blank World)
            apart
            plain
            (codes "writewords")
            (codes "DM" ∷ codes "0100" ∷ codes "7" ∷ codes "65535" ∷ [])
            start).1 in
        typed here wire
          (λ w. w.server)
          put_server
          looped
          tt
          (blank World)
          apart
          plain
          (codes "readwords")
          (codes "DM" ∷ codes "0100" ∷ codes "2" ∷ [])
          w'
        ≡ print_with_rtt here
            (blank World)
            plain
            (codes "words")
            (words (7 ∷ 65535 ∷ []))
            (here.now w2 - here.now w')
            w2)
typed_words_example =
    typed_words here wire (λ w. w.server) put_server looped tt (blank World) apart plain
      Area.dm_word 100 7 (65535 ∷ []) (codes "DM") (codes "0100") (codes "2") (codes "7")
      (codes "65535" ∷ []) start start-IsUp dm_named dm_word_compatible dm_kept
      (λ e. cc, omega arith, refl)
      (
        ((λ e. cc, omega arith, refl), omega arith),
        (((λ e. cc, omega arith, refl), omega arith), tt),
      )
      (λ e. cc, omega arith, refl) (omega arith)

-- A client that keeps the addresses that it is asked for.
abbrev listing : Env
listing = record {
  World = List ℕ;
  Ctx = Unit {0};
  ctx_err = λ _ _. none;
  sleep = λ _ w. w;
  now = λ _. 0;
}

abbrev listing_reader : ClientReader listing
listing_reader = record (nop_reader listing) {
  read_words = λ _ area address count w. (ok [], address ∷ w);
}

listing_keeps :
    CallsKeep listing listing_reader
      (nop_writer listing)
      (blank (List ℕ))
      tt
      (All (λ address. address < 2 ^ 16))
listing_keeps = record {
  read_words = λ r w p h. (p.1, h);
  read_bytes = λ r w p h. h;
  read_bits = λ r w p h. h;
  read_clock = λ w h. h;
  write_words = λ r w p h. h;
  write_bytes = λ r w p h. h;
  write_bits = λ r w p h. h;
  write_out = λ line w h. h;
  print_help = λ w h. h;
}

handle_command-Holds_example :
    All
      (λ address. address < 2 ^ 16)
      (handle_command listing listing_reader
        (nop_writer listing)
        (blank (List ℕ))
        tt
        plain
        (codes "readw")
        (codes "dm" ∷ codes "100" ∷ codes "3" ∷ [])
        []).1
handle_command-Holds_example =
    handle_command-Holds listing listing_reader (nop_writer listing) (blank (List ℕ)) tt
      (All (λ address. address < 2 ^ 16)) listing_keeps plain (codes "readw")
      (codes "dm" ∷ codes "100" ∷ codes "3" ∷ []) [] tt

-- A client without a clock.
abbrev mute : ClientReader listing
mute = record (nop_reader listing) { read_clock = λ _ w. (err eof, w) }
