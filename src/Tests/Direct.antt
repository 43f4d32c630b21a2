-- ===== src/Tests/Direct.antt =====
-- The inline client at concrete inputs (inline_client.go): the world is the simulator alone.
use gofins.Base.{
  ℕ, ◌≡◌, refl, arith, true, false, not, none, List, [], ◌∷◌, ok, little_endian, length,
}
use gofins.Area
use gofins.Area.{check_is_word_memory_area, check_is_bit_memory_area}
use gofins.Server
use gofins.Server.{Server, Time, new_plc_simulator}
use gofins.Interceptor.{Env}
use gofins.Inline.{InlineClient, read_words, write_words, read_bits, toggle_bit}
use gofins.Inline.RoundTrip.{write_words_read_back, toggle_bit_read_back, Laws}
use gofins.Tests.Memory.{noon, dm_kept, dm_bits_kept}

abbrev plain_env : Env
plain_env = record {
  World = Server;
  Ctx = Unit {0};
  ctx_err = λ _ _. none;
  sleep = λ _ w. w;
  now = λ _. 0;
}

abbrev itself : Server → Server
itself s = s

abbrev replace : Server → Server → Server
replace s w = s

abbrev at_noon : Server → Time
at_noon _ = noon

abbrev client : InlineClient plain_env itself replace at_noon
client = record { byte_order = little_endian; interceptor = none }

plain-Laws : Laws plain_env itself replace
plain-Laws = record { server-put_server = λ s w. refl; ctx_err-put_server = λ ctx s w. refl }

abbrev pub three : List ℕ
three = 1 ∷ 515 ∷ 65535 ∷ []

pub dm_word_compatible : check_is_word_memory_area Area.dm_word ≡ true
unfolding check_is_word_memory_area
dm_word_compatible = refl

dm_bit_compatible : check_is_bit_memory_area Area.dm_bit ≡ true
unfolding check_is_bit_memory_area
dm_bit_compatible = refl

simulator_open : new_plc_simulator.closed ≡ false
unfolding new_plc_simulator
simulator_open = refl

write_words_read_back_example :
    (w' : Server) × (write_words plain_env itself replace at_noon client tt Area.dm_word 100 three
        new_plc_simulator
      ≡ (ok tt, w'))
    × (read_words plain_env itself replace at_noon client tt Area.dm_word 100 (length three) w'
        ≡ (ok three, w'))
write_words_read_back_example =
    write_words_read_back plain_env itself replace at_noon plain-Laws client tt Area.dm_word 100
      three new_plc_simulator refl (refl, simulator_open) dm_word_compatible dm_kept
      (omega arith, (omega arith, (omega arith, tt))) (omega arith)

bit_is_clear :
    read_bits plain_env itself replace at_noon client tt Area.dm_bit 40 3 1 new_plc_simulator
    ≡ (ok (false ∷ []), new_plc_simulator)
unfolding read_bits new_plc_simulator check_is_bit_memory_area Server.read_bits
bit_is_clear = refl

toggle_bit_read_back_example :
    (w' : Server) × (toggle_bit plain_env itself replace at_noon client tt Area.dm_bit 40 3
        new_plc_simulator
      ≡ (ok tt, w'))
    × (read_bits plain_env itself replace at_noon client tt Area.dm_bit 40 3 1 w'
        ≡ (ok (not false ∷ []), w'))
toggle_bit_read_back_example =
    toggle_bit_read_back plain_env itself replace at_noon plain-Laws client tt Area.dm_bit 40 3
      false new_plc_simulator refl (refl, simulator_open) dm_bit_compatible dm_bits_kept
      (omega arith) bit_is_clear
