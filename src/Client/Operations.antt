-- ===== src/Client/Operations.antt =====
-- The operations of the Client (client.go). WriteString, WriteBytes, SetBit, ResetBit, ReadClock
-- and the write of ToggleBit do not go through `invoke`.
use gofins.Base.{
  ℕ, zero, suc, ◌+◌, ◌*◌, ◌/◌, Bool, Option, none, some, List, [], ◌∷◌, map, Result, ok, err, panic,
  ◌>>=◌, map_result, Slice, index, reslice, to_list, length, take, ltb, if◌then◌else◌,
}
use gofins.Area.{check_is_word_memory_area, check_is_bit_memory_area}
use gofins.Protocol.{
  Response, mem_addr, mem_addr_with_bit_offset, read_command, write_command, clock_read_command,
}
use gofins.Bcd.{decode_bcd}
use gofins.Server.{Time, u16}
use gofins.Codec.{words_of, put_words, is_set, bit_byte, text_of, string_bytes}
use gofins.Interceptor.{
  Env, Operation, Value, nil_value, words, bytes, bools, Info, Invoker, Effect, invoke, Interceptor,
}
use gofins.Inline.{as_words, as_bytes, as_bools, read_info, write_info}
use gofins.Client.Exchange.{Net, after, request, wait_for_connection, prepare, perform}

-- `data[i] = r.data[i]&0x01 > 0` for `n` bits, from index `i` on.
unfoldable pub bits_of : Slice → ℕ → ℕ → Result (List Bool)
bits_of raw i zero = ok []
bits_of raw i (suc n) = do b ← index raw i; rest ← bits_of raw (i + 1) n; ok (is_set b ∷ rest)

-- `v, _ := decodeBCD(r.data[i:i+1])`: beside an error the value is zero.
unfoldable pub clock_field : Slice → ℕ → Result ℕ
clock_field raw i = do
  one ← reslice raw i (i + 1)
  ok (elim (decode_bcd (to_list one)) [ ok v ↦ v | _ ↦ 0 ])

-- The fields that ReadClock gives to time.Date, which normalises them.
unfoldable pub decode_clock : Slice → Result Time
unfolding clock_field
decode_clock raw = do
  year ← clock_field raw 0
  month ← clock_field raw 1
  day ← clock_field raw 2
  hour ← clock_field raw 3
  minute ← clock_field raw 4
  second ← clock_field raw 5
  ok (record {
    year = if ltb year 50 then year + 2000 else year + 1900;
    month = month;
    day = day;
    hour = hour;
    minute = minute;
    second = second;
  })

module _ (env : Env) (net : Net env) where
  open env use {World, Ctx}
  open net use {client, put_client}

  abbrev pub send_words : Ctx → ℕ → List ℕ → Effect env Response
  send_words ctx area command = request env net ctx (check_is_word_memory_area area) area command

  abbrev pub send_bits : Ctx → ℕ → List ℕ → Effect env Response
  send_bits ctx area command = request env net ctx (check_is_bit_memory_area area) area command

  -- What an operation makes of the response.
  abbrev pub answer {ℓ} :
      {A : Type ℓ} → (Response → Result A) → Result Response × World → Result A × World
  answer f r = after env net r λ resp w. (f resp, w)

  abbrev pub written : Result Response × World → Result Value × World
  written = answer λ _. ok nil_value

  -- `readWordsRaw`
  unfoldable pub read_words_raw : ℕ → ℕ → ℕ → Ctx → Effect env (List ℕ)
  read_words_raw area address count ctx w =
      after env net (send_words ctx area (read_command (mem_addr area address) count) w)
        λ r w'. (words_of (client w').byte_order r.body 0 count, w')

  -- The bodies that `invoke` is given.
  unfoldable pub words_read : ℕ → ℕ → ℕ → Invoker env
  unfolding read_words_raw
  words_read area address count ctx w =
      after env net (read_words_raw area address count ctx w) λ ws w'. (ok (words ws), w')

  unfoldable pub bytes_read : ℕ → ℕ → ℕ → Invoker env
  bytes_read area address count ctx w =
      answer (λ r. ok (bytes (to_list r.body)))
        (send_words ctx area (read_command (mem_addr area address) count) w)

  unfoldable pub bits_read : ℕ → ℕ → ℕ → ℕ → Invoker env
  bits_read area address bit_offset count ctx w =
      answer (λ r. map_result bools (bits_of r.body 0 count))
        (send_bits ctx area (read_command (mem_addr_with_bit_offset area address bit_offset) count)
          w)

  abbrev pub write_encoded : Ctx → ℕ → ℕ → ℕ → Result (List ℕ) → Effect env Value
  write_encoded ctx area address l (ok bts) w =
      written (perform env net ctx (write_command (mem_addr area address) l bts) w)
  write_encoded ctx area address l (err e) w = (err e, w)
  write_encoded ctx area address l panic w = (panic, w)

  unfoldable pub words_written : ℕ → ℕ → List ℕ → Invoker env
  words_written area address items ctx w =
      after env net (prepare env net ctx (check_is_word_memory_area area) area w) λ _ w1.
        let l = u16 (length items) in
        write_encoded ctx area address l
          (put_words (client w1).byte_order (u16 (2 * l)) 0 (take l items)) w1

  unfoldable pub bits_written : ℕ → ℕ → ℕ → List Bool → Invoker env
  bits_written area address bit_offset items ctx w =
      let l = u16 (length items) in
      written (
        send_bits ctx area
          (write_command (mem_addr_with_bit_offset area address bit_offset) l
            (map bit_byte (take l items)))
          w)

  -- The interceptor that is set.
  abbrev pub installed : Option net.values.Handle → Option (Interceptor env)
  installed none = none
  installed (some handle) = some (net.values.intercept handle)

  module _ (ctx : Ctx) where
    -- `invoke`
    abbrev pub run : Info → Invoker env → Effect env Value
    run info invoker w = invoke env (installed (client w).interceptor) ctx info invoker w

    abbrev pub done : Result Value × World → Result (Unit {0}) × World
    done r = after env net r λ _ w. (ok tt, w)

    unfoldable pub read_words : ℕ → ℕ → ℕ → Effect env (List ℕ)
    unfolding invoke words_read
    read_words area address count w =
        after env net
          (run (read_info Operation.read_words area address 0 count) (words_read area address count)
            w)
          (λ value w'. (as_words value, w'))

    unfoldable pub read_bytes : ℕ → ℕ → ℕ → Effect env (List ℕ)
    unfolding invoke bytes_read
    read_bytes area address count w =
        after env net
          (run (read_info Operation.read_bytes area address 0 count) (bytes_read area address count)
            w)
          (λ value w'. (as_bytes value, w'))

    unfoldable pub read_string : ℕ → ℕ → ℕ → Effect env (List ℕ)
    unfolding read_bytes text_of
    read_string area address count w =
        after env net (read_bytes area address count w) λ bs w'. (ok (text_of bs), w')

    unfoldable pub read_bits : ℕ → ℕ → ℕ → ℕ → Effect env (List Bool)
    unfolding invoke bits_read
    read_bits area address bit_offset count w =
        after env net
          (run (read_info Operation.read_bits area address bit_offset count)
            (bits_read area address bit_offset count) w)
          (λ value w'. (as_bools value, w'))

    unfoldable pub read_clock : Effect env Time
    unfolding wait_for_connection perform clock_read_command decode_clock
    read_clock w =
        after env net (wait_for_connection env net ctx w)
          λ _ w1. answer (λ r. decode_clock r.body) (perform env net ctx clock_read_command w1)

    unfoldable pub write_words : ℕ → ℕ → List ℕ → Effect env (Unit {0})
    unfolding invoke words_written
    write_words area address items w = done (
        run (write_info Operation.write_words area address 0 (words items))
          (words_written area address items) w)

    unfoldable pub write_string : ℕ → ℕ → List ℕ → Effect env (Unit {0})
    write_string area address s w =
        answer (λ _. ok tt)
          (send_words ctx area
            (write_command (mem_addr area address) (u16 ((length s + 1) / 2)) (string_bytes s)) w)

    unfoldable pub write_bytes : ℕ → ℕ → List ℕ → Effect env (Unit {0})
    write_bytes area address b w =
        answer (λ _. ok tt)
          (send_words ctx area (write_command (mem_addr area address) (u16 (length b)) b) w)

    unfoldable pub write_bits : ℕ → ℕ → ℕ → List Bool → Effect env (Unit {0})
    unfolding invoke bits_written
    write_bits area address bit_offset items w = done (
        run (write_info Operation.write_bits area address bit_offset (bools items))
          (bits_written area address bit_offset items) w)

    unfoldable pub bit_twiddle : ℕ → ℕ → ℕ → ℕ → Effect env (Unit {0})
    bit_twiddle area address bit_offset value w =
        answer (λ _. ok tt)
          (send_bits ctx area
            (write_command (mem_addr_with_bit_offset area address bit_offset) 1 (value ∷ [])) w)

    unfoldable pub set_bit : ℕ → ℕ → ℕ → Effect env (Unit {0})
    unfolding bit_twiddle
    set_bit area address bit_offset = bit_twiddle area address bit_offset 1

    unfoldable pub reset_bit : ℕ → ℕ → ℕ → Effect env (Unit {0})
    unfolding bit_twiddle
    reset_bit area address bit_offset = bit_twiddle area address bit_offset 0

    -- The write of ToggleBit, by `b[0]`.
    abbrev pub toggled : ℕ → ℕ → ℕ → List Bool → Effect env (Unit {0})
    toggled area address bit_offset [] w = (panic, w)
    toggled area address bit_offset (b ∷ bs) w =
        bit_twiddle area address bit_offset (if b then 0 else 1) w

    unfoldable pub toggle_bit : ℕ → ℕ → ℕ → Effect env (Unit {0})
    unfolding read_bits bit_twiddle
    toggle_bit area address bit_offset w =
        after env net (read_bits area address bit_offset 1 w) (toggled area address bit_offset)
