-- ===== src/Inline/RoundTrip.antt =====
-- What the inline client's reads give after its writes (inline_client.go).
use mathlib.Core.List.{append-nil}
use gofins.Base.{
  ℕ, ◌+◌, ◌*◌, ◌≤◌, ◌<◌, Bool, true, false, not, none, some, List, [], ◌∷◌, map, ok, Result, ◌≡◌,
  refl, sym, ap, ◌∙◌, arith, All, length, ByteOrder, take_all, if◌then◌else◌, length-map, ◌-◌, ◌==◌,
  le→leb,
}
use gofins.Area.{check_is_word_memory_area, check_is_bit_memory_area}
use gofins.Protocol.{normal_completion}
use gofins.Server
use gofins.Server.{Server, Buffer, Time, dm_area_size, u16}
use gofins.Server.Words.{read_words-write_words, with_words, write_words_ok}
use gofins.Server.Bits.{read_bits-write_bits, with_bits, write_bits_ok}
use gofins.Codec.{flat, length-flat, put_words_lem, words_of-flat, IsWord, is_set, bit_byte}
use gofins.Interceptor.{Env, Value, nil_value, words, bools, invoke, Invoker, Info, Operation}
use gofins.Inline.{
  InlineClient, ready, check_open, finish_with, as_words, as_bools, read_info, write_info,
  read_words_body, write_words_body, read_words, write_words, read_bits, toggle_bit, bit_twiddle,
  read_bits_body, bit_twiddle_body,
}

is_set-bit_byte : (bs : List Bool) → map is_set (map bit_byte bs) ≡ bs
is_set-bit_byte [] = refl
is_set-bit_byte (true ∷ bs) = ap (λ t. true ∷ t) (is_set-bit_byte bs)
is_set-bit_byte (false ∷ bs) = ap (λ t. false ∷ t) (is_set-bit_byte bs)

module _ (env : Env) (server : env.World → Server) (put_server : Server → env.World → env.World)
    (time_now : env.World → Time) where
  open env use {World, Ctx, ctx_err}

  -- An operation that is let through: the context is live and the simulator is open.
  abbrev pub IsLive : Ctx → World → Type 0
  IsLive ctx w = (ctx_err ctx w ≡ none) × ((server w).closed ≡ false)

  -- Without an interceptor an operation is its body.
  pub invoke_plain {ℓ} :
      {A : Type ℓ} (ic : InlineClient env server put_server time_now)
      → ic.interceptor ≡ none
      → (ctx : Ctx) (info : Info) (body : Invoker env) (f : Value → Result A) (w : World)
      → finish_with env server put_server time_now f (invoke env ic.interceptor ctx info body w)
        ≡ finish_with env server put_server time_now f (body ctx w)
  unfolding invoke
  invoke_plain ic plain ctx info body f w = rw plain refl

  ready_ok :
      (ctx : Ctx) (w : World) (is_compatible : Bool) (area : ℕ)
      → IsLive ctx w
      → is_compatible ≡ true
      → ready env server put_server time_now ctx w is_compatible area ≡ ok tt
  ready_ok ctx w is_compatible area (live, open_) c = rw (ready, check_open, live, open_, c) refl

  read_words_body_ok :
      (order : ByteOrder) (area address : ℕ) (items : List ℕ) (ctx : Ctx) (w : World)
      → IsLive ctx w
      → check_is_word_memory_area area ≡ true
      → All IsWord items
      → Server.read_words (server w) area address (length items)
        ≡ ok (flat order items, normal_completion)
      → read_words_body env server put_server time_now order area address (length items) ctx w
        ≡ (ok (words items), w)
  unfolding read_words_body
  read_words_body_ok order area address items ctx w live c ws found =
      rw
        (
          ready_ok ctx w (check_is_word_memory_area area) area live c,
          found,
          words_of-flat order [] items ws,
        )
        refl

  write_words_body_ok :
      (order : ByteOrder) (area address : ℕ) (items : List ℕ) (ctx : Ctx) (w : World) {s : Server}
      → IsLive ctx w
      → check_is_word_memory_area area ≡ true
      → length items < 32768
      → Server.write_words (server w) area address (length items) (flat order items)
        ≡ ok (normal_completion, s)
      → write_words_body env server put_server time_now order area address items ctx w
        ≡ (ok nil_value, put_server s w)
  unfolding write_words_body
  write_words_body_ok order area address items ctx w live c small written =
      let l : u16 (length items) ≡ length items = omega arith in
      let size : u16 (2 * length items) ≡ 2 * length items = omega arith in
      rw
        (
          ready_ok ctx w (check_is_word_memory_area area) area live c,
          l,
          size,
          take_all items,
          put_words_lem order (2 * length items) 0 items (omega arith),
          written,
        )
        refl

  read_bits_body_ok :
      (area address bit_offset : ℕ) (bs : List Bool) (ctx : Ctx) (w : World)
      → IsLive ctx w
      → check_is_bit_memory_area area ≡ true
      → Server.read_bits (server w) area address bit_offset (length bs)
        ≡ ok (map bit_byte bs, normal_completion)
      → read_bits_body env server put_server time_now area address bit_offset (length bs) ctx w
        ≡ (ok (bools bs), w)
  unfolding read_bits_body
  read_bits_body_ok area address bit_offset bs ctx w live c found =
      let size : length (map bit_byte bs) ≡ length bs = length-map bs bit_byte in
      let none_left : length bs - length bs ≡ 0 = omega arith in
      rw
        (
          ready_ok ctx w (check_is_bit_memory_area area) area live c,
          found,
          size,
          le→leb (length bs) (length bs) (omega arith),
          none_left,
          append-nil (map is_set (map bit_byte bs)),
          is_set-bit_byte bs,
        )
        refl

  bit_twiddle_body_ok :
      (area address bit_offset value : ℕ) (ctx : Ctx) (w : World) {s : Server}
      → IsLive ctx w
      → check_is_bit_memory_area area ≡ true
      → Server.write_bits (server w) area address bit_offset 1 (value ∷ [])
        ≡ ok (normal_completion, s)
      → bit_twiddle_body env server put_server time_now area address bit_offset value ctx w
        ≡ (ok nil_value, put_server s w)
  unfolding bit_twiddle_body
  bit_twiddle_body_ok area address bit_offset value ctx w live c written =
      rw (ready_ok ctx w (check_is_bit_memory_area area) area live c, written) refl

-- The simulator is a part of the world apart from contexts.
pub record Laws (env : Env) (server : env.World → Server)
    (put_server : Server → env.World → env.World) : Type 0 where
  pub server-put_server : (s : Server) (w : env.World) → server (put_server s w) ≡ s
  pub ctx_err-put_server :
      (ctx : env.Ctx) (s : Server) (w : env.World)
      → env.ctx_err ctx (put_server s w) ≡ env.ctx_err ctx w

module _ (env : Env) (server : env.World → Server) (put_server : Server → env.World → env.World)
    (time_now : env.World → Time) (laws : Laws env server put_server)
    (ic : InlineClient env server put_server time_now) (ctx : env.Ctx) where
  open env use {World}

  after-IsLive :
      (w : World) (s : Server)
      → IsLive env server put_server time_now ctx w
      → s.closed ≡ false
      → IsLive env server put_server time_now ctx (put_server s w)
  after-IsLive w s (live, open_) closed = (
    laws.ctx_err-put_server ctx s w ∙ live,
    ap (λ t. t.closed) (laws.server-put_server s w) ∙ closed,
  )

  -- Without an interceptor, while the context is live and the simulator is open: words written to
  -- a word area that is kept, within its size, are what is read back, in either byte order.
  pub write_words_read_back :
      (area address : ℕ) (items : List ℕ) (w : World) {buf : Buffer}
      → ic.interceptor ≡ none
      → IsLive env server put_server time_now ctx w
      → check_is_word_memory_area area ≡ true
      → (server w).word_areas area ≡ some buf
      → All IsWord items
      → address + length items * 2 ≤ dm_area_size
      → (w' : World) × (write_words env server put_server time_now ic ctx area address items w
          ≡ (ok tt, w'))
        × (read_words env server put_server time_now ic ctx area address (length items) w'
            ≡ (ok items, w'))
  unfolding write_words read_words invoke
  write_words_read_back area address items w {buf} plain live c kept ws fits =
      let bytes = flat ic.byte_order items in
      let size : length bytes ≡ length items * 2 = length-flat ic.byte_order items in
      let s' = with_words (server w) area buf address bytes in
      let written : Server.write_words (server w) area address (length items) bytes
          ≡ ok (normal_completion, s') =
        write_words_ok (server w) area address (length items) bytes kept fits size in
      let (s1, written1, found, _, _) =
        read_words-write_words (server w) area address (length items) bytes kept fits size in
      let same : s1 ≡ s' = cc in
      let found' : Server.read_words (server (put_server s' w)) area address (length items)
          ≡ ok (bytes, normal_completion) =
        rw (laws.server-put_server s' w, sym same) found in
      (
        put_server s' w,
        invoke_plain env server put_server time_now ic plain ctx
              (write_info Operation.write_words area address 0 (words items))
              (write_words_body env server put_server time_now ic.byte_order area address items)
              (λ _. ok tt) w
            ∙ ap (finish_with env server put_server time_now (λ _. ok tt)) (
                write_words_body_ok env server put_server time_now ic.byte_order area address items
                  ctx w live c (omega arith) written),
        invoke_plain env server put_server time_now ic plain ctx
              (read_info Operation.read_words area address 0 (length items))
              (read_words_body env server put_server time_now ic.byte_order area address
                (length items))
              as_words (put_server s' w)
            ∙ ap (finish_with env server put_server time_now as_words) (
                read_words_body_ok env server put_server time_now ic.byte_order area address items
                  ctx (put_server s' w) (after-IsLive w s' live live.1) c ws found'),
      )

  -- Without an interceptor, while the context is live and the simulator is open: toggling a bit of
  -- a bit area that is kept, within its size, makes the client read the opposite bit there.
  pub toggle_bit_read_back :
      (area address bit_offset : ℕ) (b : Bool) (w : World) {buf : Buffer}
      → ic.interceptor ≡ none
      → IsLive env server put_server time_now ctx w
      → check_is_bit_memory_area area ≡ true
      → (server w).bit_areas area ≡ some buf
      → address + bit_offset + 1 ≤ dm_area_size
      → read_bits env server put_server time_now ic ctx area address bit_offset 1 w
        ≡ (ok (b ∷ []), w)
      → (w' : World) × (toggle_bit env server put_server time_now ic ctx area address bit_offset w
          ≡ (ok tt, w'))
        × (read_bits env server put_server time_now ic ctx area address bit_offset 1 w'
            ≡ (ok (not b ∷ []), w'))
  unfolding toggle_bit read_bits bit_twiddle
  toggle_bit_read_back area address bit_offset b w {buf} plain live c kept fits before =
      let value = bit_byte (not b) in
      let s' = with_bits (server w) area buf (address + bit_offset) (value ∷ []) in
      let written : Server.write_bits (server w) area address bit_offset 1 (value ∷ [])
          ≡ ok (normal_completion, s') =
        write_bits_ok (server w) area address bit_offset (value ∷ []) kept fits in
      let (s1, written1, found, _, _) =
        read_bits-write_bits (server w) area address bit_offset (value ∷ []) kept fits in
      let same : s1 ≡ s' = cc in
      let found' : Server.read_bits (server (put_server s' w)) area address bit_offset 1
          ≡ ok (value ∷ [], normal_completion) =
        rw (laws.server-put_server s' w, sym same) found in
      let value_is : (if b then 0 else 1) ≡ value = toggled b in
      (
        put_server s' w,
        rw (before, value_is)
            (invoke_plain env server put_server time_now ic plain ctx
                (write_info Operation.toggle_bit area address bit_offset
                  (bools ((value == 1) ∷ [])))
                (bit_twiddle_body env server put_server time_now area address bit_offset value)
                (λ _. ok tt) w
              ∙ ap (finish_with env server put_server time_now (λ _. ok tt)) (
                  bit_twiddle_body_ok env server put_server time_now area address bit_offset value
                    ctx w live c written)),
        invoke_plain env server put_server time_now ic plain ctx
              (read_info Operation.read_bits area address bit_offset 1)
              (read_bits_body env server put_server time_now area address bit_offset 1) as_bools
              (put_server s' w)
            ∙ ap (finish_with env server put_server time_now as_bools) (
                read_bits_body_ok env server put_server time_now area address bit_offset
                  (not b ∷ []) ctx (put_server s' w) (after-IsLive w s' live live.1) c found'),
      )
    where
      toggled : (b : Bool) → (if b then 0 else 1) ≡ bit_byte (not b)
      toggled true = refl
      toggled false = refl
