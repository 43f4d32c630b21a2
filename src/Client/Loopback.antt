-- ===== src/Client/Loopback.antt =====
-- The reads and writes of words of the Client on a network to the simulator (client.go, driver.go,
-- server.go): the operations' effect on the simulator's memory.
use mathlib.Core.List.{append-nil}
use gofins.Base.{
  ℕ, ◌+◌, ◌*◌, ◌≤◌, true, some, List, [], ◌++◌, ok, of_list, length, take, take_all, ◌≡◌, sym, ap,
  ◌∙◌, All, ByteOrder, arith,
}
use gofins.Area.{check_is_word_memory_area}
use gofins.Area.Disjoint.{word_area_kept}
use gofins.Protocol.{
  normal_completion, read_command, write_command, mem_addr, memory_area_read, memory_area_write,
}
use gofins.Server
use gofins.Server.{Server, Buffer, Time, dm_area_size, serve, u16}
use gofins.Server.Words.{with_words, write_words_ok, read_words-write_words}
use gofins.Server.EndToEnd.{reply, serve_write_words, serve-read_words}
use gofins.Codec.{IsWord, flat, length-flat, put_words, put_words_lem, words_of, words_of-flat}
use gofins.Interceptor.{Env, invoke, words, nil_value, Operation}
use gofins.Inline.{read_info, write_info, as_words}
use gofins.Client.State.{next_header}
use gofins.Client.Exchange.{Net, perform, request, check_response, after}
use gofins.Client.Operations.{
  read_words, write_words, words_read, words_written, read_words_raw, written, write_encoded, done,
  installed,
}
use gofins.Client.Serving.{
  Loopback, IsUp, next, perform_served, prepare-IsUp, own_sid, decoded_response, frame_exact,
}

module _ (env : Env) (net : Net env) (server : env.World → Server)
    (put_server : Server → env.World → env.World) (loop : Loopback env net server put_server)
    (ctx : env.Ctx) where
  open env use {World, ctx_err}
  open net use {client, put_client}

  -- Words that fit a word area, written through the network.
  words_written_served :
      (area address : ℕ) (items : List ℕ) (w : World) {buf : Buffer}
      → IsUp env net server put_server loop ctx w
      → check_is_word_memory_area area ≡ true
      → (server w).word_areas area ≡ some buf
      → address + length items * 2 ≤ dm_area_size
      → (w' : World) × (words_written env net area address items ctx w ≡ (ok nil_value, w'))
        × (server w' ≡ with_words (server w) area buf address (flat (client w).byte_order items))
        × ((client w').byte_order ≡ (client w).byte_order)
        × IsUp env net server put_server loop ctx w'
  unfolding words_written check_response
  words_written_served area address items w {buf} up c kept fits =
      let order = (client w).byte_order in
      let bytes = flat order items in
      let n = length items in
      let size : length bytes ≡ n * 2 = length-flat order items in
      let l : u16 n ≡ n = omega arith in
      let double : u16 (2 * n) ≡ 2 * n = omega arith in
      let encoded : put_words order (u16 (2 * u16 n)) 0 (take (u16 n) items) ≡ ok bytes =
        rw (l, double, take_all items, put_words_lem order (2 * n) 0 items (omega arith)) in
      let h = next_header (next env net server put_server loop ctx w) in
      let r = reply h memory_area_write normal_completion [] in
      let command = write_command (mem_addr area address) n bytes in
      let s = with_words (server w) area buf address bytes in
      let (w', done, stored, order', up') =
        perform_served env net server put_server loop ctx command w r s up (omega arith)
          (omega arith)
          (own_sid env net server put_server loop ctx memory_area_write normal_completion [] w)
          (λ now.
            ap (λ f. serve (server w) f now) (frame_exact h command)
            ∙ serve_write_words (server w) h area address n bytes [] now (word_area_kept area c).0
                kept fits size) in
      (
        w',
        ap
              (λ t. after env net t (λ _ w1.
                write_encoded env net ctx area address (u16 n)
                  (put_words (client w1).byte_order (u16 (2 * u16 n)) 0 (take (u16 n) items)) w1))
              (prepare-IsUp env net server put_server loop ctx w (check_is_word_memory_area area)
                area up c)
            ∙ ap (λ p. write_encoded env net ctx area address (u16 n) p w) encoded
            ∙ ap
                (λ k.
                  written env net
                    (perform env net ctx (write_command (mem_addr area address) k bytes) w))
                l
            ∙ ap (written env net) done,
        stored,
        order',
        up',
      )

  words_read_served :
      (area address : ℕ) (items : List ℕ) (w : World)
      → IsUp env net server put_server loop ctx w
      → check_is_word_memory_area area ≡ true
      → All IsWord items
      → address + length items * 2 ≤ dm_area_size
      → Server.read_words (server w) area address (length items)
        ≡ ok (flat (client w).byte_order items, normal_completion)
      → (w' : World) × (words_read env net area address (length items) ctx w
          ≡ (ok (words items), w'))
        × (server w' ≡ server w)
        × IsUp env net server put_server loop ctx w'
  unfolding words_read read_words_raw request check_response
  words_read_served area address items w up c ws fits found =
      let order = (client w).byte_order in
      let n = length items in
      let h = next_header (next env net server put_server loop ctx w) in
      let r = reply h memory_area_read normal_completion (flat order items) in
      let command = read_command (mem_addr area address) n in
      let (w', done, stored, order', up') =
        perform_served env net server put_server loop ctx command w r (server w) up (omega arith)
          (omega arith)
          (own_sid env net server put_server loop ctx memory_area_read normal_completion
            (flat order items) w)
          (λ now.
            ap (λ f. serve (server w) f now) (frame_exact h command)
            ∙ serve-read_words (server w) h area address n [] now (word_area_kept area c).0
                (omega arith) (omega arith) found) in
      let sliced : (decoded_response r).body ≡ of_list (flat order items) =
        ap (λ t. record { elems = t ++ []; len = length t }) (take_all (flat order items))
        ∙ ap (λ t. record { elems = t; len = length (flat order items) })
            (append-nil (flat order items)) in
      let decoded : words_of (client w').byte_order (decoded_response r).body 0 n ≡ ok items =
        ap (λ o. words_of o (decoded_response r).body 0 n) order'
        ∙ ap (λ b. words_of order b 0 n) sliced
        ∙ words_of-flat order [] items ws in
      let sent : request env net ctx (check_is_word_memory_area area) area command w
          ≡ (ok (decoded_response r), w') =
        ap (λ t. after env net t (λ _ w1. perform env net ctx command w1))
          (prepare-IsUp env net server put_server loop ctx w (check_is_word_memory_area area) area
            up c)
        ∙ done in
      (
        w',
        ap
              (λ t.
                after env net
                  (after env net t (λ r w1. (words_of (client w1).byte_order r.body 0 n, w1)))
                  (λ ws w1. (ok (words ws), w1)))
              sent
            ∙ ap (λ t. after env net (t, w') (λ ws w1. (ok (words ws), w1))) decoded,
        stored,
        up',
      )

  -- `WriteWords` and `ReadWords`, which the simulator at the other end serves.
  pub write_words_served :
      (area address : ℕ) (items : List ℕ) (w : World) {buf : Buffer}
      → IsUp env net server put_server loop ctx w
      → check_is_word_memory_area area ≡ true
      → (server w).word_areas area ≡ some buf
      → address + length items * 2 ≤ dm_area_size
      → (w' : World) × (write_words env net ctx area address items w ≡ (ok tt, w'))
        × (server w' ≡ with_words (server w) area buf address (flat (client w).byte_order items))
        × ((client w').byte_order ≡ (client w).byte_order)
        × IsUp env net server put_server loop ctx w'
  unfolding write_words invoke
  write_words_served area address items w up c kept fits =
      let (w1, done1, stored, order1, up1) =
        words_written_served area address items w up c kept fits in
      (
        w1,
        ap
              (λ i. done env net ctx (
                invoke env (installed env net i) ctx
                  (write_info Operation.write_words area address 0 (words items))
                  (words_written env net area address items) w))
              up.plain
            ∙ ap (done env net ctx) done1,
        stored,
        order1,
        up1,
      )

  pub read_words_served :
      (area address : ℕ) (items : List ℕ) (w : World)
      → IsUp env net server put_server loop ctx w
      → check_is_word_memory_area area ≡ true
      → All IsWord items
      → address + length items * 2 ≤ dm_area_size
      → Server.read_words (server w) area address (length items)
        ≡ ok (flat (client w).byte_order items, normal_completion)
      → (w' : World) × (read_words env net ctx area address (length items) w ≡ (ok items, w'))
        × (server w' ≡ server w)
        × IsUp env net server put_server loop ctx w'
  unfolding read_words invoke
  read_words_served area address items w up c ws fits found =
      let (w2, done2, stored2, up2) = words_read_served area address items w up c ws fits found in
      let n = length items in
      (
        w2,
        ap
              (λ i.
                after env net
                  (invoke env (installed env net i) ctx
                    (read_info Operation.read_words area address 0 n)
                    (words_read env net area address n) w)
                  (λ value w'. (as_words value, w')))
              up.plain
            ∙ ap (λ t. after env net t (λ value w'. (as_words value, w'))) done2,
        stored2,
        up2,
      )

  -- What the simulator reads where words were stored.
  pub stored_words_found :
      (area address : ℕ) (items : List ℕ) (order : ByteOrder) (s : Server) {buf : Buffer}
      → s.word_areas area ≡ some buf
      → address + length items * 2 ≤ dm_area_size
      → Server.read_words
          (with_words s area buf address (flat order items))
          area
          address
          (length items)
        ≡ ok (flat order items, normal_completion)
  stored_words_found area address items order s kept fits =
      let bytes = flat order items in
      let n = length items in
      let size : length bytes ≡ n * 2 = length-flat order items in
      let (s1, written1, found, _, _) =
        read_words-write_words s area address n bytes kept fits size in
      let written = write_words_ok s area address n bytes kept fits size in cc

  -- Through a network whose other end is the simulator, for a client that is open, connected and
  -- without an interceptor: words written to a word area that is kept, within its size, are stored
  -- there, and are what the client reads back, in either byte order.
  pub write_words_through :
      (area address : ℕ) (items : List ℕ) (w : World) {buf : Buffer}
      → IsUp env net server put_server loop ctx w
      → check_is_word_memory_area area ≡ true
      → (server w).word_areas area ≡ some buf
      → All IsWord items
      → address + length items * 2 ≤ dm_area_size
      → (w1 : World) × (write_words env net ctx area address items w ≡ (ok tt, w1))
        × (server w1 ≡ with_words (server w) area buf address (flat (client w).byte_order items))
        × (w2 : World) × (read_words env net ctx area address (length items) w1 ≡ (ok items, w2))
  write_words_through area address items w {buf} up c kept ws fits =
      let (w1, done1, stored, order1, up1) =
        write_words_served area address items w up c kept fits in
      let found : Server.read_words (server w1) area address (length items)
          ≡ ok (flat (client w1).byte_order items, normal_completion) =
        ap (λ s. Server.read_words s area address (length items)) stored
        ∙ stored_words_found area address items (client w).byte_order (server w) kept fits
        ∙ ap (λ o. ok (flat o items, normal_completion)) (sym order1) in
      let (w2, done2, stored2, up2) = read_words_served area address items w1 up1 c ws fits found in
      (w1, done1, stored, w2, done2)
