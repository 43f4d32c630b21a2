-- ===== src/Coalescer/Answering.antt =====
-- What the coalescer answers (plugin_coalescer.go), while the memory that it reads stays the same.
use gofins.Base.{
  ℕ, ◌+◌, ◌-◌, ◌≤◌, ◌<◌, Bool, true, false, ◌&&◌, Option, none, some, List, [], ◌∷◌, ◌++◌, map,
  Result, ok, err, Error, length, All, ltb, leb, ◌==◌, ==→≡, ge→ltb, ◌≡◌, refl, ap, ◌∙◌, ◌⊎◌, inl,
  inr, arith, Bool-cases, Option-cases, if◌then◌else◌,
}
use gofins.Server.{Buffer, cells, u16}
use gofins.Server.Ranges.{length-cells}
use gofins.Interceptor.{Env}
use gofins.Coalescer.{
  Coalescer, Request, Batch, Event, arrives, timer, stop, active, cancellations, answer,
  flush_active, flush_batch, flush, requests, start_batch, extend, collect, step, run, u16_sub,
  smaller, larger, is_stop, then_batch, combined_span, Step,
}
use gofins.Coalescer.Segments.{take-drop-cells}

All-append {ℓ κ} :
    {A : Type ℓ} (P : A → Type κ) (xs ys : List A) → All P xs → All P ys → All P (xs ++ ys)
All-append P [] ys hx hy = hy
All-append P (x ∷ xs) ys hx hy = (hx.0, All-append P xs ys hx.1 hy)

module _ (env : Env) (read : ℕ → ℕ → ℕ → env.World → Result (List ℕ) × env.World) (b : Coalescer)
    (memory : ℕ → Buffer)
    (reads : (area start n : ℕ) (w : env.World)
      → (read area start n w).0 ≡ ok (cells (memory area) start n)) where
  open env use {World, Ctx, ctx_err}

  -- A request whose words end before address 65536.
  abbrev pub EndsBefore : Request Ctx → Type 0
  EndsBefore req = req.address + req.count < 65536

  -- The right answer: the request's own words, or the error of its cancelled context.
  abbrev pub IsRight : Request Ctx × Result (List ℕ) → Type 0
  IsRight a =
      (a.1 ≡ ok (cells (memory a.0.area) a.0.address a.0.count))
      ⊎ ((w : World) × (e : Error) × (ctx_err a.0.ctx w ≡ some e) × (a.1 ≡ err e))

  -- A request that a read of the words from `min_addr` to `max_end` of the area covers.
  abbrev pub Covered : ℕ → ℕ → ℕ → Request Ctx → Type 0
  Covered area min_addr max_end req =
      (req.area ≡ area) × (min_addr ≤ req.address) × (req.address + req.count ≤ max_end)

  abbrev pub IsSound : Batch Ctx → Type 0
  IsSound batch =
      All (Covered batch.first.area batch.min_addr batch.max_end) (requests env read b batch)
      × (batch.max_end < 65536)

  cancellations-IsRight :
      (w : World) (batch : List (Request Ctx)) → All IsRight (cancellations env read b w batch)
  cancellations-IsRight w [] = tt
  cancellations-IsRight w (req ∷ rest) = elim (Option-cases (ctx_err req.ctx w)) [
    | inl live ↦ rw (cancellations, live) (cancellations-IsRight w rest)
    | inr (e, gone) ↦
        rw (cancellations, gone) (inr (w, e, gone, refl), cancellations-IsRight w rest)
  ]

  active-Covered :
      (area lo hi : ℕ) (w : World) (batch : List (Request Ctx))
      → All (Covered area lo hi) batch
      → All (Covered area lo hi) (active env read b w batch)
  active-Covered area lo hi w [] h = tt
  active-Covered area lo hi w (req ∷ rest) (c, h) = elim (Option-cases (ctx_err req.ctx w)) [
    | inl live ↦ rw (active, live) (c, active-Covered area lo hi w rest h)
    | inr (e, gone) ↦ rw (active, gone) (active-Covered area lo hi w rest h)
  ]

  answer-IsRight :
      (area lo hi : ℕ) (req : Request Ctx)
      → hi < 65536
      → Covered area lo hi req
      → IsRight (answer env read b lo (ok (cells (memory area) lo (u16_sub hi lo))) req)
  answer-IsRight area lo hi req small (same, from, to) =
      let span : u16_sub hi lo ≡ hi - lo = omega arith in
      let start : u16_sub req.address lo ≡ req.address - lo = omega arith in
      let size = length-cells (memory area) lo (hi - lo) in
      let long : ltb (hi - lo) (req.address - lo + req.count) ≡ false =
        ge→ltb (hi - lo) (req.address - lo + req.count) (omega arith) in
      let found =
        take-drop-cells (memory area) lo (req.address - lo) req.count (hi - lo) (omega arith) in
      let place : lo + (req.address - lo) ≡ req.address = omega arith in
      rw (span, start, size, long) (inl (ap ok (found ∙ rw (place, same) refl)))

  answers-IsRight :
      (area lo hi : ℕ) (list : List (Request Ctx))
      → hi < 65536
      → All (Covered area lo hi) list
      → All IsRight (map (answer env read b lo (ok (cells (memory area) lo (u16_sub hi lo)))) list)
  answers-IsRight area lo hi [] small h = tt
  answers-IsRight area lo hi (req ∷ rest) small (c, h) =
      (answer-IsRight area lo hi req small c, answers-IsRight area lo hi rest small h)

  answered-IsRight :
      (area lo hi : ℕ) (list : List (Request Ctx)) (r : Result (List ℕ))
      → r ≡ ok (cells (memory area) lo (u16_sub hi lo))
      → hi < 65536
      → All (Covered area lo hi) list
      → All IsRight (map (answer env read b lo r) list)
  answered-IsRight area lo hi list r e small h = rw e (answers-IsRight area lo hi list small h)

  flush_active-IsRight :
      (area lo hi : ℕ) (list : List (Request Ctx)) (w : World)
      → hi < 65536
      → All (Covered area lo hi) list
      → All IsRight (flush_active env read b lo hi list w).0
  flush_active-IsRight area lo hi [] w small h = tt
  flush_active-IsRight area lo hi (req ∷ rest) w small (c, h) =
      let n = u16_sub hi lo in
      let found : (read req.area lo n w).0 ≡ ok (cells (memory area) lo n) =
        reads req.area lo n w ∙ ap (λ a. ok (cells (memory a) lo n)) c.0 in
      answered-IsRight area lo hi (req ∷ rest) (read req.area lo n w).0 found small (c, h)

  flush-IsRight :
      (batch : Batch Ctx) (w : World) → IsSound batch → All IsRight (flush env read b batch w).0
  unfolding flush_batch
  flush-IsRight batch w (covered, small) =
      All-append IsRight (cancellations env read b w (requests env read b batch)) _
        (cancellations-IsRight w (requests env read b batch))
        (flush_active-IsRight batch.first.area batch.min_addr batch.max_end
          (active env read b w (requests env read b batch)) w small
          (active-Covered batch.first.area batch.min_addr batch.max_end w
            (requests env read b batch) covered))

  start_batch-IsSound : (req : Request Ctx) → EndsBefore req → IsSound (start_batch env read b req)
  start_batch-IsSound req h =
      let end : u16 (req.address + req.count) ≡ req.address + req.count = omega arith in
      (((refl, omega arith, omega arith), tt), omega arith)

  wider :
      (area lo hi lo' hi' : ℕ) (list : List (Request Ctx))
      → lo' ≤ lo
      → hi ≤ hi'
      → All (Covered area lo hi) list
      → All (Covered area lo' hi') list
  wider area lo hi lo' hi' [] l h c = tt
  wider area lo hi lo' hi' (req ∷ rest) l h ((same, from, to), c) =
      ((same, omega arith, omega arith), wider area lo hi lo' hi' rest l h c)

  smaller_le : (x y : ℕ) → (smaller x y ≤ x) × (smaller x y ≤ y)
  smaller_le x y = (ground arith, ground arith)

  larger_ge : (x y : ℕ) → (x ≤ larger x y) × (y ≤ larger x y)
  larger_ge x y = (ground arith, ground arith)

  larger_lt : (x y n : ℕ) → x < n → y < n → larger x y < n
  larger_lt x y n h k = ground arith

  extend-IsSound :
      (batch : Batch Ctx) (req : Request Ctx)
      → IsSound batch
      → EndsBefore req
      → req.area ≡ batch.first.area
      → IsSound (extend env read b batch req)
  extend-IsSound batch req (covered, small) h same =
      let end : u16 (req.address + req.count) ≡ req.address + req.count = omega arith in
      let lo = smaller batch.min_addr req.address in
      let hi = larger batch.max_end (u16 (req.address + req.count)) in
      let (lo1, lo2) = smaller_le batch.min_addr req.address in
      let (hi1, hi2) = larger_ge batch.max_end (u16 (req.address + req.count)) in
      let all =
        wider batch.first.area batch.min_addr batch.max_end lo hi (requests env read b batch) lo1
          hi1 covered in
      (
        (
          all.0,
          All-append (Covered batch.first.area lo hi) batch.others (req ∷ []) all.1
              ((same, lo2, omega arith), tt),
        ),
        larger_lt batch.max_end (u16 (req.address + req.count)) 65536 small (omega arith),
      )

  abbrev pub NextSound : Option (Batch Ctx) → Type 0
  NextSound none = Unit
  NextSound (some batch) = IsSound batch

  -- A step whose answers are right, and whose next batch is sound.
  abbrev pub StepRight : Step env read b → Type 0
  StepRight s = All IsRight s.0 × NextSound s.1

  StepRight-if :
      (c : Bool) (x y : Step env read b)
      → StepRight x
      → StepRight y
      → StepRight (if c then x else y)
  StepRight-if true x y h k = h
  StepRight-if false x y h k = k

  collect-StepRight :
      (batch : Batch Ctx) (req : Request Ctx) (w : World)
      → IsSound batch
      → EndsBefore req
      → StepRight (collect env read b batch req w)
  unfolding collect flush_batch
  collect-StepRight batch req w sound h =
      let renewed : Step env read b =
        then_batch env read b (some (start_batch env read b req)) (flush env read b batch w) in
      let grown = extend env read b batch req in
      let full : Step env read b = then_batch env read b none (flush env read b grown w) in
      let kept : Step env read b = ([], some grown, w) in
      let is_full = leb b.max_span (u16 (combined_span env read b grown)) in
      let fits = leb (combined_span env read b grown) b.max_span in
      let fresh : StepRight renewed = (flush-IsRight batch w sound, start_batch-IsSound req h) in
      let placed : StepRight (
          if req.area == batch.first.area && fits
          then (if is_full then full else kept)
          else renewed) =
        elim (Bool-cases (req.area == batch.first.area)) [
          | inr other ↦ rw other fresh
          | inl found ↦
              let sound' =
                extend-IsSound batch req sound h (==→≡ req.area batch.first.area found) in
              rw found (
                StepRight-if fits (if is_full then full else kept) renewed
                  (StepRight-if is_full full kept (flush-IsRight grown w sound', tt) (tt, sound'))
                  fresh)
        ] in
      StepRight-if (ltb 0 b.max_batch && leb b.max_batch (length (requests env read b batch)))
        renewed _ fresh placed

  abbrev pub Arriving : Event Ctx → Type 0
  Arriving (arrives req) = EndsBefore req
  Arriving timer = Unit
  Arriving stop = Unit

  step-StepRight :
      (state : Option (Batch Ctx)) (event : Event Ctx) (w : World)
      → NextSound state
      → Arriving event
      → StepRight (step env read b state event w)
  unfolding step flush_batch
  step-StepRight none (arrives req) w sound h = (tt, start_batch-IsSound req h)
  step-StepRight none timer w sound h = (tt, tt)
  step-StepRight none stop w sound h = (tt, tt)
  step-StepRight (some batch) timer w sound h = (flush-IsRight batch w sound, tt)
  step-StepRight (some batch) stop w sound h = (tt, tt)
  step-StepRight (some batch) (arrives req) w sound h = elim (Option-cases (ctx_err req.ctx w)) [
    | inl live ↦ rw (step, live) (collect-StepRight batch req w sound h)
    | inr (e, over) ↦ rw (step, over) ((inr (w, e, over, refl), tt), sound)
  ]

  -- While the memory stays the same and reading it succeeds: for requests that end before address
  -- 65536, in any order and mix of areas, with timers and a stop at any place, every answer that
  -- the coalescer gives is the words that the request would have read alone, or the error of its
  -- own cancelled context.
  pub run-IsRight :
      (state : Option (Batch Ctx)) (events : List (Event Ctx)) (w : World)
      → NextSound state
      → All Arriving events
      → All IsRight (run env read b state events w).0
  unfolding run
  run-IsRight state [] w sound h = tt
  run-IsRight state (event ∷ events) w sound (a, h) =
      let s = step env read b state event w in
      let right = step-StepRight state event w sound a in
      let more = run-IsRight s.1 events s.2 right.1 h in
      elim (Bool-cases (is_stop env read b event)) [
        | inl last ↦ rw last right.0
        | inr on ↦ rw on (All-append IsRight s.0 _ right.0 more)
      ]
