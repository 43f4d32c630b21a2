-- ===== src/Tcp/Framing.antt =====
-- Frames on a FINS/TCP stream (transport.go).
use gofins.Base.{
  ℕ, ◌+◌, ◌*◌, ◌/◌, ◌%◌, ◌^◌, ◌≤◌, ◌<◌, ◌≡◌, refl, none, some, true, Result, panic, Option, ◌>>=◌,
  ◌↔◌, List, [], ◌∷◌, ◌++◌, ok, err, arith, length, length-append, length-take, length-drop, drop,
  take-append, drop-append, le→leb, ge→ltb, Error, leb, ap, ◌≢◌, inl, inr, Result-cases, >>=-eq-ok,
  >>=-ne-panic,
}
use gofins.Tcp.{
  Message, Reader, fins_tcp_frame, read_full, read_frame, read_tcp_message, put_u32, get_u32,
  signature, frame_length, message_of, or_context,
}

u32_lem :
    (x : ℕ)
    → x < 2 ^ 32
    → x / 2 ^ 24 % 256 * 2 ^ 24 + x / 2 ^ 16 % 256 * 2 ^ 16 + x / 2 ^ 8 % 256 * 2 ^ 8 + x % 256 ≡ x
u32_lem x h = omega arith

pub read_full-append :
    (xs rest : List ℕ) (ending : Error)
    → read_full (length xs) (record { bytes = xs ++ rest; ending = ending })
      ≡ ok (xs, record { bytes = rest; ending = ending })
unfolding read_full
read_full-append xs rest ending =
    let room : leb (length xs) (length (xs ++ rest)) ≡ true =
      le→leb _ _ (omega (arith, length-append xs rest)) in
    rw (room, take-append xs rest, drop-append xs rest)

-- What the header's length field announces.
abbrev rest_of_frame : ℕ → List ℕ → List ℕ
rest_of_frame command body = put_u32 command ++ (put_u32 0 ++ body)

length_field :
    (body : List ℕ)
    → length body + 8 < 2 ^ 32
    → frame_length (signature ++ put_u32 ((length body + 8) % 2 ^ 32)) ≡ ok (length body + 8)
length_field body h =
    let e : (length body + 8) % 2 ^ 32 ≡ length body + 8 = omega arith in
    rw (e, u32_lem (length body + 8) h, ge→ltb (length body + 8) 8 (omega arith))

message_of_frame :
    (command : ℕ) (body : List ℕ)
    → command < 2 ^ 32
    → message_of (rest_of_frame command body)
      ≡ ok (record { command = command; error_code = 0; body = body })
message_of_frame command body h = rw (u32_lem command h)

-- A frame at the front of a stream is read back whole, and the bytes behind it stay.
pub read_tcp_message-fins_tcp_frame :
    (command : ℕ) (body rest : List ℕ) (ending : Error)
    → command < 2 ^ 32
    → length body + 8 < 2 ^ 32
    → read_tcp_message (record { bytes = fins_tcp_frame command body ++ rest; ending = ending })
      ≡ ok (
        record { command = command; error_code = 0; body = body },
        record { bytes = rest; ending = ending },
      )
unfolding read_tcp_message fins_tcp_frame
read_tcp_message-fins_tcp_frame command body rest ending hc hb =
    let header = signature ++ put_u32 ((length body + 8) % 2 ^ 32) in
    let size : length body + 8 ≡ length (rest_of_frame command body) = omega arith in
    let r : Reader = record { bytes = rest; ending = ending } in
    let last : (message_of (rest_of_frame command body) >>= λ message. ok (message, r))
        ≡ ok (record { command = command; error_code = 0; body = body }, r) =
      ap (λ m. m >>= λ message. ok (message, r)) (message_of_frame command body hc) in
    rw
      (
        read_tcp_message,
        read_full-append header (rest_of_frame command body ++ rest) ending,
        length_field body hb,
        size,
        read_full-append (rest_of_frame command body) rest ending,
      )
      last

or_context_iff :
    {A B : Type 0} (c : Option Error) (m : Result A) (f g : A → Result B) (x : B)
    → ((a : A) → (f a ≡ ok x) ↔ (g a ≡ ok x))
    → ((or_context c m >>= f) ≡ ok x) ↔ ((m >>= g) ≡ ok x)
or_context_iff none (ok a) f g x h = h a
or_context_iff none (err _) f g x h = ((λ e. cc), (λ e. cc))
or_context_iff none panic f g x h = ((λ e. cc), (λ e. cc))
or_context_iff (some _) (ok a) f g x h = h a
or_context_iff (some _) (err _) f g x h = ((λ e. cc), (λ e. cc))
or_context_iff (some _) panic f g x h = ((λ e. cc), (λ e. cc))

bind_iff :
    {A B : Type 0} (m : Result A) (f g : A → Result B) (x : B)
    → ((a : A) → (f a ≡ ok x) ↔ (g a ≡ ok x))
    → ((m >>= f) ≡ ok x) ↔ ((m >>= g) ≡ ok x)
bind_iff (ok a) f g x h = h a
bind_iff (err _) f g x h = ((λ e. cc), (λ e. cc))
bind_iff panic f g x h = ((λ e. cc), (λ e. cc))

-- The client and the simulator read the same frames: with a live context `readFrame` is
-- `readTCPMessage`, and whatever the context, a frame that one returns the other returns.
pub read_frame-read_tcp_message :
    (ctx_err : Option Error) (r : Reader) (x : Message × Reader)
    → (read_frame none r ≡ read_tcp_message r)
      × ((read_frame ctx_err r ≡ ok x) ↔ (read_tcp_message r ≡ ok x))
unfolding read_frame read_tcp_message
read_frame-read_tcp_message ctx_err r x = (
  refl,
  or_context_iff ctx_err (read_full 8 r) _ _ x (λ header.
      bind_iff (frame_length (header.0)) _ _ x (λ length.
        or_context_iff ctx_err (read_full length (header.1)) _ _ x (λ body. ((λ h. h), (λ h. h))))),
)

-- What a full read takes off the stream.
pub read_full_takes :
    (n : ℕ) (r : Reader) {xs : List ℕ} {r' : Reader}
    → read_full n r ≡ ok (xs, r')
    → (length xs ≡ n) × (length r.bytes ≡ n + length r'.bytes) × (r'.ending ≡ r.ending)
unfolding read_full
read_full_takes n r h = ground (arith, length-take n r.bytes, length-drop n r.bytes)

get_u32_total : (xs : List ℕ) → 4 ≤ length xs → (x : ℕ) × (get_u32 xs ≡ ok x)
get_u32_total [] h = absurd (omega arith)
get_u32_total (a ∷ []) h = absurd (omega arith)
get_u32_total (a ∷ b ∷ []) h = absurd (omega arith)
get_u32_total (a ∷ b ∷ c ∷ []) h = absurd (omega arith)
get_u32_total (a ∷ b ∷ c ∷ d ∷ _) h = (a * 2 ^ 24 + b * 2 ^ 16 + c * 2 ^ 8 + d, refl)

get_u32-ne-panic : (xs : List ℕ) → 4 ≤ length xs → get_u32 xs ≢ panic
get_u32-ne-panic xs h e = let (x, found) = get_u32_total xs h in cc

frame_length-ne-panic : (header : List ℕ) → length header ≡ 8 → frame_length header ≢ panic
frame_length-ne-panic header h =
    let (n, found) = get_u32_total (drop 4 header) (omega (arith, length-drop 4 header)) in
    ground (arith, found)

frame_length_le : (header : List ℕ) {n : ℕ} → frame_length header ≡ ok n → 8 ≤ n
frame_length_le header h = elim (Result-cases (get_u32 (drop 4 header))) [
  | inl (n, found) ↦ ground (arith, found)
  | inr bad ↦ ground (arith, bad)
]

message_of-ne-panic : (body : List ℕ) → 8 ≤ length body → message_of body ≢ panic
message_of-ne-panic body h =
    let (c, found_c) = get_u32_total body (omega arith) in
    let (e, found_e) = get_u32_total (drop 4 body) (omega (arith, length-drop 4 body)) in
    ground (arith, found_c, found_e)

read_full-ne-panic : (n : ℕ) (r : Reader) → read_full n r ≢ panic
unfolding read_full
read_full-ne-panic n r = ground arith

-- A message that was read took at least sixteen bytes off the stream.
pub read_tcp_message_takes :
    (r : Reader) {m : Message} {rest : Reader}
    → read_tcp_message r ≡ ok (m, rest)
    → length rest.bytes + 16 ≤ length r.bytes
unfolding read_tcp_message
read_tcp_message_takes r {m} {rest} h =
    let (header, e1, h1) = >>=-eq-ok (read_full 8 r) _ h in
    let (n, e2, h2) = >>=-eq-ok (frame_length header.0) _ h1 in
    let (body, e3, h3) = >>=-eq-ok (read_full n header.1) _ h2 in
    let (message, e4, h4) = >>=-eq-ok (message_of body.0) _ h3 in
    let same : body.1 ≡ rest = ground arith in
    ground (
      arith,
      same,
      read_full_takes 8 r e1,
      frame_length_le (header.0) e2,
      read_full_takes n (header.1) e3,
    )

-- No stream makes `readTCPMessage` panic.
pub read_tcp_message-ne-panic : (r : Reader) → read_tcp_message r ≢ panic
unfolding read_tcp_message
read_tcp_message-ne-panic r = >>=-ne-panic (read_full 8 r) _ (read_full-ne-panic 8 r) (λ header e1.
    >>=-ne-panic (frame_length (header.0)) _
      (frame_length-ne-panic (header.0) ((read_full_takes 8 r e1).0))
      (λ n e2. >>=-ne-panic (read_full n (header.1)) _ (read_full-ne-panic n (header.1)) (λ body e3.
        >>=-ne-panic (message_of (body.0)) _
          (message_of-ne-panic (body.0)
            (omega (arith, (read_full_takes n (header.1) e3).0, frame_length_le (header.0) e2)))
          (λ message e4 p. cc))))
