-- ===== src/Codec.antt =====
-- How both clients turn words, bits and strings into bytes and back (client.go, inline_client.go).
use mathlib.Core.List.{append_assoc}
use gofins.Base.{
  ℕ, zero, suc, ◌+◌, ◌*◌, ◌<◌, ◌≤◌, Bool, true, false, List, [], ◌∷◌, ◌++◌, Result, ok, check,
  ◌>>=◌, ◌>>◌, Slice, of_list, ByteOrder, big_endian, little_endian, put_u16, get_u16, u16_at,
  u16_at_lem, length, get_or, replicate, ltb, leb, ◌==◌, if◌then◌else◌, bit_and, arith, ◌≡◌, refl,
  ap, ◌∙◌, All, length-append, le→leb,
}

-- `data[i] = order.Uint16(raw[i*2 : i*2+2])` for `n` words, from byte `lo` on.
unfoldable pub words_of : ByteOrder → Slice → ℕ → ℕ → Result (List ℕ)
words_of order raw lo zero = ok []
words_of order raw lo (suc n) = do
  x ← u16_at order raw lo
  rest ← words_of order raw (lo + 2) n
  ok (x ∷ rest)

-- `order.PutUint16(bts[i*2:i*2+2], data[i])` into a slice of `size` bytes, from byte `lo` on. All
-- bytes are written where `size` is twice the number of words.
unfoldable pub put_words : ByteOrder → ℕ → ℕ → List ℕ → Result (List ℕ)
put_words order size lo [] = ok []
put_words order size lo (x ∷ xs) =
    check (leb (lo + 2) size)
    >> (put_words order size (lo + 2) xs >>= λ rest. ok (put_u16 order x ++ rest))

-- `raw[i]&0x01 > 0`
abbrev pub is_set : ℕ → Bool
is_set b = ltb 0 (bit_and b 1)

abbrev pub bit_byte : Bool → ℕ
bit_byte true = 1
bit_byte false = 0

-- `string(data[:n])`, where `n` is the place of the first zero byte, or the length.
unfoldable pub text_of : List ℕ → List ℕ
text_of [] = []
text_of (b ∷ bs) = if b == 0 then [] else (b ∷ text_of bs)

-- `bts := make([]byte, 2*len(s)); copy(bts, s)`
unfoldable pub string_bytes : List ℕ → List ℕ
string_bytes s = s ++ replicate (length s) 0

abbrev pub IsWord : ℕ → Type 0
IsWord x = x < 65536

-- The bytes of words.
abbrev pub flat : ByteOrder → List ℕ → List ℕ
flat order [] = []
flat order (x ∷ xs) = put_u16 order x ++ flat order xs

pub length-flat : (order : ByteOrder) (xs : List ℕ) → length (flat order xs) ≡ length xs * 2
length-flat order [] = omega arith
length-flat big_endian (x ∷ xs) = omega (arith, length-flat big_endian xs)
length-flat little_endian (x ∷ xs) = omega (arith, length-flat little_endian xs)

pub put_words_lem :
    (order : ByteOrder) (size lo : ℕ) (xs : List ℕ)
    → lo + length xs * 2 ≤ size
    → put_words order size lo xs ≡ ok (flat order xs)
unfolding put_words
put_words_lem order size lo [] h = refl
put_words_lem order size lo (x ∷ xs) h =
    rw (le→leb (lo + 2) size (omega arith), put_words_lem order size (lo + 2) xs (omega arith)) refl

length-put_u16 : (order : ByteOrder) (x : ℕ) → length (put_u16 order x) ≡ 2
length-put_u16 big_endian x = refl
length-put_u16 little_endian x = refl

get_or-append : (xs ys : List ℕ) (i d : ℕ) → get_or (xs ++ ys) (length xs + i) d ≡ get_or ys i d
get_or-append [] ys i d = ap (λ j. get_or ys j d) (omega arith)
get_or-append (x ∷ xs) ys i d =
    let e : suc (length xs) + i ≡ suc (length xs + i) = omega arith in
    rw e (get_or-append xs ys i d)

-- A word read where it was put.
u16_at-put_u16 :
    (order : ByteOrder) (pre : List ℕ) (x : ℕ) (rest : List ℕ)
    → IsWord x
    → u16_at order (of_list (pre ++ (put_u16 order x ++ rest))) (length pre) ≡ ok x
u16_at-put_u16 order pre x rest w =
    u16_at_lem order (of_list (pre ++ (put_u16 order x ++ rest))) (length pre) (fits order)
    ∙ (let a = get_or-append pre (put_u16 order x ++ rest) 0 0 in
        let b = get_or-append pre (put_u16 order x ++ rest) 1 0 in
        let e : length pre + 0 ≡ length pre = omega arith in
        rw (rw e at a, b) (ap ok (same_word order)))
  where
    fits : (order : ByteOrder) → length pre + 2 ≤ length (pre ++ (put_u16 order x ++ rest))
    fits big_endian = omega (arith, length-append pre (put_u16 big_endian x ++ rest))
    fits little_endian = omega (arith, length-append pre (put_u16 little_endian x ++ rest))

    same_word :
        (order : ByteOrder)
        → get_u16 order
            (get_or (put_u16 order x ++ rest) 0 0)
            (get_or (put_u16 order x ++ rest) 1 0)
          ≡ x
    same_word big_endian = omega arith
    same_word little_endian = omega arith

pub words_of-flat :
    (order : ByteOrder) (pre : List ℕ) (xs : List ℕ)
    → All IsWord xs
    → words_of order (of_list (pre ++ flat order xs)) (length pre) (length xs) ≡ ok xs
unfolding words_of
words_of-flat order pre [] w = refl
words_of-flat order pre (x ∷ xs) (w, ws) =
    let pre' = pre ++ put_u16 order x in
    let assoc : pre' ++ flat order xs ≡ pre ++ (put_u16 order x ++ flat order xs) =
      append_assoc pre (put_u16 order x) (flat order xs) in
    let size : length pre' ≡ length pre + 2 =
      length-append pre (put_u16 order x) ∙ ap (λ n. length pre + n) (length-put_u16 order x) in
    let ih = words_of-flat order pre' xs ws in
    rw (u16_at-put_u16 order pre x (flat order xs) w, rw (assoc, size) at ih) refl
