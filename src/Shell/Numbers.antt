-- ===== src/Shell/Numbers.antt =====
-- What parseUintWithSize accepts (examples/client/main.go), against the number that digits spell.
use mathlib.Core.List.{foldl, cons-ne-nil}
use native.Mathlib.Decide.{dec_lt}
use gofins.Base.{
  ℕ, ◌+◌, ◌-◌, ◌*◌, ◌/◌, ◌%◌, ◌^◌, ◌≤◌, ◌<◌, ◌≡◌, ◌≢◌, ◌↔◌, refl, ap, sym, ◌∙◌, arith, [], ◌∷◌,
  Result, ok, err, panic, All, >>=-eq-ok, ◌>>=◌,
}
use gofins.Shell.Texts.{Text}
use gofins.Shell.Arguments.{
  scan_letter, scan, parse_uint, parse_uint_with_size, parse_uint16, parse_byte, named,
}

abbrev pub IsDigit : ℕ → Type 0
IsDigit c = (b'0' ≤ c) × (c ≤ b'9')

-- The number that digits spell behind `n`, with no bound.
abbrev pub value : ℕ → Text → ℕ
value = foldl (λ n c. n * 10 + (c - b'0'))

-- A text spells a number: digits, at least one, leading zeros included.
abbrev pub Spells : Text → ℕ → Type 0
Spells s n = (s ≢ []) × All IsDigit s × (value 0 s ≡ n)

le-value : (s : Text) (n : ℕ) → n ≤ value n s
le-value [] n = omega arith
le-value (c ∷ s) n = omega (arith, le-value s (n * 10 + (c - b'0')))

module _ (bits m : ℕ) (width : 2 ^ bits ≡ m) (lo : 0 < m) (hi : m ≤ 2 ^ 64) where
  -- One round of the loop, on a digit that the number has room for.
  scan_letter_fits :
      (c n : ℕ)
      → IsDigit c
      → n * 10 + (c - b'0') < m
      → scan_letter bits n c ≡ ok (n * 10 + (c - b'0'))
  unfolding scan_letter
  scan_letter_fits c n d fits =
      let tens : n * 10 % 2 ^ 64 ≡ n * 10 = omega arith in
      let sum : (n * 10 + (c - b'0')) % 2 ^ 64 ≡ n * 10 + (c - b'0') = omega arith in
      rw (tens, sum, width) (ground arith)

  scan_letter_sound :
      (c n : ℕ) {r : ℕ}
      → n < m
      → scan_letter bits n c ≡ ok r
      → IsDigit c × (n * 10 + (c - b'0') ≡ r) × (r < m)
  unfolding scan_letter
  scan_letter_sound c n {r} fits done = elim (dec_lt n ((2 ^ 64 - 1) / 10 + 1)) [
    | yes small ↦
        let tens : n * 10 % 2 ^ 64 ≡ n * 10 = omega arith in
        let done' = rw (tens, width) at done in ground arith
    | no big ↦ ground arith
  ]

  scan_complete :
      (s : Text) (n : ℕ) → All IsDigit s → value n s < m → scan bits n s ≡ ok (value n s)
  unfolding scan
  scan_complete [] n _ _ = refl
  scan_complete (c ∷ s) n (d, ds) fits =
      rw (scan_letter_fits c n d (omega (arith, le-value s (n * 10 + (c - b'0')))))
        (scan_complete s (n * 10 + (c - b'0')) ds fits)

  scan_sound :
      (s : Text) (n : ℕ) {r : ℕ}
      → n < m
      → scan bits n s ≡ ok r
      → All IsDigit s × (value n s ≡ r) × (r < m)
  unfolding scan
  scan_sound [] n fits done = ground arith
  scan_sound (c ∷ s) n fits done =
      let (k, first, rest) = >>=-eq-ok (scan_letter bits n c) (λ k. scan bits k s) done in
      let (d, e, small) = scan_letter_sound c n fits first in
      let (ds, last, bound) = scan_sound s k small rest in ((d, ds), rw e last, bound)

named-eq-ok : (s : Text) (r : Result ℕ) {n : ℕ} → named s r ≡ ok n → r ≡ ok n
named-eq-ok s (ok v) h = h
named-eq-ok s (err e) h = cc
named-eq-ok s panic h = cc

-- The parser of a size reads exactly the numbers of that size: a text is accepted with a number if
-- the text is a decimal spelling of it and the number fits, and only then.
pub parse_uint_with_size_iff :
    (bits m : ℕ) (s : Text) (n : ℕ)
    → 2 ^ bits ≡ m
    → 0 < m
    → m ≤ 2 ^ 64
    → (parse_uint_with_size s bits ≡ ok n) ↔ (Spells s n × (n < m))
unfolding parse_uint_with_size parse_uint
parse_uint_with_size_iff bits m [] n width lo hi = (λ h. cc, λ h. absurd (h.0.0 refl))
parse_uint_with_size_iff bits m (c ∷ s) n width lo hi = (
  λ h.
      let (ds, e, fits) =
        scan_sound bits m width lo hi (c ∷ s) 0 lo (named-eq-ok (c ∷ s) (scan bits 0 (c ∷ s)) h) in
      ((cons-ne-nil c s, ds, e), fits),
  λ (h : Spells (c ∷ s) n × (n < m)).
      ap (named (c ∷ s))
        (scan_complete bits m width lo hi (c ∷ s) 0 h.0.1 (omega (arith, h.0.2, h.1)))
      ∙ ap ok h.0.2,
)

-- The conversion behind the parser loses nothing.
parse_narrowed :
    (m : ℕ) (r : Result ℕ) (n : ℕ)
    → 0 < m
    → ((k : ℕ) → r ≡ ok k → k < m)
    → ((r >>= λ v. ok (v % m)) ≡ ok n) ↔ (r ≡ ok n)
parse_narrowed m (ok v) n lo small =
    let fits : v < m = small v refl in
    let e : v % m ≡ v = grind arith in (λ h. ap ok (sym e) ∙ h, λ h. ap ok e ∙ h)
parse_narrowed m (err e) n lo small = (λ h. cc, λ h. cc)
parse_narrowed m panic n lo small = (λ h. cc, λ h. cc)

pub parse_uint16_iff : (s : Text) (n : ℕ) → (parse_uint16 s ≡ ok n) ↔ (Spells s n × (n < 2 ^ 16))
unfolding parse_uint16
parse_uint16_iff s n =
    let sized =
      λ (k : ℕ). parse_uint_with_size_iff 16 (2 ^ 16) s k refl (omega arith) (omega arith) in
    let same =
      parse_narrowed (2 ^ 16) (parse_uint_with_size s 16) n (omega arith)
        λ k h. ((sized k).0 h).1 in
    (λ h. (sized n).0 (same.0 h), λ h. same.1 ((sized n).1 h))

pub parse_byte_iff : (s : Text) (n : ℕ) → (parse_byte s ≡ ok n) ↔ (Spells s n × (n < 2 ^ 8))
unfolding parse_byte
parse_byte_iff s n =
    let sized =
      λ (k : ℕ). parse_uint_with_size_iff 8 (2 ^ 8) s k refl (omega arith) (omega arith) in
    let same =
      parse_narrowed (2 ^ 8) (parse_uint_with_size s 8) n (omega arith) λ k h. ((sized k).0 h).1 in
    (λ h. (sized n).0 (same.0 h), λ h. same.1 ((sized n).1 h))
