-- ===== src/Shell/Typing.antt =====
-- The types of the arguments that the parsers of examples/client/main.go return.
use Prim.Native.String.{String}
use gofins.Base.{
  ℕ, ◌^◌, ◌<◌, ◌≡◌, refl, Bool, true, List, [], ◌∷◌, Result, ok, err, panic, unknown_word_area,
  unknown_bit_area, ◌>>=◌, Ensures, Ensures-bind, Ensures-after, All, Bool-cases, inl, inr,
}
use gofins.Area.{is_word_area, is_bit_area}
use gofins.Shell.Texts.{Text, is_any, switch, to_lower}
use gofins.Shell.Arguments.{
  parse_uint16, parse_byte, parse_each, parse_bool, parse_word_area, parse_bit_area,
  word_area_cases, bit_area_cases,
}
use gofins.Shell.Numbers.{parse_uint16_iff, parse_byte_iff}
use gofins.Shell.Commands.{range_args, bit_range_args, bits_args}

abbrev pub IsWord : ℕ → Type 0
IsWord v = v < 2 ^ 16

abbrev pub IsByte : ℕ → Type 0
IsByte v = v < 2 ^ 8

abbrev pub IsWordArea : ℕ → Type 0
IsWordArea area = is_word_area area ≡ true

abbrev pub IsBitArea : ℕ → Type 0
IsBitArea area = is_bit_area area ≡ true

Ensures-eq {ℓ κ} :
    {A : Type ℓ} (P : A → Type κ) (r : Result A) → ((a : A) → r ≡ ok a → P a) → Ensures P r
Ensures-eq P (ok a) h = h a refl
Ensures-eq P (err e) h = tt
Ensures-eq P panic h = tt

pub parse_uint16-IsWord : (s : Text) → Ensures IsWord (parse_uint16 s)
parse_uint16-IsWord s = Ensures-eq IsWord (parse_uint16 s) λ n h. ((parse_uint16_iff s n).0 h).1

pub parse_byte-IsByte : (s : Text) → Ensures IsByte (parse_byte s)
parse_byte-IsByte s = Ensures-eq IsByte (parse_byte s) λ n h. ((parse_byte_iff s n).0 h).1

parse_each-All {ℓ κ} :
    {A : Type ℓ} (P : A → Type κ) (parse : Text → Result A) (vs : List Text)
    → ((s : Text) → Ensures P (parse s))
    → Ensures (All P) (parse_each parse vs)
unfolding parse_each
parse_each-All P parse [] h = tt
parse_each-All P parse (s ∷ rest) h = Ensures-bind P (All P) (parse s) _ (h s) λ v p.
    Ensures-bind (All P) (All P) (parse_each parse rest) _ (parse_each-All P parse rest h)
      λ vs ps. (p, ps)

pub switch-All {ℓ κ} :
    {A : Type ℓ} (P : A → Type κ) (cases : List (List String × A)) (otherwise : A) (s : Text)
    → All (λ c. P c.1) cases
    → P otherwise
    → P (switch cases otherwise s)
switch-All P [] otherwise s h d = d
switch-All P ((names, a) ∷ cases) otherwise s (h, hs) d = elim (Bool-cases (is_any names s)) [
  | inl e ↦ rw e h
  | inr e ↦ rw e (switch-All P cases otherwise s hs d)
]

pub parse_word_area-IsWordArea : (s : Text) → Ensures IsWordArea (parse_word_area s)
unfolding parse_word_area is_word_area
parse_word_area-IsWordArea s =
    switch-All (Ensures IsWordArea) word_area_cases (err (unknown_word_area s)) (to_lower s)
      (refl, (refl, (refl, (refl, (refl, tt))))) tt

pub parse_bit_area-IsBitArea : (s : Text) → Ensures IsBitArea (parse_bit_area s)
unfolding parse_bit_area is_bit_area
parse_bit_area-IsBitArea s =
    switch-All (Ensures IsBitArea) bit_area_cases (err (unknown_bit_area s)) (to_lower s)
      (refl, (refl, (refl, (refl, (refl, tt))))) tt

abbrev pub WordRange : ℕ × ℕ × ℕ → Type 0
WordRange (area, address, count) = IsWordArea area × IsWord address × IsWord count

abbrev pub BitRange : ℕ × ℕ × ℕ × ℕ → Type 0
BitRange (area, address, bit_offset, count) =
    IsBitArea area × IsWord address × IsByte bit_offset × IsWord count

abbrev pub WordWrite : (ℕ → Type 0) → ℕ × ℕ × List ℕ → Type 0
WordWrite P (area, address, values) = IsWordArea area × IsWord address × All P values

abbrev pub BitWrite : ℕ × ℕ × ℕ × List Bool → Type 0
BitWrite (area, address, bit_offset, values) = IsBitArea area × IsWord address × IsByte bit_offset

pub range_args-WordRange : (a b c : Text) → Ensures WordRange (range_args a b c)
range_args-WordRange a b c =
    Ensures-bind IsWordArea WordRange (parse_word_area a) _ (parse_word_area-IsWordArea a) λ area p.
      Ensures-bind IsWord WordRange (parse_uint16 b) _ (parse_uint16-IsWord b) λ address q.
        Ensures-bind IsWord WordRange (parse_uint16 c) _ (parse_uint16-IsWord c)
          λ count r. (p, q, r)

pub bit_range_args-BitRange : (a b o c : Text) → Ensures BitRange (bit_range_args a b o c)
bit_range_args-BitRange a b o c =
    Ensures-bind IsBitArea BitRange (parse_bit_area a) _ (parse_bit_area-IsBitArea a) λ area p.
      Ensures-bind IsWord BitRange (parse_uint16 b) _ (parse_uint16-IsWord b) λ address q.
        Ensures-bind IsByte BitRange (parse_byte o) _ (parse_byte-IsByte o) λ bit_offset r.
          Ensures-bind IsWord BitRange (parse_uint16 c) _ (parse_uint16-IsWord c)
            λ count t. (p, q, r, t)

-- Of both writes of words and bytes.
pub write_args-WordWrite :
    (P : ℕ → Type 0) (parse : Text → Result ℕ) (a b : Text) (vs : List Text)
    → ((s : Text) → Ensures P (parse s))
    → Ensures (WordWrite P) (
        parse_word_area a >>= λ area.
        parse_uint16 b >>= λ address. parse_each parse vs >>= λ values. ok (area, address, values))
write_args-WordWrite P parse a b vs h =
    Ensures-bind IsWordArea (WordWrite P) (parse_word_area a) _ (parse_word_area-IsWordArea a)
      λ area p.
        Ensures-bind IsWord (WordWrite P) (parse_uint16 b) _ (parse_uint16-IsWord b) λ address q.
          Ensures-bind (All P) (WordWrite P) (parse_each parse vs) _ (parse_each-All P parse vs h)
            λ values r. (p, q, r)

pub bits_args-BitWrite : (a b o : Text) (vs : List Text) → Ensures BitWrite (bits_args a b o vs)
bits_args-BitWrite a b o vs =
    Ensures-bind IsBitArea BitWrite (parse_bit_area a) _ (parse_bit_area-IsBitArea a) λ area p.
      Ensures-bind IsWord BitWrite (parse_uint16 b) _ (parse_uint16-IsWord b) λ address q.
        Ensures-bind IsByte BitWrite (parse_byte o) _ (parse_byte-IsByte o)
          λ bit_offset r. Ensures-after BitWrite (parse_each parse_bool vs) _ λ values. (p, q, r)
