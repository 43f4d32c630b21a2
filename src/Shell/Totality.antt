-- ===== src/Shell/Totality.antt =====
-- The parsers of examples/client/main.go return a value or an error: none of them panics.
use gofins.Base.{
  ℕ, ◌≢◌, refl, arith, Bool, List, [], ◌∷◌, Result, ok, err, panic, ◌>>=◌, >>=-ne-panic,
  unknown_word_area, unknown_bit_area, invalid_bit_value,
}
use gofins.Shell.Texts.{Text, to_lower}
use gofins.Shell.Arguments.{
  scan, scan_letter, parse_uint, named, parse_uint_with_size, parse_uint16, parse_byte, parse_each,
  parse_bool, parse_word_area, parse_bit_area, word_area_cases, bit_area_cases, bool_cases,
}
use gofins.Shell.Typing.{switch-All}
use gofins.Shell.Commands.{range_args, bit_range_args, bits_args}

scan_letter-ne-panic : (bits n c : ℕ) → scan_letter bits n c ≢ panic
unfolding scan_letter
scan_letter-ne-panic bits n c e = ground arith

scan-ne-panic : (bits n : ℕ) (s : Text) → scan bits n s ≢ panic
unfolding scan
scan-ne-panic bits n [] = λ e. cc
scan-ne-panic bits n (c ∷ s) =
    >>=-ne-panic (scan_letter bits n c) _ (scan_letter-ne-panic bits n c)
      λ m h. scan-ne-panic bits m s

named-ne-panic : (s : Text) (r : Result ℕ) → r ≢ panic → named s r ≢ panic
named-ne-panic s (ok v) h = λ e. cc
named-ne-panic s (err x) h = λ e. cc
named-ne-panic s panic h = absurd (h refl)

parse_uint-ne-panic : (bits : ℕ) (s : Text) → parse_uint bits s ≢ panic
unfolding parse_uint
parse_uint-ne-panic bits [] = λ e. cc
parse_uint-ne-panic bits (c ∷ s) = scan-ne-panic bits 0 (c ∷ s)

pub parse_uint16-ne-panic : (s : Text) → parse_uint16 s ≢ panic
unfolding parse_uint16 parse_uint_with_size
parse_uint16-ne-panic s =
    >>=-ne-panic (named s (parse_uint 16 s)) _ (named-ne-panic s _ (parse_uint-ne-panic 16 s))
      λ v h e. cc

pub parse_byte-ne-panic : (s : Text) → parse_byte s ≢ panic
unfolding parse_byte parse_uint_with_size
parse_byte-ne-panic s =
    >>=-ne-panic (named s (parse_uint 8 s)) _ (named-ne-panic s _ (parse_uint-ne-panic 8 s))
      λ v h e. cc

parse_bool-ne-panic : (s : Text) → parse_bool s ≢ panic
parse_bool-ne-panic s =
    switch-All (λ (r : Result Bool). r ≢ panic) bool_cases (err (invalid_bit_value s)) (to_lower s)
      (λ e. cc, (λ e. cc, tt)) (λ e. cc)

parse_word_area-ne-panic : (s : Text) → parse_word_area s ≢ panic
unfolding parse_word_area
parse_word_area-ne-panic s =
    switch-All (λ (r : Result ℕ). r ≢ panic) word_area_cases (err (unknown_word_area s))
      (to_lower s) (λ e. cc, (λ e. cc, (λ e. cc, (λ e. cc, (λ e. cc, tt))))) (λ e. cc)

parse_bit_area-ne-panic : (s : Text) → parse_bit_area s ≢ panic
unfolding parse_bit_area
parse_bit_area-ne-panic s =
    switch-All (λ (r : Result ℕ). r ≢ panic) bit_area_cases (err (unknown_bit_area s)) (to_lower s)
      (λ e. cc, (λ e. cc, (λ e. cc, (λ e. cc, (λ e. cc, tt))))) (λ e. cc)

parse_each-ne-panic {ℓ} :
    {A : Type ℓ} (parse : Text → Result A) (vs : List Text)
    → ((s : Text) → parse s ≢ panic)
    → parse_each parse vs ≢ panic
unfolding parse_each
parse_each-ne-panic parse [] h = λ e. cc
parse_each-ne-panic parse (s ∷ rest) h =
    >>=-ne-panic (parse s) _ (h s)
      λ v _. >>=-ne-panic (parse_each parse rest) _ (parse_each-ne-panic parse rest h) λ vs _ e. cc

pub range_args-ne-panic : (a b c : Text) → range_args a b c ≢ panic
range_args-ne-panic a b c = >>=-ne-panic (parse_word_area a) _ (parse_word_area-ne-panic a) λ _ _.
    >>=-ne-panic (parse_uint16 b) _ (parse_uint16-ne-panic b)
      λ _ _. >>=-ne-panic (parse_uint16 c) _ (parse_uint16-ne-panic c) λ _ _ e. cc

-- What bit commands begin with.
bit_place-ne-panic {ℓ} :
    {A : Type ℓ} (a b o : Text) (rest : ℕ → ℕ → ℕ → Result A)
    → ((area address bit_offset : ℕ) → rest area address bit_offset ≢ panic)
    → (parse_bit_area a >>= λ area.
        parse_uint16 b >>= λ address. parse_byte o >>= λ bit_offset. rest area address bit_offset)
      ≢ panic
bit_place-ne-panic a b o rest h =
    >>=-ne-panic (parse_bit_area a) _ (parse_bit_area-ne-panic a) λ area _.
      >>=-ne-panic (parse_uint16 b) _ (parse_uint16-ne-panic b) λ address _.
        >>=-ne-panic (parse_byte o) _ (parse_byte-ne-panic o)
          λ bit_offset _. h area address bit_offset

pub bit_range_args-ne-panic : (a b o c : Text) → bit_range_args a b o c ≢ panic
bit_range_args-ne-panic a b o c =
    bit_place-ne-panic a b o _ λ area address bit_offset.
      >>=-ne-panic (parse_uint16 c) _ (parse_uint16-ne-panic c) λ _ _ e. cc

pub bits_args-ne-panic : (a b o : Text) (vs : List Text) → bits_args a b o vs ≢ panic
bits_args-ne-panic a b o vs = bit_place-ne-panic a b o _ λ area address bit_offset.
    >>=-ne-panic (parse_each parse_bool vs) _
      (parse_each-ne-panic parse_bool vs parse_bool-ne-panic) λ _ _ e. cc

pub write_args-ne-panic :
    (parse : Text → Result ℕ) (a b : Text) (vs : List Text)
    → ((s : Text) → parse s ≢ panic)
    → ◌>>=◌ {B = ℕ × ℕ × List ℕ} (parse_word_area a) (λ area.
      parse_uint16 b >>= λ address. parse_each parse vs >>= λ values. ok (area, address, values))
      ≢ panic
write_args-ne-panic parse a b vs h =
    >>=-ne-panic (parse_word_area a) _ (parse_word_area-ne-panic a) λ _ _.
      >>=-ne-panic (parse_uint16 b) _ (parse_uint16-ne-panic b)
        λ _ _. >>=-ne-panic (parse_each parse vs) _ (parse_each-ne-panic parse vs h) λ _ _ e. cc
