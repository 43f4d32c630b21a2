-- ===== src/Shell/Texts.antt =====
-- What examples/client/main.go uses of package strings: ToLower, TrimSpace and Fields, on the code
-- points of a text. Letters outside ASCII matter only where their lower case is an ASCII letter.
use Prim.Native.Char.{code}
use Prim.Native.String.{String}
use gofins.Base.{ℕ, ◌+◌, Bool, false, ◌&&◌, ◌||◌, List, [], ◌∷◌, map, leb, ◌==◌, if◌then◌else◌}
use gofins.Plugin.{same_name}

abbrev pub Text : Type 0
Text = List ℕ

-- The code points of a literal.
abbrev pub codes : String → Text
codes String.[] = []
codes (String.◌∷◌ c s) = code c ∷ codes s

-- A case of a `switch`: the text is one of these.
abbrev pub is_any : List String → Text → Bool
is_any [] s = false
is_any (t ∷ ts) s = same_name (codes t) s || is_any ts s

-- A `switch` on a text: the value of the first case that has it, or the default.
abbrev pub switch {ℓ} : {A : Type ℓ} → List (List String × A) → A → Text → A
switch [] otherwise s = otherwise
switch ((names, a) ∷ cases) otherwise s = if is_any names s then a else switch cases otherwise s

-- unicode.ToLower: A to Z, and the two letters U+0130 and U+212A whose lower case is ASCII.
abbrev pub lower : ℕ → ℕ
lower c =
    if leb b'A' c && leb c b'Z'
    then c + 32
    else if c == 0x130
    then b'i'
    else if c == 0x212a
    then b'k'
    else c

abbrev pub to_lower : Text → Text
to_lower = map lower

-- unicode.IsSpace
abbrev pub is_space : ℕ → Bool
is_space c =
    (leb 9 c && leb c 13)
    || (c == b' '
        || (c == 0x85
            || (c == 0xa0
                || (c == 0x1680
                    || ((leb 0x2000 c && leb c 0x200a)
                        || (c == 0x2028
                            || (c == 0x2029 || (c == 0x202f || (c == 0x205f || c == 0x3000)))))))))

abbrev pub trim_left : Text → Text
trim_left [] = []
trim_left (c ∷ s) = let rest = trim_left s in if is_space c then rest else c ∷ s

-- A blank stays before what is not trimmed away.
abbrev pub keep_before : ℕ → Text → Text
keep_before c [] = if is_space c then [] else c ∷ []
keep_before c (d ∷ s) = c ∷ d ∷ s

abbrev pub trim_right : Text → Text
trim_right [] = []
trim_right (c ∷ s) = keep_before c (trim_right s)

abbrev pub trim_space : Text → Text
trim_space s = trim_right (trim_left s)

-- A letter before a text and the words of that text: it starts the first word, or is its own.
abbrev pub put_letter : ℕ → Text → List Text → List Text
put_letter c [] found = (c ∷ []) ∷ found
put_letter c (d ∷ s) [] = (c ∷ []) ∷ []
put_letter c (d ∷ s) (word ∷ found) =
    if is_space d then (c ∷ []) ∷ word ∷ found else (c ∷ word) ∷ found

unfoldable pub fields : Text → List Text
fields [] = []
fields (c ∷ s) = let found = fields s in if is_space c then found else put_letter c s found
