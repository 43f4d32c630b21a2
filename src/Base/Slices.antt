-- ===== src/Base/Slices.antt =====
-- Go byte slices. `elems` runs up to the slice's capacity and `len` is its length: indexing is
-- checked against the length, and reslicing against the capacity.
use Prim.Native.Nat.{ℕ, ◌+◌, ◌-◌, ◌*◌, ◌/◌, ◌%◌, ◌<◌, ◌≤◌}
use mathlib.Core.Path.{◌≡◌}
use mathlib.Core.Bool.{◌&&◌}
use mathlib.Core.List.{List, [], ◌∷◌}
use native.Mathlib.Omega.{arith}
use gofins.Base.Tests.{ltb, leb, if◌then◌else◌}
use gofins.Base.Lists.{length, get_elem?, get_or, take, drop, get_elem?-drop, get_elem?_lt}
use gofins.Base.Results.{Result, ok, panic, ◌>>=◌, or_panic}

pub record Slice : Type 0 where
  pub elems : List ℕ
  pub len : ℕ

-- A slice that is as long as its array.
abbrev pub of_list : List ℕ → Slice
of_list xs = record { elems = xs; len = length xs }

-- The elements that `range` and `copy` see.
abbrev pub to_list : Slice → List ℕ
to_list s = take s.len s.elems

-- s[i]
abbrev pub index : Slice → ℕ → Result ℕ
index s i = if ltb i s.len then or_panic (get_elem? s.elems i) else panic

-- s[lo:hi]
abbrev pub reslice : Slice → ℕ → ℕ → Result Slice
reslice s lo hi =
    if leb lo hi && leb hi (length s.elems)
    then ok (record { elems = drop lo s.elems; len = hi - lo })
    else panic

-- s[lo:]
abbrev pub tail_from : Slice → ℕ → Result Slice
tail_from s lo =
    if leb lo s.len then ok (record { elems = drop lo s.elems; len = s.len - lo }) else panic

-- binary.BigEndian and binary.LittleEndian
pub data ByteOrder : Type 0 where
  big_endian little_endian : ByteOrder

abbrev pub get_u16 : ByteOrder → ℕ → ℕ → ℕ
get_u16 big_endian a b = a * 256 + b
get_u16 little_endian a b = b * 256 + a

abbrev pub put_u16 : ByteOrder → ℕ → List ℕ
put_u16 big_endian x = (x / 256 % 256) ∷ (x % 256) ∷ []
put_u16 little_endian x = (x % 256) ∷ (x / 256 % 256) ∷ []

-- order.Uint16(s[lo:lo+2])
abbrev pub u16_at : ByteOrder → Slice → ℕ → Result ℕ
u16_at order s lo = do
  two ← reslice s lo (lo + 2)
  a ← index two 0
  b ← index two 1
  ok (get_u16 order a b)

-- Within the capacity, a word is read at any offset.
pub u16_at_lem :
    (order : ByteOrder) (s : Slice) (lo : ℕ)
    → lo + 2 ≤ length s.elems
    → u16_at order s lo ≡ ok (get_u16 order (get_or s.elems lo 0) (get_or s.elems (lo + 1) 0))
u16_at_lem order s lo h = ground (
  arith,
  get_elem?-drop lo s.elems 0,
  get_elem?-drop lo s.elems 1,
  get_elem?_lt s.elems lo 0,
  get_elem?_lt s.elems (lo + 1) 0,
)

-- Past the capacity, reading a word panics.
pub u16_at_panic :
    (order : ByteOrder) (s : Slice) (lo : ℕ) → length s.elems < lo + 2 → u16_at order s lo ≡ panic
u16_at_panic order s lo h = ground arith
