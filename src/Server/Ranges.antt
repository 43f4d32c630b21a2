-- ===== src/Server/Ranges.antt =====
-- Ranges of a simulator buffer: reading after writing, elsewhere and in place.
use gofins.Base.{
  ℕ, zero, suc, ◌+◌, ◌-◌, ◌≤◌, ◌<◌, ◌≡◌, refl, ap, ◌∙◌, ◌⊎◌, inl, inr, List, [], ◌∷◌, some, ok, ◌≢◌,
  arith, length, get_or, leb, ◌==◌, ge→ltb, le→leb, ==_refl, ==→≡, Bool-cases,
}
use gofins.Protocol.{normal_completion}
use gofins.Server.{AreaMap, Buffer, cells, copy_in, put_area, dm_area_size, read_range, write_range}

pub length-cells : (buf : Buffer) (start n : ℕ) → length (cells buf start n) ≡ n
unfolding cells
length-cells buf start zero = refl
length-cells buf start (suc n) = ap suc (length-cells buf (start + 1) n)

pub cells_of_list :
    (buf : Buffer) (start : ℕ) (xs : List ℕ)
    → ((i : ℕ) → i < length xs → buf (start + i) ≡ get_or xs i 0)
    → cells buf start (length xs) ≡ xs
unfolding cells
cells_of_list buf start [] h = refl
cells_of_list buf start (x ∷ xs) h =
    let head : buf start ≡ x = ap buf (omega arith) ∙ h 0 (omega arith) in
    let rest : cells buf (start + 1) (length xs) ≡ xs =
      cells_of_list buf (start + 1) xs (λ i l. ap buf (omega arith) ∙ h (suc i) (omega arith)) in
    rw (head, rest)

pub cells_cong :
    (f g : Buffer) (start n : ℕ)
    → ((i : ℕ) → start ≤ i → i < start + n → f i ≡ g i)
    → cells f start n ≡ cells g start n
unfolding cells
cells_cong f g start zero h = refl
cells_cong f g start (suc n) h =
    let rest : cells f (start + 1) n ≡ cells g (start + 1) n =
      cells_cong f g (start + 1) n (λ i l u. h i (omega arith) (omega arith)) in
    rw (h start (omega arith) (omega arith), rest)

pub cells-copy_in :
    (buf : Buffer) (start : ℕ) (payload : List ℕ)
    → cells (copy_in buf start (length payload) payload) start (length payload) ≡ payload
cells-copy_in buf start payload =
    cells_of_list (copy_in buf start (length payload) payload) start payload
      (λ i h. let e : start + i - start ≡ i = omega arith in ground (arith, e))

-- A write changes nothing outside its range.
pub cells-copy_in_apart :
    (buf : Buffer) (start n : ℕ) (payload : List ℕ) (from m : ℕ)
    → (from + m ≤ start) ⊎ (start + n ≤ from)
    → cells (copy_in buf start n payload) from m ≡ cells buf from m
cells-copy_in_apart buf start n payload from m apart =
    cells_cong (copy_in buf start n payload) buf from m (λ i l u. ground arith)

-- A write that fills its range, which ends within the buffer.
pub write_range_ok :
    (areas : AreaMap) (area start end : ℕ) (payload : List ℕ) {buf : Buffer}
    → areas area ≡ some buf
    → end ≡ start + length payload
    → end ≤ dm_area_size
    → write_range areas area start end payload
      ≡ ok (normal_completion, put_area areas area (copy_in buf start (length payload) payload))
unfolding write_range
write_range_ok areas area start end payload {buf} h e fits =
    let d : end - start ≡ length payload = omega arith in
    rw (h, write_range, d, ge→ltb dm_area_size end fits, le→leb start end (omega arith))

-- What is read back from the range that was written.
pub read_range_written :
    (areas : AreaMap) (area start end : ℕ) (payload : List ℕ) (buf : Buffer)
    → end ≡ start + length payload
    → end ≤ dm_area_size
    → read_range (put_area areas area (copy_in buf start (length payload) payload) area) start end
      ≡ ok (payload, normal_completion)
unfolding read_range
read_range_written areas area start end payload buf e fits =
    let d : end - start ≡ length payload = omega arith in
    rw (
      ==_refl area,
      ge→ltb dm_area_size end fits,
      le→leb start end (omega arith),
      d,
      cells-copy_in buf start payload,
    )

-- Another area, and another range of the same area, read as before.
pub read_range_apart :
    (areas : AreaMap) (area start n : ℕ) (payload : List ℕ) {buf : Buffer} (other from to : ℕ)
    → areas area ≡ some buf
    → (other ≢ area) ⊎ ((to ≤ start) ⊎ (start + n ≤ from))
    → read_range (put_area areas area (copy_in buf start n payload) other) from to
      ≡ read_range (areas other) from to
unfolding read_range
read_range_apart areas area start n payload {buf} other from to h (inl ne) = ground arith
read_range_apart areas area start n payload {buf} other from to h (inr apart) =
    elim (Bool-cases (other == area)) [
      | inl same ↦
          rw (same, ==→≡ other area same, h)
            (elim (Bool-cases (leb from to)) [
              | inl ordered ↦
                  let clear : (from + (to - from) ≤ start) ⊎ (start + n ≤ from) = ground arith in
                  rw (ordered, cells-copy_in_apart buf start n payload from (to - from) clear)
              | inr reversed ↦ rw reversed
            ])
      | inr differ ↦ rw differ
    ]
