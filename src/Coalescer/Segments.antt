-- ===== src/Coalescer/Segments.antt =====
-- Parts of a run of memory cells.
use gofins.Base.{ℕ, zero, suc, ◌+◌, ◌-◌, ◌≤◌, ◌∷◌, take, drop, ◌≡◌, refl, ap, ◌∙◌, arith}
use gofins.Server.{Buffer, cells}

drop-cells : (f : Buffer) (a k m : ℕ) → k ≤ m → drop k (cells f a m) ≡ cells f (a + k) (m - k)
unfolding cells
drop-cells f a zero m h =
    let e : a + 0 ≡ a = omega arith in let d : m - 0 ≡ m = omega arith in rw (e, d) refl
drop-cells f a (suc k) zero h = absurd (omega arith)
drop-cells f a (suc k) (suc m) h =
    let e : a + 1 + k ≡ a + suc k = omega arith in
    let d : suc m - suc k ≡ m - k = omega arith in
    drop-cells f (a + 1) k m (omega arith) ∙ rw (e, d) refl

take-cells : (f : Buffer) (a n m : ℕ) → n ≤ m → take n (cells f a m) ≡ cells f a n
unfolding cells
take-cells f a zero m h = refl
take-cells f a (suc n) zero h = absurd (omega arith)
take-cells f a (suc n) (suc m) h = ap (λ t. f a ∷ t) (take-cells f (a + 1) n m (omega arith))

-- The cells from `a + k` on, taken out of those from `a` on.
pub take-drop-cells :
    (f : Buffer) (a k n m : ℕ) → k + n ≤ m → take n (drop k (cells f a m)) ≡ cells f (a + k) n
take-drop-cells f a k n m h =
    ap (take n) (drop-cells f a k m (omega arith)) ∙ take-cells f (a + k) n (m - k) (omega arith)
