-- ===== src/Interceptor/Guards.antt =====
-- What the validating interceptors let through (interceptor_validation.go).
use gofins.Base.{ℕ, ◌+◌, ◌-◌, ◌≤◌, ◌<◌, some, List, ok, arith, ◌≡◌, ◌↔◌, ◌⊎◌, length}
use gofins.Server.{u16}
use gofins.Interceptor.{Info, Interceptor, write_words, words}
use gofins.Interceptor.Validation.{check_limits, check_range}

-- For uint16 addresses and counts, and a non-empty operation, AddressRangeValidator runs the operation if it
-- begins in the allowed range and either ends there, or runs past address 65535; it reports an error without
-- running it if it begins outside, or ends outside before address 65536.
pub check_range_passes_iff :
    (low high : ℕ) (info : Info)
    → info.address < 65536
    → info.count < 65536
    → 0 < info.count
    → (check_range (some (low, high)) info ≡ ok tt) ↔ (
        (low ≤ info.address)
        × (info.address ≤ high)
        × ((info.address + info.count - 1 ≤ high) ⊎ (65536 < info.address + info.count)))
check_range_passes_iff low high info a c p = ((λ q. ground arith), (λ q. ground arith))

-- ValidationInterceptorWithLimits lets a write of words through exactly if there are words and
-- the low 16 bits of their number do not pass the limit.
pub check_limits_words_iff :
    (max_read max_write : ℕ) (info : Info) (ws : List ℕ)
    → info.operation ≡ write_words
    → info.payload ≡ words ws
    → (check_limits max_read max_write info ≡ ok tt)
      ↔ ((0 < length ws) × (u16 (length ws) ≤ max_write))
unfolding check_limits
check_limits_words_iff max_read max_write info ws op payload =
    rw (op, payload) ((λ q. ground arith), (λ q. ground arith))
