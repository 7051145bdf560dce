-- ===== src/SystemAllocator/Trailing.antt =====
-- `vsc_ctz` of vsclib/ctz.c, the portable loop: a number below 2 ^ 64 is halved 63 times at most.
use vsclib.Prelude.{
  ℕ, zero, suc, ◌+◌, ◌*◌, ◌/◌, ◌%◌, ◌<◌, true, ltb, if◌then◌else◌, pow2, pow2_pos, ◌≡◌, ◌∙◌, arith,
}

unfoldable pub ctz_loop : ℕ → ℕ → ℕ → ℕ
ctz_loop zero pwr x = pwr
ctz_loop (suc fuel) pwr x =
    let rest = ctz_loop fuel ((pwr + 1) % 256) (x / 2) in if ltb 1 x then rest else pwr

unfoldable pub ctz : ℕ → ℕ
unfolding ctz_loop
ctz x = ctz_loop 64 0 x

ctz_loop-pow2 : (fuel k pwr : ℕ) → k < fuel → pwr + k < 256 → ctz_loop fuel pwr (pow2 k) ≡ pwr + k
unfolding ctz_loop
ctz_loop-pow2 zero k pwr h small = absurd (omega arith)
ctz_loop-pow2 (suc fuel) zero pwr h small = omega arith
ctz_loop-pow2 (suc fuel) (suc k) pwr h small =
    let more : ltb 1 (pow2 k * 2) ≡ true =
      let pos = pow2_pos k in let two : 1 < pow2 k * 2 = omega arith in ground arith in
    let half : pow2 k * 2 / 2 ≡ pow2 k = omega arith in
    let next : (pwr + 1) % 256 ≡ pwr + 1 = omega arith in
    rw (more, half, next, ctz_loop-pow2 fuel k (pwr + 1) (omega arith) (omega arith)) (omega arith)

-- vsc_ctz of a power of two in a size_t is its exponent.
pub ctz-pow2 : (k : ℕ) → k < 64 → ctz (pow2 k) ≡ k
unfolding ctz
ctz-pow2 k h = ctz_loop-pow2 64 k 0 h (omega arith) ∙ omega arith
