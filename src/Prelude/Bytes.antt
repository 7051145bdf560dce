-- ===== src/Prelude/Bytes.antt =====
-- Facts about all the values of a small range, and the characters of a text.
use Prim.Native.Char.{code}
use Prim.Native.Nat.{ℕ, zero, suc, ◌*◌, ◌/◌, ◌%◌, ◌<◌, bit_or}
use Prim.Native.String.{String}
use mathlib.Core.Bool.{Bool, true, ◌&&◌}
use mathlib.Core.List.{List, [], ◌∷◌}
use mathlib.Core.Path.{◌≡◌, refl}
use native.Mathlib.Omega.{arith}
use native.Mathlib.Decide.{ℕ_discrete}
use vsclib.Prelude.Tests.{◌==◌, ==_iff, &&_both, ltb}

-- whether a test holds of every number below a bound
unfoldable pub holds_below : (ℕ → Bool) → ℕ → Bool
holds_below test zero = true
holds_below test (suc bound) = holds_below test bound && test bound

pub holds_below_at :
    (test : ℕ → Bool) (bound k : ℕ) → k < bound → holds_below test bound ≡ true → test k ≡ true
unfolding holds_below
holds_below_at test zero k lt h = absurd (omega arith)
holds_below_at test (suc bound) k lt h =
    let (before, here) = &&_both (holds_below test bound) (test bound) h in
    elim (ℕ_discrete k bound) [
      | yes e ↦ rw e here
      | no ne ↦ holds_below_at test bound k (omega arith) before
    ]

-- the codes of an ASCII text
abbrev pub codes : String → List ℕ
codes String.[] = []
codes (String.◌∷◌ c s) = code c ∷ codes s

nibbles_table : holds_below (λ x. bit_or (x / 16 * 16) (x % 16) == x) 256 ≡ true
unfolding holds_below
nibbles_table = refl

-- a byte is its two nibbles
pub bit_or_nibbles : (x : ℕ) → x < 256 → bit_or (x / 16 * 16) (x % 16) ≡ x
bit_or_nibbles x h = (==_iff _ x).0 (holds_below_at _ 256 x h nibbles_table)

-- a value of type `uint8_t[]`
pub data IsBytes : List ℕ → Type 0 where
  nil : IsBytes []
  cons : {x : ℕ} {xs : List ℕ} → x < 256 → IsBytes xs → IsBytes (x ∷ xs)

unfoldable pub all_bytes : List ℕ → Bool
all_bytes [] = true
all_bytes (x ∷ xs) = ltb x 256 && all_bytes xs

pub all_bytes-IsBytes : (xs : List ℕ) → all_bytes xs ≡ true → IsBytes xs
unfolding all_bytes
all_bytes-IsBytes [] h = nil
all_bytes-IsBytes (x ∷ xs) h =
    let (small, rest) = &&_both (ltb x 256) (all_bytes xs) h in
    cons (ground arith) (all_bytes-IsBytes xs rest)
