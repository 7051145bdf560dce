-- ===== src/Uuid/Positions.antt =====
-- Where the characters of a formatted UUID stand, and what each of them parses to.
use vsclib.Prelude.{
  ℕ, suc, ◌+◌, ◌*◌, ◌<◌, List, get_or, true, false, ◌≡◌, ltb, if◌then◌else◌, arith,
}
use vsclib.Uuid.Text.{isxdigit, dash_before, denibble, dash_at}

-- the position in the text with dashes where the group of byte `i` starts, its dash included
abbrev pub start : ℕ → ℕ
start i =
    2 * i
    + (if ltb 4 i then 1 else 0)
    + (if ltb 6 i then 1 else 0)
    + (if ltb 8 i then 1 else 0)
    + (if ltb 10 i then 1 else 0)

-- The parser finds a dash where the group of a byte with a dash starts, and none behind it.
pub dash_at-start : (i : ℕ) → i < 16 → dash_at (start i) ≡ dash_before i
unfolding dash_at dash_before
dash_at-start i h = ground arith

pub dash_at-behind : (i : ℕ) → i < 16 → dash_before i ≡ true → dash_at (start i + 1) ≡ false
unfolding dash_at dash_before
dash_at-behind i h d = ground arith

pub start-suc :
    (i : ℕ) → i < 16 → start (suc i) ≡ (if dash_before i then start i + 3 else start i + 2)
unfolding dash_before
start-suc i h = ground arith

-- an alphabet whose characters are hexadecimal digits of their index
abbrev pub IsHex : List ℕ → Type 0
IsHex alphabet =
    (n : ℕ)
    → n < 16
    → (isxdigit (get_or alphabet n 0) ≡ true) × (denibble (get_or alphabet n 0) ≡ n)
