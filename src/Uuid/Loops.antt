-- ===== src/Uuid/Loops.antt =====
-- The loops of `vsc_uuid_format` and `vsc_uuid_parse`, byte by byte.
use Prim.Native.Nat.{bit_or}
use vsclib.Prelude.Bytes.{holds_below, holds_below_at, bit_or_nibbles, IsBytes, nil, cons}
use vsclib.Prelude.Errno.{success}
use vsclib.Prelude.{
  ℕ, suc, ◌+◌, ◌*◌, ◌/◌, ◌%◌, ◌≤◌, ◌<◌, List, [], ◌∷◌, length, get_or, Bool, true, false, ◌&&◌, ◌≡◌,
  refl, sym, ◌∙◌, inl, inr, ==_iff, Bool-cases, &&_both, ◌==◌, if◌then◌else◌, arith,
}
use vsclib.Uuid.Positions.{IsHex, start, dash_at-start, dash_at-behind, start-suc}
use vsclib.Uuid.Text.{
  Uuid, isxdigit, isdigit, alphabet_lower, alphabet_upper, dash_before, denibble, dash_at,
  parse_loop, format_loop, has_flag, format_upper,
}

abbrev hex_test : List ℕ → ℕ → Bool
hex_test alphabet n = isxdigit (get_or alphabet n 0) && (denibble (get_or alphabet n 0) == n)

lower_table : holds_below (hex_test alphabet_lower) 16 ≡ true
unfolding holds_below isxdigit isdigit denibble
lower_table = refl

upper_table : holds_below (hex_test alphabet_upper) 16 ≡ true
unfolding holds_below isxdigit isdigit denibble
upper_table = refl

hex_test-IsHex : (alphabet : List ℕ) → holds_below (hex_test alphabet) 16 ≡ true → IsHex alphabet
hex_test-IsHex alphabet table n h =
    let t : hex_test alphabet n ≡ true = holds_below_at (hex_test alphabet) 16 n h table in
    let (x, e) = &&_both _ _ t in (x, (==_iff _ n).0 e)

-- the alphabet that the flags select
abbrev pub digits : ℕ → List ℕ
digits flags = if has_flag flags format_upper then alphabet_upper else alphabet_lower

pub digits-IsHex : (flags : ℕ) → IsHex (digits flags)
digits-IsHex flags = elim (Bool-cases (has_flag flags format_upper)) [
  | inl e ↦ rw e (hex_test-IsHex alphabet_upper upper_table)
  | inr e ↦ rw e (hex_test-IsHex alphabet_lower lower_table)
]

module _ (alphabet : List ℕ) (hex : IsHex alphabet) where
  -- two digits are read as their byte
  parse_loop-pair :
      (d : Bool) (j x : ℕ) (s : List ℕ)
      → x < 256
      → (d && dash_at j) ≡ false
      → parse_loop d j (get_or alphabet (x / 16) 0 ∷ get_or alphabet (x % 16) 0 ∷ s)
        ≡ (let rest = parse_loop d (j + 2) s in (rest.0, x ∷ rest.1))
  unfolding parse_loop
  parse_loop-pair d j x s small at =
      let (hi_digit, hi) = hex (x / 16) (omega arith) in
      let (lo_digit, lo) = hex (x % 16) (omega arith) in
      let byte : bit_or (x / 16 * 16) (x % 16) % 256 ≡ x =
        rw (bit_or_nibbles x small) (omega arith) in
      rw (at, hi_digit, lo_digit, hi, lo, byte) refl

  -- Without dashes, the position does not matter.
  pub parse_loop-compact :
      (j i : ℕ) (bytes : Uuid)
      → IsBytes bytes
      → parse_loop false j (format_loop alphabet true i bytes) ≡ (success, bytes)
  unfolding format_loop parse_loop
  parse_loop-compact j i [] nil = refl
  parse_loop-compact j i (x ∷ bytes) (cons small b) =
      parse_loop-pair false j x (format_loop alphabet true (i + 1) bytes) small refl
      ∙ rw (parse_loop-compact (j + 2) (i + 1) bytes b) refl

  format_loop-dash :
      (i x : ℕ) (bytes : Uuid)
      → dash_before i ≡ true
      → format_loop alphabet false i (x ∷ bytes) ≡ (
          b'-'
          ∷ get_or alphabet (x / 16) 0
          ∷ get_or alphabet (x % 16) 0
          ∷ format_loop alphabet false (i + 1) bytes)
  unfolding format_loop
  format_loop-dash i x bytes e = rw e refl

  format_loop-plain :
      (i x : ℕ) (bytes : Uuid)
      → dash_before i ≡ false
      → format_loop alphabet false i (x ∷ bytes) ≡ (
          get_or alphabet (x / 16) 0
          ∷ get_or alphabet (x % 16) 0
          ∷ format_loop alphabet false (i + 1) bytes)
  unfolding format_loop
  format_loop-plain i x bytes e = rw e refl

  parse_loop-dash :
      (j c : ℕ) (s : List ℕ)
      → dash_at j ≡ true
      → parse_loop true j (b'-' ∷ c ∷ s) ≡ parse_loop true (j + 1) (c ∷ s)
  unfolding parse_loop
  parse_loop-dash j c s e = rw e refl

  parse_loop-none : (d : Bool) (j : ℕ) → parse_loop d j [] ≡ (success, [])
  unfolding parse_loop
  parse_loop-none d j = refl

  format_loop-none : (d : Bool) (i : ℕ) → format_loop alphabet d i [] ≡ []
  unfolding format_loop
  format_loop-none d i = refl

  -- With dashes, the parser stands where the group of byte `i` starts.
  pub parse_loop-dashed :
      (i : ℕ) (bytes : Uuid)
      → IsBytes bytes
      → i + length bytes ≤ 16
      → parse_loop true (start i) (format_loop alphabet false i bytes) ≡ (success, bytes)
  parse_loop-dashed i [] nil fits = rw (format_loop-none false i) (parse_loop-none true (start i))
  parse_loop-dashed i (x ∷ bytes) (cons small b) fits =
      let rest = parse_loop-dashed (i + 1) bytes b (omega arith) in
      let here = dash_at-start i (omega arith) in
      let after = start-suc i (omega arith) in
      elim (Bool-cases (dash_before i)) [
        | inl e ↦
            let behind = dash_at-behind i (omega arith) e in
            let next : start i + 1 + 2 ≡ start (i + 1) = ground arith in
            rw
              (
                format_loop-dash i x bytes e,
                parse_loop-dash (start i) (get_or alphabet (x / 16) 0)
                    (get_or alphabet (x % 16) 0 ∷ format_loop alphabet false (i + 1) bytes)
                    (here ∙ e),
                parse_loop-pair true (start i + 1) x (format_loop alphabet false (i + 1) bytes)
                    small behind,
                next,
                rest,
              )
              refl
        | inr e ↦
            let next : start i + 2 ≡ start (i + 1) = ground arith in
            rw
              (
                format_loop-plain i x bytes e,
                parse_loop-pair true (start i) x (format_loop alphabet false (i + 1) bytes) small
                    (here ∙ e),
                next,
                rest,
              )
              refl
      ]

  pub length-format_loop_compact :
      (i : ℕ) (bytes : Uuid) → length (format_loop alphabet true i bytes) ≡ 2 * length bytes
  unfolding format_loop
  length-format_loop_compact i [] = refl
  length-format_loop_compact i (x ∷ bytes) = omega (arith, length-format_loop_compact (i + 1) bytes)

  pub length-format_loop_dashed :
      (i : ℕ) (bytes : Uuid)
      → i + length bytes ≤ 16
      → start i + length (format_loop alphabet false i bytes) ≡ start (i + length bytes)
  length-format_loop_dashed i [] fits = rw (format_loop-none false i) (ground arith)
  length-format_loop_dashed i (x ∷ bytes) fits =
      let rest = length-format_loop_dashed (i + 1) bytes (omega arith) in
      let after = start-suc i (omega arith) in
      let e : i + suc (length bytes) ≡ i + 1 + length bytes = omega arith in
      elim (Bool-cases (dash_before i)) [
        | inl d ↦ rw (format_loop-dash i x bytes d, e, sym rest) (ground arith)
        | inr d ↦ rw (format_loop-plain i x bytes d, e, sym rest) (ground arith)
      ]
