-- ===== src/Uuid/RoundTrip.antt =====
-- What `format` writes, `parse` reads back.
use vsclib.Prelude.Bytes.{IsBytes}
use vsclib.Prelude.Errno.{success}
use vsclib.Prelude.{
  take-append, ℕ, suc, ◌+◌, ◌-◌, List, [], ◌∷◌, ◌++◌, length, length-append, get_or,
  get_or-append_right, take, true, false, ◌≡◌, refl, ap, ◌∙◌, ◌⊎◌, inl, inr, Bool-cases, arith,
}
use vsclib.Uuid.Positions.{start}
use vsclib.Uuid.Text.{
  Uuid, format_loop, format, parse_bare, parse, has_flag, format_ms, format_compact,
}
use vsclib.Uuid.Loops.{
  digits, digits-IsHex, parse_loop-compact, parse_loop-dashed, length-format_loop_compact,
  length-format_loop_dashed,
}

-- Braces are taken off, and text of the two other lengths is left alone.
parse-bare : (s : List ℕ) → (length s ≡ 32) ⊎ (length s ≡ 36) → parse s ≡ parse_bare s
unfolding parse
parse-bare s (inl e) = rw e refl
parse-bare s (inr e) = rw e refl

parse-taken :
    (s t : List ℕ) (n : ℕ)
    → (n ≡ 32) ⊎ (n ≡ 36)
    → length t ≡ suc n
    → get_or t n 0 ≡ b'}'
    → take n t ≡ s
    → parse (b'{' ∷ t) ≡ parse_bare s
unfolding parse
parse-taken s t n (inl e) len last taken =
    let len' : length t ≡ 33 = omega arith in rw (len', rw e at last, rw e at taken) refl
parse-taken s t n (inr e) len last taken =
    let len' : length t ≡ 37 = omega arith in rw (len', rw e at last, rw e at taken) refl

parse-braced :
    (s : List ℕ)
    → (length s ≡ 32) ⊎ (length s ≡ 36)
    → parse (b'{' ∷ (s ++ b'}' ∷ [])) ≡ parse_bare s
parse-braced s sizes =
    let zero_gap : length s - length s ≡ 0 = omega arith in
    let last : get_or (s ++ b'}' ∷ []) (length s) 0 ≡ b'}' =
      get_or-append_right s (b'}' ∷ []) (length s) 0 (omega arith)
      ∙ ap (λ k. get_or (b'}' ∷ []) k 0) zero_gap in
    parse-taken s (s ++ b'}' ∷ []) (length s) sizes (omega (arith, length-append s (b'}' ∷ [])))
      last (take-append s (b'}' ∷ []))

body : Uuid → ℕ → List ℕ
body uuid flags = format_loop (digits flags) (has_flag flags format_compact) 0 uuid

length-body :
    (uuid : Uuid) (flags : ℕ)
    → length uuid ≡ 16
    → (length (body uuid flags) ≡ 32) ⊎ (length (body uuid flags) ≡ 36)
unfolding body
length-body uuid flags n = elim (Bool-cases (has_flag flags format_compact)) [
  | inl e ↦
      rw e
        (inl (omega (arith, length-format_loop_compact (digits flags) (digits-IsHex flags) 0 uuid)))
  | inr e ↦
      let all =
        length-format_loop_dashed (digits flags) (digits-IsHex flags) 0 uuid (omega arith) in
      let t : start (0 + length uuid) ≡ 36 = rw n refl in rw e (inr (omega arith))
]

parse_bare-body :
    (uuid : Uuid) (flags : ℕ)
    → length uuid ≡ 16
    → IsBytes uuid
    → parse_bare (body uuid flags) ≡ (success, uuid)
unfolding parse_bare body
parse_bare-body uuid flags n b = elim (Bool-cases (has_flag flags format_compact)) [
  | inl e ↦
      let len : length (format_loop (digits flags) true 0 uuid) ≡ 32 =
        omega (arith, length-format_loop_compact (digits flags) (digits-IsHex flags) 0 uuid) in
      rw (e, len) (parse_loop-compact (digits flags) (digits-IsHex flags) 0 0 uuid b)
  | inr e ↦
      let all =
        length-format_loop_dashed (digits flags) (digits-IsHex flags) 0 uuid (omega arith) in
      let t : start (0 + length uuid) ≡ 36 = rw n refl in
      let len : length (format_loop (digits flags) false 0 uuid) ≡ 36 = omega arith in
      rw (e, len) (parse_loop-dashed (digits flags) (digits-IsHex flags) 0 uuid b (omega arith))
]

-- vsc_uuid_parse reads back what vsc_uuid_format writes of 16 bytes, whatever the flags.
pub parse-format :
    (uuid : Uuid) (flags : ℕ)
    → length uuid ≡ 16
    → IsBytes uuid
    → parse (format uuid flags) ≡ (success, uuid)
unfolding format body
parse-format uuid flags n b =
    let sizes = length-body uuid flags n in
    elim (Bool-cases (has_flag flags format_ms)) [
      | inl e ↦ rw e (parse-braced (body uuid flags) sizes ∙ parse_bare-body uuid flags n b)
      | inr e ↦ rw e (parse-bare (body uuid flags) sizes ∙ parse_bare-body uuid flags n b)
    ]
