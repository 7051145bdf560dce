-- ===== src/Uuid/Soundness.antt =====
-- The text that `vsc_uuid_parse` takes, braces included.
use vsclib.Prelude.Bytes.{IsBytes}
use vsclib.Prelude.Errno.{success}
use vsclib.Prelude.{
  ℕ, zero, suc, ◌+◌, ◌-◌, List, [], ◌∷◌, ◌++◌, map, length, get_or, take, Bool, true, false, ◌||◌,
  ◌==◌, if◌then◌else◌, ◌≡◌, refl, sym, subst, ap, ◌∙◌, inl, inr, ==_iff, ==_ne, Bool-cases, arith,
}
use vsclib.Uuid.Accepted.{lower, parse_loop_compact-IsRead, parse_loop-IsReadFrom}
use vsclib.Uuid.Text.{Uuid, parse_bare, parse, format_loop, format, alphabet_lower}

-- The text is what `vsc_uuid_format` writes of the 16 bytes with some flags, but for the case.
pub record IsText (s : List ℕ) (uuid : Uuid) : Type 0 where
  pub flags : ℕ
  pub text : map lower s ≡ format uuid flags
  pub whole : length uuid ≡ 16
  pub bytes : IsBytes uuid

-- the same of the part in the braces
record IsBare (s : List ℕ) (uuid : Uuid) : Type 0 where
  pub compact : Bool
  pub text : map lower s ≡ format_loop alphabet_lower compact 0 uuid
  pub whole : length uuid ≡ 16
  pub bytes : IsBytes uuid

parse_bare-IsBare : (s : List ℕ) → (parse_bare s).0 ≡ success → IsBare s (parse_bare s).1
unfolding parse_bare
parse_bare-IsBare s = elim (Bool-cases (length s == 36)) [
  | inl long ↦
      let size36 : length s ≡ 36 = (==_iff (length s) 36).0 long in
      let other : (length s == 32) ≡ false = ==_ne (λ e. absurd (omega (arith, e, size36))) in
      rw (other, long)
        λ h.
          let (read, size) = parse_loop-IsReadFrom 16 0 refl s (omega (arith, size36)) h in
          record { compact = false; text = read.text; whole = size; bytes = read.bytes_small }
  | inr other ↦ elim (Bool-cases (length s == 32)) [
    | inl short ↦
        rw (other, short)
          λ h.
            let (read, size) = parse_loop_compact-IsRead 0 0 s h in
            record {
              compact = true;
              text = read.text;
              whole = omega (arith, size, (==_iff (length s) 32).0 short);
              bytes = read.bytes_small;
            }
    | inr odd ↦ rw (other, odd) λ h. absurd (ground (arith, h))
  ]
]

-- the flags that write text with or without dashes and braces
abbrev flags_of : Bool → Bool → ℕ
flags_of compact braces = (if compact then 8 else 0) + (if braces then 4 else 0)

format-plain :
    (compact : Bool) (uuid : Uuid)
    → format uuid (flags_of compact false) ≡ format_loop alphabet_lower compact 0 uuid
unfolding format
format-plain true uuid = refl
format-plain false uuid = refl

format-braces :
    (compact : Bool) (uuid : Uuid)
    → format uuid (flags_of compact true)
      ≡ b'{' ∷ (format_loop alphabet_lower compact 0 uuid ++ b'}' ∷ [])
unfolding format
format-braces true uuid = refl
format-braces false uuid = refl

map-lower-append : (xs ys : List ℕ) → map lower (xs ++ ys) ≡ map lower xs ++ map lower ys
map-lower-append [] ys = refl
map-lower-append (x ∷ xs) ys = ap (λ l. lower x ∷ l) (map-lower-append xs ys)

take_last : (t : List ℕ) (n : ℕ) → length t ≡ suc n → t ≡ take n t ++ get_or t n 0 ∷ []
take_last [] n e = absurd (omega (arith, e))
take_last (x ∷ []) zero e = refl
take_last (x ∷ y ∷ t) zero e = absurd (omega (arith, e))
take_last (x ∷ t) (suc n) e = ap (λ l. x ∷ l) (take_last t n (omega (arith, e)))

parse-taken_off :
    (c : ℕ) (t : List ℕ) (n : ℕ)
    → length t ≡ suc n
    → (suc (suc n) == 34 || suc (suc n) == 38) ≡ true
    → (parse (c ∷ t)).0 ≡ success
    → (c ≡ b'{') × (get_or t n 0 ≡ b'}') × (parse (c ∷ t) ≡ parse_bare (take n t))
unfolding parse
parse-taken_off c t n len braced =
    let one : suc (suc n) - 1 ≡ suc n = omega arith in
    let two : suc (suc n) - 2 ≡ n = omega arith in
    rw (len, braced, one, two)
      (elim (Bool-cases (c == b'{')) [
        | inr bad ↦ rw bad λ h. absurd (ground (arith, h))
        | inl opens ↦ elim (Bool-cases (get_or t n 0 == b'}')) [
          | inr bad ↦ rw (opens, bad) λ h. absurd (ground (arith, h))
          | inl shuts ↦
              rw (opens, shuts)
                λ h. ((==_iff c b'{').0 opens, (==_iff (get_or t n 0) b'}').0 shuts, refl)
        ]
      ])

parse-not_taken_off :
    (s : List ℕ) → (length s == 34 || length s == 38) ≡ false → parse s ≡ parse_bare s
unfolding parse
parse-not_taken_off s e = rw e refl

IsBare-IsText : (s : List ℕ) (uuid : Uuid) → IsBare s uuid → IsText s uuid
IsBare-IsText s uuid b = record {
  flags = flags_of b.compact false;
  text = b.text ∙ sym (format-plain b.compact uuid);
  whole = b.whole;
  bytes = b.bytes;
}

IsBare-IsText_braces :
    (s : List ℕ) (uuid : Uuid) → IsBare s uuid → IsText (b'{' ∷ (s ++ b'}' ∷ [])) uuid
IsBare-IsText_braces s uuid b = record {
  flags = flags_of b.compact true;
  text =
      ap (λ l. b'{' ∷ l) (map-lower-append s (b'}' ∷ []) ∙ ap (λ l. l ++ b'}' ∷ []) b.text)
      ∙ sym (format-braces b.compact uuid);
  whole = b.whole;
  bytes = b.bytes;
}

parse-IsText_braces :
    (c : ℕ) (t : List ℕ) (n : ℕ)
    → length t ≡ suc n
    → (suc (suc n) == 34 || suc (suc n) == 38) ≡ true
    → (parse (c ∷ t)).0 ≡ success
    → IsText (c ∷ t) (parse (c ∷ t)).1
parse-IsText_braces c t n len braced h =
    let (opens, shuts, bare) = parse-taken_off c t n len braced h in
    let whole : c ∷ t ≡ b'{' ∷ (take n t ++ b'}' ∷ []) =
      ap (λ l. c ∷ l) (take_last t n len ∙ ap (λ k. take n t ++ k ∷ []) shuts)
      ∙ ap (λ k. k ∷ (take n t ++ b'}' ∷ [])) opens in
    let inside = parse_bare-IsBare (take n t) (ap (λ r. r.0) (sym bare) ∙ h) in
    subst (λ l. IsText l (parse (c ∷ t)).1) (sym whole)
      (subst (λ r. IsText (b'{' ∷ (take n t ++ b'}' ∷ [])) r.1) (sym bare)
        (IsBare-IsText_braces (take n t) (parse_bare (take n t)).1 inside))

parse_success-IsText : (s : List ℕ) → (parse s).0 ≡ success → IsText s (parse s).1
parse_success-IsText s h = elim (Bool-cases (length s == 34 || length s == 38)) [
  | inr none ↦
      let bare = parse-not_taken_off s none in
      subst (λ r. IsText s r.1) (sym bare)
        (IsBare-IsText s (parse_bare s).1 (parse_bare-IsBare s (ap (λ r. r.0) (sym bare) ∙ h)))
  | inl braced ↦ by_braces s braced h
]
  where
    by_braces :
        (s : List ℕ)
        → (length s == 34 || length s == 38) ≡ true
        → (parse s).0 ≡ success
        → IsText s (parse s).1
    by_braces [] braced h = absurd (ground (arith, braced))
    by_braces (c ∷ []) braced h = absurd (ground (arith, braced))
    by_braces (c ∷ d ∷ t) braced h = parse-IsText_braces c (d ∷ t) (length t) refl braced h

-- Text that vsc_uuid_parse takes is what vsc_uuid_format writes with some flags of the 16 bytes that
-- it gives, but for the case of the digits; it takes no other text.
pub parse-IsText : (s : List ℕ) (uuid : Uuid) → parse s ≡ (success, uuid) → IsText s uuid
parse-IsText s uuid e = subst (λ r. IsText s r.1) e (parse_success-IsText s (ap (λ r. r.0) e))
