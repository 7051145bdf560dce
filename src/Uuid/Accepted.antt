-- ===== src/Uuid/Accepted.antt =====
-- The loop of `vsc_uuid_parse`, in vsclib/uuid.c, against that of `vsc_uuid_format`, for text in any mix
-- of cases.
use Prim.Native.Nat.{bit_or}
use vsclib.Prelude.Bytes.{holds_below, holds_below_at, bit_or_nibbles, IsBytes, nil, cons}
use vsclib.Prelude.Errno.{success}
use vsclib.Prelude.{
  ℕ, zero, suc, ◌+◌, ◌*◌, ◌/◌, ◌%◌, ◌<◌, List, [], ◌∷◌, map, length, get_or, Bool, true, false, not,
  ◌&&◌, ◌||◌, ◌==◌, leb, ltb, if◌then◌else◌, ◌≡◌, inl, inr, refl, sym, ap, ◌∙◌, subst, ==_iff,
  Bool-cases, &&_both, arith,
}
use vsclib.Uuid.Positions.{start, dash_at-start, dash_at-behind, start-suc}
use vsclib.Uuid.Text.{
  Uuid, isxdigit, isdigit, alphabet_lower, dash_before, denibble, dash_at, parse_loop, format_loop,
}

-- the digit in lower case
abbrev pub lower : ℕ → ℕ
lower c = if leb b'A' c && leb c b'F' then c + 32 else c

abbrev digit_test : ℕ → Bool
digit_test c =
    not (isxdigit c) || (ltb (denibble c) 16 && get_or alphabet_lower (denibble c) 0 == lower c)

digit_table : holds_below digit_test 128 ≡ true
unfolding holds_below isxdigit isdigit denibble
digit_table = refl

isxdigit-small : (c : ℕ) → isxdigit c ≡ true → c < 128
unfolding isxdigit isdigit
isxdigit-small c x = ground arith

isxdigit-lower :
    (c : ℕ)
    → isxdigit c ≡ true
    → (denibble c < 16) × (get_or alphabet_lower (denibble c) 0 ≡ lower c)
isxdigit-lower c x =
    let t : digit_test c ≡ true =
      holds_below_at digit_test 128 c (isxdigit-small c x) digit_table in
    let digit = ltb (denibble c) 16 in
    let same = get_or alphabet_lower (denibble c) 0 == lower c in
    let (small, e) = &&_both digit same (sym (ap (λ b. not b || (digit && same)) x) ∙ t) in
    (ground arith, (==_iff _ _).0 e)

abbrev byte_of : ℕ → ℕ → ℕ
byte_of c1 c2 = bit_or (denibble c1 * 16) (denibble c2) % 256

-- Two digits are those of their byte.
byte_of-lower :
    (c1 c2 : ℕ)
    → isxdigit c1 ≡ true
    → isxdigit c2 ≡ true
    → (byte_of c1 c2 < 256)
      × (get_or alphabet_lower (byte_of c1 c2 / 16) 0 ≡ lower c1)
      × (get_or alphabet_lower (byte_of c1 c2 % 16) 0 ≡ lower c2)
byte_of-lower c1 c2 x1 x2 =
    let (small1, e1) = isxdigit-lower c1 x1 in
    let (small2, e2) = isxdigit-lower c2 x2 in
    let x = denibble c1 * 16 + denibble c2 in
    let high : x / 16 ≡ denibble c1 = omega arith in
    let low : x % 16 ≡ denibble c2 = omega arith in
    let whole : bit_or (denibble c1 * 16) (denibble c2) ≡ x =
      ap (λ n. bit_or (n * 16) (denibble c2)) (sym high)
      ∙ ap (bit_or (x / 16 * 16)) (sym low)
      ∙ bit_or_nibbles x (omega arith) in
    let high' : byte_of c1 c2 / 16 ≡ denibble c1 = omega (arith, whole) in
    let low' : byte_of c1 c2 % 16 ≡ denibble c2 = omega (arith, whole) in
    (
      omega (arith, whole),
      ap (λ n. get_or alphabet_lower n 0) high' ∙ e1,
      ap (λ n. get_or alphabet_lower n 0) low' ∙ e2,
    )

-- The text is that of `bytes`, from byte `i` on.
pub record IsRead (compact : Bool) (i : ℕ) (s : List ℕ) (bytes : Uuid) : Type 0 where
  pub text : map lower s ≡ format_loop alphabet_lower compact i bytes
  pub bytes_small : IsBytes bytes

IsRead-pair :
    (compact : Bool) (i c1 c2 : ℕ) (s : List ℕ) (bytes : Uuid)
    → (not compact && dash_before i) ≡ false
    → isxdigit c1 ≡ true
    → isxdigit c2 ≡ true
    → IsRead compact (i + 1) s bytes
    → IsRead compact i (c1 ∷ c2 ∷ s) (byte_of c1 c2 ∷ bytes)
unfolding format_loop
IsRead-pair compact i c1 c2 s bytes plain x1 x2 r =
    let (small, e1, e2) = byte_of-lower c1 c2 x1 x2 in
    record {
      text = rw (plain, e1, e2) (ap (λ l. lower c1 ∷ lower c2 ∷ l) r.text);
      bytes_small = cons small r.bytes_small;
    }

IsRead-dash :
    (i c1 c2 : ℕ) (s : List ℕ) (bytes : Uuid)
    → dash_before i ≡ true
    → isxdigit c1 ≡ true
    → isxdigit c2 ≡ true
    → IsRead false (i + 1) s bytes
    → IsRead false i (b'-' ∷ c1 ∷ c2 ∷ s) (byte_of c1 c2 ∷ bytes)
unfolding format_loop
IsRead-dash i c1 c2 s bytes dash x1 x2 r =
    let (small, e1, e2) = byte_of-lower c1 c2 x1 x2 in
    record {
      text = rw (dash, e1, e2) (ap (λ l. b'-' ∷ lower c1 ∷ lower c2 ∷ l) r.text);
      bytes_small = cons small r.bytes_small;
    }

IsRead-end : (compact : Bool) (i : ℕ) → IsRead compact i [] []
unfolding format_loop
IsRead-end compact i = record { text = refl; bytes_small = nil }

-- what two characters that are no dash are read as
parse_loop-digits :
    (d : Bool) (j c1 c2 : ℕ) (s : List ℕ)
    → (d && dash_at j) ≡ false
    → (parse_loop d j (c1 ∷ c2 ∷ s)).0 ≡ success
    → (isxdigit c1 ≡ true)
      × (isxdigit c2 ≡ true)
      × ((parse_loop d (j + 2) s).0 ≡ success)
      × ((parse_loop d j (c1 ∷ c2 ∷ s)).1 ≡ byte_of c1 c2 ∷ (parse_loop d (j + 2) s).1)
unfolding parse_loop
parse_loop-digits d j c1 c2 s plain = rw plain (elim (Bool-cases (isxdigit c1)) [
  | inr bad ↦ rw bad (λ h. absurd (ground (arith, h)))
  | inl x1 ↦ elim (Bool-cases (isxdigit c2)) [
    | inr bad ↦ rw (x1, bad) (λ h. absurd (ground (arith, h)))
    | inl x2 ↦ rw (x1, x2) (λ h. (refl, refl, h, refl))
  ]
])

pub parse_loop_compact-IsRead :
    (j i : ℕ) (s : List ℕ)
    → (parse_loop false j s).0 ≡ success
    → IsRead true i s (parse_loop false j s).1 × (2 * length (parse_loop false j s).1 ≡ length s)
parse_loop_compact-IsRead j i [] h = unfold parse_loop in (IsRead-end true i, refl)
parse_loop_compact-IsRead j i (c ∷ []) h = absurd (unfold parse_loop in ground (arith, h))
parse_loop_compact-IsRead j i (c1 ∷ c2 ∷ s) h =
    let (x1, x2, rest, e) = parse_loop-digits false j c1 c2 s refl h in
    let (read, size) = parse_loop_compact-IsRead (j + 2) (i + 1) s rest in
    rw e (IsRead-pair true i c1 c2 s _ refl x1 x2 read, omega arith)

parse_loop-at_dash :
    (j c1 c2 : ℕ) (s : List ℕ)
    → dash_at j ≡ true
    → (parse_loop true j (c1 ∷ c2 ∷ s)).0 ≡ success
    → (c1 ≡ b'-') × (parse_loop true j (c1 ∷ c2 ∷ s) ≡ parse_loop true (j + 1) (c2 ∷ s))
unfolding parse_loop
parse_loop-at_dash j c1 c2 s dash = rw dash (elim (Bool-cases (c1 == b'-')) [
  | inr bad ↦ rw bad (λ h. absurd (ground (arith, h)))
  | inl e ↦ rw e (λ h. ((==_iff c1 b'-').0 e, refl))
])

-- The rest of the text, which `k` bytes are read from, when the parser stands before byte `i`.
abbrev pub IsReadFrom : ℕ → ℕ → Type 0
IsReadFrom k i =
    (s : List ℕ)
    → length s + start i ≡ 36
    → (parse_loop true (start i) s).0 ≡ success
    → IsRead false i s (parse_loop true (start i) s).1
      × (length (parse_loop true (start i) s).1 ≡ k)

IsReadFrom-plain :
    (k i c1 c2 : ℕ) (s : List ℕ)
    → i + suc k ≡ 16
    → dash_before i ≡ false
    → IsReadFrom k (i + 1)
    → suc (suc (length s)) + start i ≡ 36
    → (parse_loop true (start i) (c1 ∷ c2 ∷ s)).0 ≡ success
    → IsRead false i (c1 ∷ c2 ∷ s) (parse_loop true (start i) (c1 ∷ c2 ∷ s)).1
      × (length (parse_loop true (start i) (c1 ∷ c2 ∷ s)).1 ≡ suc k)
IsReadFrom-plain k i c1 c2 s last plain from len h =
    let here = dash_at-start i (omega arith) in
    let after = start-suc i (omega arith) in
    let (x1, x2, rest, e) = parse_loop-digits true (start i) c1 c2 s (here ∙ plain) h in
    let next : start i + 2 ≡ start (i + 1) = ground arith in
    let (read, size) =
      from s (omega (arith, next)) (subst (λ n. (parse_loop true n s).0 ≡ success) next rest) in
    let all : (parse_loop true (start i) (c1 ∷ c2 ∷ s)).1
        ≡ byte_of c1 c2 ∷ (parse_loop true (start (i + 1)) s).1 =
      e ∙ ap (λ n. byte_of c1 c2 ∷ (parse_loop true n s).1) next in
    rw all (IsRead-pair false i c1 c2 s _ plain x1 x2 read, ap suc size)

IsReadFrom-dash :
    (k i c1 c2 : ℕ) (s : List ℕ)
    → i + suc k ≡ 16
    → dash_before i ≡ true
    → IsReadFrom k (i + 1)
    → suc (suc (length s)) + start i ≡ 36
    → (parse_loop true (start i) (c1 ∷ c2 ∷ s)).0 ≡ success
    → IsRead false i (c1 ∷ c2 ∷ s) (parse_loop true (start i) (c1 ∷ c2 ∷ s)).1
      × (length (parse_loop true (start i) (c1 ∷ c2 ∷ s)).1 ≡ suc k)
IsReadFrom-dash k i c1 c2 [] last dash from len h =
    let early : (i == 4 || i == 6 || i == 8 || i == 10) ≡ true = unfold dash_before in dash in
    absurd (ground (arith, early, len))
IsReadFrom-dash k i c1 c2 (c3 ∷ s) last dash from len h =
    let here = dash_at-start i (omega arith) in
    let after = start-suc i (omega arith) in
    let behind = dash_at-behind i (omega arith) dash in
    let (mark, skip) = parse_loop-at_dash (start i) c1 c2 (c3 ∷ s) (here ∙ dash) h in
    let (x2, x3, rest, e) =
      parse_loop-digits true (start i + 1) c2 c3 s behind (ap (λ r. r.0) (sym skip) ∙ h) in
    let next : start i + 1 + 2 ≡ start (i + 1) = ground arith in
    let (read, size) =
      from s (omega (arith, next)) (subst (λ n. (parse_loop true n s).0 ≡ success) next rest) in
    let all : (parse_loop true (start i) (c1 ∷ c2 ∷ c3 ∷ s)).1
        ≡ byte_of c2 c3 ∷ (parse_loop true (start (i + 1)) s).1 =
      ap (λ r. r.1) skip ∙ e ∙ ap (λ n. byte_of c2 c3 ∷ (parse_loop true n s).1) next in
    rw (all, mark) (IsRead-dash i c2 c3 s _ dash x2 x3 read, ap suc size)

pub parse_loop-IsReadFrom : (k i : ℕ) → i + k ≡ 16 → IsReadFrom k i
parse_loop-IsReadFrom zero i last [] len h = unfold parse_loop in (IsRead-end false i, refl)
parse_loop-IsReadFrom zero i last (c ∷ s) len h = absurd (ground (arith, last, len))
parse_loop-IsReadFrom (suc k) i last [] len h = absurd (ground (arith, last, len))
parse_loop-IsReadFrom (suc k) i last (c ∷ []) len h = absurd (ground (arith, last, len))
parse_loop-IsReadFrom (suc k) i last (c1 ∷ c2 ∷ s) len h =
    let from = parse_loop-IsReadFrom k (i + 1) (omega (arith, last)) in
    elim (Bool-cases (dash_before i)) [
      | inr plain ↦ IsReadFrom-plain k i c1 c2 s last plain from len h
      | inl dash ↦ IsReadFrom-dash k i c1 c2 s last dash from len h
    ]
