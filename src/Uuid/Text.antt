-- ===== src/Uuid/Text.antt =====
-- The functions of vsclib/uuid.c, and the character classes of vsclib/string.c. A string is the list
-- of its characters up to the NUL, so its `strlen` is the length.
use Prim.Native.Nat.{bit_and, bit_or}
use vsclib.Prelude.Bytes.{codes}
use vsclib.Prelude.Errno.{Status, success, failure, einval}
use vsclib.Prelude.{
  ℕ, ◌+◌, ◌-◌, ◌*◌, ◌/◌, ◌%◌, List, [], ◌∷◌, ◌++◌, length, get_or, take, drop, replicate, Bool, not,
  ◌&&◌, ◌||◌, ◌==◌, leb, ltb, if◌then◌else◌,
}

-- the 16 bytes of `VscUUID`
abbrev pub Uuid : Type 0
Uuid = List ℕ

abbrev pub uuid_size : ℕ
uuid_size = 16

unfoldable pub isdigit : ℕ → Bool
isdigit c = leb b'0' c && leb c b'9'

unfoldable pub isxdigit : ℕ → Bool
unfolding isdigit
isxdigit c = isdigit c || (leb b'a' c && leb c b'f') || (leb b'A' c && leb c b'F')

abbrev pub uuid_nil : Uuid
uuid_nil = replicate uuid_size 0

abbrev pub uuid_max : Uuid
uuid_max = replicate uuid_size 0xff

-- `memcmp`: the sign of the first difference, as 0 for less, 1 for equal and 2 for greater
unfoldable pub uuid_compare : Uuid → Uuid → ℕ
uuid_compare [] ys = 1
uuid_compare (x ∷ xs) [] = 1
uuid_compare (x ∷ xs) (y ∷ ys) =
    let rest = uuid_compare xs ys in if ltb x y then 0 else if ltb y x then 2 else rest

abbrev pub alphabet_lower : List ℕ
alphabet_lower = codes "0123456789abcdef"

abbrev pub alphabet_upper : List ℕ
alphabet_upper = codes "0123456789ABCDEF"

abbrev pub format_upper : ℕ
format_upper = 1

abbrev pub format_ms : ℕ
format_ms = 4

abbrev pub format_compact : ℕ
format_compact = 8

abbrev pub has_flag : ℕ → ℕ → Bool
has_flag flags flag = not (bit_and flags flag == 0)

-- a dash stands before byte `i`
unfoldable pub dash_before : ℕ → Bool
dash_before i = i == 4 || i == 6 || i == 8 || i == 10

unfoldable pub format_loop : List ℕ → Bool → ℕ → Uuid → List ℕ
format_loop alphabet compact i [] = []
format_loop alphabet compact i (ch ∷ bytes) =
    let hex =
      get_or alphabet (ch / 16) 0
      ∷ get_or alphabet (ch % 16) 0
      ∷ format_loop alphabet compact (i + 1) bytes in
    if not compact && dash_before i then b'-' ∷ hex else hex

-- what stands at `dst`, before the NUL
unfoldable pub format : Uuid → ℕ → List ℕ
unfolding format_loop dash_before
format uuid flags =
    let alphabet = if has_flag flags format_upper then alphabet_upper else alphabet_lower in
    let body = format_loop alphabet (has_flag flags format_compact) 0 uuid in
    if has_flag flags format_ms then b'{' ∷ (body ++ b'}' ∷ []) else body

-- `uint8_t` arithmetic on a hexadecimal digit
unfoldable pub denibble : ℕ → ℕ
unfolding isdigit
denibble c = if isdigit c then c - b'0' else if leb b'a' c then 10 + c - b'a' else 10 + c - b'A'

-- a dash stands at character `i`
unfoldable pub dash_at : ℕ → Bool
dash_at i = i == 8 || i == 13 || i == 18 || i == 23

-- The status and the bytes that have been written. Past the last character stands a NUL or a brace,
-- which is no digit.
unfoldable pub parse_loop : Bool → ℕ → List ℕ → Status × Uuid
parse_loop has_dashes i [] = (success, [])
parse_loop has_dashes i (c1 ∷ []) =
    if has_dashes && dash_at i && c1 == b'-' then (success, []) else (failure einval, [])
parse_loop has_dashes i (c1 ∷ c2 ∷ s) =
    let after_dash = parse_loop has_dashes (i + 1) (c2 ∷ s) in
    let after_pair = parse_loop has_dashes (i + 2) s in
    if has_dashes && dash_at i
    then if c1 == b'-' then after_dash else (failure einval, [])
    else if not (isxdigit c1) || not (isxdigit c2)
    then (failure einval, [])
    else (after_pair.0, (bit_or (denibble c1 * 16) (denibble c2) % 256) ∷ after_pair.1)

-- the part after the braces have been taken off
unfoldable pub parse_bare : List ℕ → Status × Uuid
unfolding parse_loop dash_at isxdigit denibble
parse_bare s =
    let len = length s in
    if not (len == 32) && not (len == 36) then (failure einval, []) else parse_loop (len == 36) 0 s

unfoldable pub parse : List ℕ → Status × Uuid
unfolding parse_bare
parse s =
    let len = length s in
    if len == 34 || len == 38
    then if not (get_or s 0 0 == b'{') || not (get_or s (len - 1) 0 == b'}')
      then (failure einval, [])
      else parse_bare (take (len - 2) (drop 1 s))
    else parse_bare s
