-- ===== src/Uuid/Tests.antt =====
-- UUIDs at concrete inputs.
use vsclib.Prelude.Bytes.{codes, IsBytes, all_bytes, all_bytes-IsBytes}
use vsclib.Prelude.Errno.{success}
use vsclib.Prelude.{ℕ, List, [], ◌∷◌, ◌≡◌, refl}
use vsclib.Uuid.Soundness.{IsText, parse-IsText}
use vsclib.Uuid.RoundTrip.{parse-format}
use vsclib.Uuid.Text.{Uuid, format, parse, uuid_compare, uuid_nil, uuid_max}

abbrev sample : Uuid
sample =
    0x01 ∷ 0x23 ∷ 0x45 ∷ 0x67 ∷ 0x89 ∷ 0xab ∷ 0xcd ∷ 0xef ∷ 0x10 ∷ 0x32 ∷ 0x54 ∷ 0x76 ∷ 0x98 ∷ 0xba
    ∷ 0xdc ∷ 0xfe ∷ []

sample-IsBytes : IsBytes sample
unfolding all_bytes
sample-IsBytes = all_bytes-IsBytes sample refl

format_plain : format sample 0 ≡ codes "01234567-89ab-cdef-1032-547698badcfe"
unfolding format
format_plain = refl

format_braces : format sample 5 ≡ codes "{01234567-89AB-CDEF-1032-547698BADCFE}"
unfolding format
format_braces = refl

compare_nil_max : uuid_compare uuid_nil uuid_max ≡ 0
unfolding uuid_compare
compare_nil_max = refl

parse-format_example : parse (format sample 13) ≡ (success, sample)
parse-format_example = parse-format sample 13 refl sample-IsBytes

abbrev mixed : List ℕ
mixed = codes "{00112233-4455-6677-8899-aAbBcCDdeEfF}"

abbrev mixed_bytes : Uuid
mixed_bytes =
    0 ∷ 0x11 ∷ 0x22 ∷ 0x33 ∷ 0x44 ∷ 0x55 ∷ 0x66 ∷ 0x77 ∷ 0x88 ∷ 0x99 ∷ 0xaa ∷ 0xbb ∷ 0xcc ∷ 0xdd
    ∷ 0xee ∷ 0xff ∷ []

parse-mixed : parse mixed ≡ (success, mixed_bytes)
unfolding parse
parse-mixed = refl

parse-IsText_example : IsText mixed mixed_bytes
parse-IsText_example = parse-IsText mixed mixed_bytes parse-mixed
