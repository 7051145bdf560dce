-- ===== src/Io/Transfer.antt =====
-- Numbers that are written into memory or a file are read back.
use vsclib.Prelude.{
  ℕ, zero, suc, ◌+◌, ◌*◌, ◌/◌, ◌%◌, ◌^◌, ◌≤◌, ◌<◌, List, [], ◌∷◌, ◌++◌, length, length-append,
  length-take, take-append-drop, append_nil, append_assoc, take-append, drop-append, drop-drop,
  true, false, length-set, set, take, drop, ltb, ◌≡◌, refl, sym, ap, ◌∙◌, arith,
}
use vsclib.Io.Bytes.{swap_uint16_bytes, swap_uint32_bytes, swap_uint64_bytes}
use vsclib.Io.Endian.{
  swap_uint16, swap_uint32, swap_uint64, to_memory, of_memory, put, write_uint, read_uint,
  write_leu16, write_leu32, write_leu64, write_beu16, write_beu32, write_beu64, read_leu16,
  read_leu32, read_leu64, read_beu16, read_beu32, read_beu64, fread_uint, fwrite_uint, fwrite_leu32,
  fread_leu32, fwrite_beu32, fread_beu32,
}

pub length-put : (buf : List ℕ) (p : ℕ) (bytes : List ℕ) → length (put buf p bytes) ≡ length buf
unfolding put
length-put buf p [] = refl
length-put buf p (b ∷ bytes) = length-put (set buf p b) (p + 1) bytes ∙ length-set buf p b

set-append : (a : List ℕ) (y b : ℕ) (c : List ℕ) → set (a ++ y ∷ c) (length a) b ≡ a ++ b ∷ c
set-append [] y b c = refl
set-append (x ∷ a) y b c = ap (λ l. x ∷ l) (set-append a y b c)

-- Bytes that fit are put behind the front.
pub put-append :
    (front bytes rest : List ℕ)
    → length bytes ≤ length rest
    → put (front ++ rest) (length front) bytes ≡ (front ++ bytes) ++ drop (length bytes) rest
unfolding put
put-append front [] rest h = let nil : front ++ [] ≡ front = append_nil front in rw (nil) refl
put-append front (b ∷ bytes) [] h = absurd (omega arith)
put-append front (b ∷ bytes) (y ∷ rest) h =
    let next : length (front ++ b ∷ []) ≡ length front + 1 = length-append front (b ∷ []) in
    let place : set (front ++ y ∷ rest) (length front) b ≡ (front ++ b ∷ []) ++ rest =
      set-append front y b rest ∙ sym (append_assoc front (b ∷ []) rest) in
    rw (place, sym next)
      (put-append (front ++ b ∷ []) bytes rest (omega arith)
        ∙ ap (λ l. l ++ drop (length bytes) rest) (append_assoc front (b ∷ []) bytes))

pub length-to_memory : (n v : ℕ) → length (to_memory n v) ≡ n
unfolding to_memory
length-to_memory zero v = refl
length-to_memory (suc n) v = ap suc (length-to_memory n (v / 256))

-- The number is read back from `p`, where `size` bytes are written and no others.
pub record IsStored (size : ℕ) (read : List ℕ → ℕ → ℕ) (buf : List ℕ) (p v : ℕ) (written : List ℕ)
    : Type 0 where
  pub back : read written p ≡ v % 2 ^ (8 * size)
  pub whole : length written ≡ length buf
  pub before : take p written ≡ take p buf
  pub behind : drop (p + size) written ≡ drop (p + size) buf

take_self : (front rest : List ℕ) (p : ℕ) → length front ≡ p → take p (front ++ rest) ≡ front
take_self front rest p e = ap (λ n. take n (front ++ rest)) (sym e) ∙ take-append front rest

drop_self : (front rest : List ℕ) (p : ℕ) → length front ≡ p → drop p (front ++ rest) ≡ rest
drop_self front rest p e = ap (λ n. drop n (front ++ rest)) (sym e) ∙ drop-append front rest

-- The bytes of a number that fits stand between what stood before and behind them.
write_uint-append :
    (size : ℕ) (buf : List ℕ) (p v : ℕ)
    → p + size ≤ length buf
    → write_uint size buf p v ≡ take p buf ++ (to_memory size v ++ drop (p + size) buf)
unfolding write_uint
write_uint-append size buf p v h =
    let bytes = to_memory size v in
    let len = length-to_memory size v in
    let front : length (take p buf) ≡ p = omega (arith, length-take p buf) in
    let cut = take-append-drop p buf in
    let sizes : length (take p buf) + length (drop p buf) ≡ length buf =
      sym (length-append (take p buf) (drop p buf)) ∙ ap length cut in
    let rest : drop (length bytes) (drop p buf) ≡ drop (p + size) buf =
      ap (λ n. drop n (drop p buf)) len ∙ drop-drop p size buf in
    ap (λ l. put l p bytes) (sym cut)
    ∙ ap (λ n. put (take p buf ++ drop p buf) n bytes) (sym front)
    ∙ put-append (take p buf) bytes (drop p buf) (omega arith)
    ∙ ap (λ l. (take p buf ++ bytes) ++ l) rest
    ∙ append_assoc (take p buf) bytes (drop (p + size) buf)

-- Where the bytes of the number `stored` are read as `v`, `v` is stored.
write_uint-IsStored :
    (size : ℕ) (read : List ℕ → ℕ → ℕ) (buf : List ℕ) (p v stored : ℕ)
    → p + size ≤ length buf
    → ((w : List ℕ) → take size (drop p w) ≡ to_memory size stored → read w p ≡ v % 2 ^ (8 * size))
    → IsStored size read buf p v (write_uint size buf p stored)
unfolding write_uint
write_uint-IsStored size read buf p v stored h reads =
    let bytes = to_memory size stored in
    let len = length-to_memory size stored in
    let laid = write_uint-append size buf p stored h in
    let front : length (take p buf) ≡ p = omega (arith, length-take p buf) in
    let rest = drop (p + size) buf in
    let there : take size (drop p (put buf p bytes)) ≡ bytes =
      ap (λ l. take size (drop p l)) laid
      ∙ ap (take size) (drop_self (take p buf) (bytes ++ rest) p front)
      ∙ take_self bytes rest size len in
    let both : length (take p buf ++ bytes) ≡ p + size =
      omega (arith, length-append (take p buf) bytes) in
    record {
      back = reads (put buf p bytes) there;
      whole = length-put buf p bytes;
      before = ap (take p) laid ∙ take_self (take p buf) (bytes ++ rest) p front;
      behind =
          ap (drop (p + size)) (laid ∙ sym (append_assoc (take p buf) bytes rest))
          ∙ drop_self (take p buf ++ bytes) rest (p + size) both;
    }

-- the number of a few bytes
pub of-to_memory16 : (v : ℕ) → of_memory (to_memory 2 v) ≡ v % 2 ^ 16
unfolding of_memory to_memory
of-to_memory16 v = omega arith

pub of-to_memory32 : (v : ℕ) → of_memory (to_memory 4 v) ≡ v % 2 ^ 32
unfolding of_memory to_memory
of-to_memory32 v = omega arith

pub of-to_memory64 : (v : ℕ) → of_memory (to_memory 8 v) ≡ v % 2 ^ 64
unfolding of_memory to_memory
of-to_memory64 v = omega arith

swap-swap16 : (v : ℕ) → swap_uint16 (swap_uint16 v % 2 ^ 16) ≡ v % 2 ^ 16
swap-swap16 v = omega (arith, swap_uint16_bytes v, swap_uint16_bytes (swap_uint16 v % 2 ^ 16))

swap-swap32 : (v : ℕ) → swap_uint32 (swap_uint32 v % 2 ^ 32) ≡ v % 2 ^ 32
swap-swap32 v = omega (arith, swap_uint32_bytes v, swap_uint32_bytes (swap_uint32 v % 2 ^ 32))

swap-swap64 : (v : ℕ) → swap_uint64 (swap_uint64 v % 2 ^ 64) ≡ v % 2 ^ 64
swap-swap64 v = omega (arith, swap_uint64_bytes v, swap_uint64_bytes (swap_uint64 v % 2 ^ 64))

-- A number that fits is stored in either byte order, for 16, 32 and 64 bits.
write-IsStored :
    (buf : List ℕ) (p16 p32 p64 v : ℕ)
    → p16 + 2 ≤ length buf
    → p32 + 4 ≤ length buf
    → p64 + 8 ≤ length buf
    → IsStored 2 read_leu16 buf p16 v (write_leu16 buf p16 v)
      × IsStored 4 read_leu32 buf p32 v (write_leu32 buf p32 v)
      × IsStored 8 read_leu64 buf p64 v (write_leu64 buf p64 v)
      × IsStored 2 read_beu16 buf p16 v (write_beu16 buf p16 v)
      × IsStored 4 read_beu32 buf p32 v (write_beu32 buf p32 v)
      × IsStored 8 read_beu64 buf p64 v (write_beu64 buf p64 v)
unfolding write_leu16 write_leu32 write_leu64 write_beu16 write_beu32 write_beu64 read_leu16
    read_leu32 read_leu64 read_beu16 read_beu32 read_beu64 read_uint
write-IsStored buf p16 p32 p64 v h16 h32 h64 = (
  write_uint-IsStored 2 read_leu16 buf p16 v v h16 (λ w e. ap of_memory e ∙ of-to_memory16 v),
  write_uint-IsStored 4 read_leu32 buf p32 v v h32 (λ w e. ap of_memory e ∙ of-to_memory32 v),
  write_uint-IsStored 8 read_leu64 buf p64 v v h64 (λ w e. ap of_memory e ∙ of-to_memory64 v),
  write_uint-IsStored 2 read_beu16 buf p16 v (swap_uint16 v) h16
      (λ w e. ap swap_uint16 (ap of_memory e ∙ of-to_memory16 (swap_uint16 v)) ∙ swap-swap16 v),
  write_uint-IsStored 4 read_beu32 buf p32 v (swap_uint32 v) h32
      (λ w e. ap swap_uint32 (ap of_memory e ∙ of-to_memory32 (swap_uint32 v)) ∙ swap-swap32 v),
  write_uint-IsStored 8 read_beu64 buf p64 v (swap_uint64 v) h64
      (λ w e. ap swap_uint64 (ap of_memory e ∙ of-to_memory64 (swap_uint64 v)) ∙ swap-swap64 v),
)

-- The file that holds a number at its front gives it back, and is left with what stands behind.
fread_uint_front :
    (size v : ℕ) (rest : List ℕ)
    → fread_uint size (fwrite_uint size [] v ++ rest) ≡ (of_memory (to_memory size v), rest)
unfolding fread_uint fwrite_uint
fread_uint_front size v rest =
    let len = length-to_memory size v in
    let whole = length-append (to_memory size v) rest in
    let enough : ltb (length (to_memory size v ++ rest)) size ≡ false = ground arith in
    let front =
      ap (λ n. take n (to_memory size v ++ rest)) (sym len) ∙ take-append (to_memory size v) rest in
    let back =
      ap (λ n. drop n (to_memory size v ++ rest)) (sym len) ∙ drop-append (to_memory size v) rest in
    rw (enough, front, back) refl

short_file : (f : List ℕ) → length f < 4 → fread_uint 4 f ≡ (0, [])
unfolding fread_uint
short_file f h = let short : ltb (length f) 4 ≡ true = ground arith in rw short refl

-- A number that is written to an empty file, in either byte order, is read back from its front and
-- what stands behind is left; a file of fewer than four bytes gives 0 and is read to its end.
fread-fwrite :
    (v : ℕ) (rest f : List ℕ)
    → length f < 4
    → (fread_leu32 (fwrite_leu32 [] v ++ rest) ≡ (v % 2 ^ 32, rest))
      × (fread_beu32 (fwrite_beu32 [] v ++ rest) ≡ (v % 2 ^ 32, rest))
      × (fread_leu32 f ≡ (0, []))
      × (fread_beu32 f ≡ (0, []))
unfolding fread_leu32 fwrite_leu32 fread_beu32 fwrite_beu32
fread-fwrite v rest f short = (
  rw (fread_uint_front 4 v rest) (ap (λ n. (n, rest)) (of-to_memory32 v)),
  rw (fread_uint_front 4 (swap_uint32 v) rest) (
      ap (λ n. (swap_uint32 n, rest)) (of-to_memory32 (swap_uint32 v))
      ∙ ap (λ n. (n, rest)) (swap-swap32 v)),
  rw (short_file f short) refl,
  rw (short_file f short) (ap (λ n. (n, [])) (omega (arith, swap_uint32_bytes 0))),
)

-- A number of 16, 32 or 64 bits that is written where its 2, 4 or 8 bytes fit in the buffer, in either
-- byte order, is read back, and the bytes before and behind these are as they were; a number of 32 bits
-- that is written to an empty file is read back with what stands behind it left, and a file of fewer
-- than four bytes gives 0 and is read to its end.
pub written-read :
    (buf : List ℕ) (p16 p32 p64 v : ℕ) (rest f : List ℕ)
    → p16 + 2 ≤ length buf
    → p32 + 4 ≤ length buf
    → p64 + 8 ≤ length buf
    → length f < 4
    → (IsStored 2 read_leu16 buf p16 v (write_leu16 buf p16 v)
        × IsStored 4 read_leu32 buf p32 v (write_leu32 buf p32 v)
        × IsStored 8 read_leu64 buf p64 v (write_leu64 buf p64 v)
        × IsStored 2 read_beu16 buf p16 v (write_beu16 buf p16 v)
        × IsStored 4 read_beu32 buf p32 v (write_beu32 buf p32 v)
        × IsStored 8 read_beu64 buf p64 v (write_beu64 buf p64 v))
      × ((fread_leu32 (fwrite_leu32 [] v ++ rest) ≡ (v % 2 ^ 32, rest))
          × (fread_beu32 (fwrite_beu32 [] v ++ rest) ≡ (v % 2 ^ 32, rest))
          × (fread_leu32 f ≡ (0, []))
          × (fread_beu32 f ≡ (0, [])))
written-read buf p16 p32 p64 v rest f h16 h32 h64 short =
    (write-IsStored buf p16 p32 p64 v h16 h32 h64, fread-fwrite v rest f short)
