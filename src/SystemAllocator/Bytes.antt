-- ===== src/SystemAllocator/Bytes.antt =====
-- The memory that vsclib/allocator.cpp writes its headers into: a byte for each address, and the
-- words, `memmove` and `memset` of the C language on it.
use vsclib.Prelude.{
  ℕ, Bool, true, false, ◌+◌, ◌-◌, ◌%◌, ◌^◌, ◌≤◌, ◌<◌, [], ◌∷◌, get_or, ◌&&◌, ltb, leb,
  if◌then◌else◌, ◌≡◌, ◌⊎◌, refl, ap, ◌∙◌, arith,
}
use vsclib.Io.Endian.{to_memory, of_memory}
use vsclib.Io.Transfer.{of-to_memory64}

abbrev pub Memory : Type 0
Memory = ℕ → ℕ

-- whether an address is one of the `n` from `p` on
abbrev pub covers : ℕ → ℕ → ℕ → Bool
covers p n q = leb p q && ltb q (p + n)

-- a word of 8 bytes at an address
unfoldable pub load_word : Memory → ℕ → ℕ
unfolding of_memory
load_word m p =
    of_memory
      (m p ∷ m (p + 1) ∷ m (p + 2) ∷ m (p + 3) ∷ m (p + 4) ∷ m (p + 5) ∷ m (p + 6) ∷ m (p + 7) ∷ [])

unfoldable pub store_word : Memory → ℕ → ℕ → Memory
unfolding to_memory
store_word m p v q = if covers p 8 q then get_or (to_memory 8 v) (q - p) 0 else m q

unfoldable pub memmove : Memory → ℕ → ℕ → ℕ → Memory
memmove m dst src n q = if covers dst n q then m (src + (q - dst)) else m q

unfoldable pub memset : Memory → ℕ → ℕ → ℕ → Memory
memset m p v n q = if covers p n q then v else m q

-- The memories have the same bytes from `low` on and before `high`.
abbrev pub Agree : Memory → Memory → ℕ → ℕ → Type 0
Agree m m' low high = (q : ℕ) → low ≤ q → q < high → m' q ≡ m q

covered : (p n q : ℕ) → p ≤ q → q < p + n → covers p n q ≡ true
covered p n q h h' = ground arith

uncovered : (p n q : ℕ) → (q < p) ⊎ (p + n ≤ q) → covers p n q ≡ false
uncovered p n q h = ground arith

pub load_word-Agree :
    (m m' : Memory) (low high p : ℕ)
    → Agree m m' low high
    → low ≤ p
    → p + 8 ≤ high
    → load_word m' p ≡ load_word m p
unfolding load_word of_memory
load_word-Agree m m' low high p same h h' =
    let e0 = same p (omega arith) (omega arith) in
    let e1 = same (p + 1) (omega arith) (omega arith) in
    let e2 = same (p + 2) (omega arith) (omega arith) in
    let e3 = same (p + 3) (omega arith) (omega arith) in
    let e4 = same (p + 4) (omega arith) (omega arith) in
    let e5 = same (p + 5) (omega arith) (omega arith) in
    let e6 = same (p + 6) (omega arith) (omega arith) in
    let e7 = same (p + 7) (omega arith) (omega arith) in rw (e0, e1, e2, e3, e4, e5, e6, e7) refl

-- the bytes of a number, one at a time
eight_bytes :
    (w : ℕ)
    → of_memory (
        get_or (to_memory 8 w) 0 0
        ∷ get_or (to_memory 8 w) 1 0
        ∷ get_or (to_memory 8 w) 2 0
        ∷ get_or (to_memory 8 w) 3 0
        ∷ get_or (to_memory 8 w) 4 0
        ∷ get_or (to_memory 8 w) 5 0
        ∷ get_or (to_memory 8 w) 6 0
        ∷ get_or (to_memory 8 w) 7 0
        ∷ [])
      ≡ w % 2 ^ 64
unfolding to_memory
eight_bytes w = of-to_memory64 w

stored_byte :
    (m : Memory) (p v i : ℕ) → i < 8 → store_word m p v (p + i) ≡ get_or (to_memory 8 v) i 0
unfolding store_word
stored_byte m p v i h =
    let at : p + i - p ≡ i = omega arith in
    rw (covered p 8 (p + i) (omega arith) (omega arith), at) refl

stored_first : (m : Memory) (p v : ℕ) → store_word m p v p ≡ get_or (to_memory 8 v) 0 0
stored_first m p v =
    ap (store_word m p v) {x = p} {y = p + 0} (omega arith) ∙ stored_byte m p v 0 (omega arith)

pub stored_low : (m : Memory) (p v : ℕ) → store_word m p v p ≡ v % 256
unfolding to_memory
stored_low m p v = stored_first m p v

pub load-store_word : (m : Memory) (p v : ℕ) → v < 2 ^ 64 → load_word (store_word m p v) p ≡ v
unfolding load_word
load-store_word m p v h =
    let e0 = stored_first m p v in
    let e1 = stored_byte m p v 1 (omega arith) in
    let e2 = stored_byte m p v 2 (omega arith) in
    let e3 = stored_byte m p v 3 (omega arith) in
    let e4 = stored_byte m p v 4 (omega arith) in
    let e5 = stored_byte m p v 5 (omega arith) in
    let e6 = stored_byte m p v 6 (omega arith) in
    let e7 = stored_byte m p v 7 (omega arith) in
    rw (e0, e1, e2, e3, e4, e5, e6, e7) (eight_bytes v ∙ omega arith)

pub store_word-Agree :
    (m : Memory) (p v low high : ℕ)
    → (high ≤ p) ⊎ (p + 8 ≤ low)
    → Agree m (store_word m p v) low high
unfolding store_word
store_word-Agree m p v low high h q l u = rw (uncovered p 8 q (omega arith)) refl

pub memmove-Agree :
    (m : Memory) (dst src n low high : ℕ)
    → (high ≤ dst) ⊎ (dst + n ≤ low)
    → Agree m (memmove m dst src n) low high
unfolding memmove
memmove-Agree m dst src n low high h q l u = rw (uncovered dst n q (omega arith)) refl

pub memset-Agree :
    (m : Memory) (p v n low high : ℕ)
    → (high ≤ p) ⊎ (p + n ≤ low)
    → Agree m (memset m p v n) low high
unfolding memset
memset-Agree m p v n low high h q l u = rw (uncovered p n q (omega arith)) refl

pub memmove_moved :
    (m : Memory) (dst src n i : ℕ) → i < n → memmove m dst src n (dst + i) ≡ m (src + i)
unfolding memmove
memmove_moved m dst src n i h =
    let at : dst + i - dst ≡ i = omega arith in
    rw (covered dst n (dst + i) (omega arith) (omega arith), at) refl

pub memset_set : (m : Memory) (p v n q : ℕ) → p ≤ q → q < p + n → memset m p v n q ≡ v
unfolding memset
memset_set m p v n q h h' = rw (covered p n q h h') refl

pub Agree-then :
    (m m' m'' : Memory) (low high : ℕ)
    → Agree m m' low high
    → Agree m' m'' low high
    → Agree m m'' low high
Agree-then m m' m'' low high first second q h h' = second q h h' ∙ first q h h'
