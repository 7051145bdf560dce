-- ===== src/SystemAllocator/Prepared.antt =====
-- What `malloc_` of vsclib/allocator.cpp writes into the block that the system has given.
use vsclib.Prelude.{
  ℕ, ◌+◌, ◌-◌, ◌%◌, ◌^◌, ◌≤◌, ◌<◌, ◌==◌, ==_iff, Bool-cases, pow2, pow2_pos, ◌≡◌, ◌⊎◌, inl, inr,
  refl, sym, ap, ◌∙◌, arith,
}
use vsclib.Prelude.Words.{add_size, sub_size}
use vsclib.Memory.Aligning.{align-macros}
use vsclib.Memory.Rounding.{up, up-le, up-lt, up-mod, IsAlignment}
use vsclib.SystemAllocator.Blocks.{IsBlock, multiple_of_8}
use vsclib.SystemAllocator.Bytes.{
  Memory, load_word, store_word, Agree, load_word-Agree, load-store_word, store_word-Agree,
  stored_low,
}
use vsclib.SystemAllocator.Trailing.{ctz, ctz-pow2}
use vsclib.SystemAllocator.Header.{memhdr_sig, hdr2mem, link, write_header}

-- what the system gives: a block that starts aligned and lies among the addresses
pub record IsGiven (nhdr extent : ℕ) : Type 0 where
  pub some_block : 0 < nhdr
  pub block_aligned : nhdr % 8 ≡ 0
  pub limit : nhdr + extent ≤ 2 ^ 64

module _ (nhdr size power : ℕ) (given : IsGiven nhdr (24 + size + pow2 (3 + power)))
    (small : power < 61) where
  abbrev a : ℕ
  a = pow2 (3 + power)

  -- where the data starts
  abbrev pub p : ℕ
  p = up a (nhdr + 24)

  power_of_two : IsAlignment a
  power_of_two = record { low = 3 + power; high = 61 - power; digits = omega arith; power = refl }

  a_pos : 0 < a
  a_pos = pow2_pos (3 + power)

  pub p-le : nhdr + 24 ≤ p
  p-le = up-le a (nhdr + 24) a_pos

  pub p-lt : p < nhdr + 24 + a
  p-lt = up-lt a (nhdr + 24) a_pos

  p_aligned : p % a ≡ 0
  p_aligned = up-mod a (nhdr + 24)

  pub p_word : p % 8 ≡ 0
  p_word = multiple_of_8 power p p_aligned

  size_given : size < 2 ^ 64
  size_given = omega (arith, given.limit, a_pos)

  pub hdr2mem-p : hdr2mem nhdr a ≡ p
  unfolding hdr2mem
  hdr2mem-p =
      let pos = a_pos in
      let limit = given.limit in
      let start : (nhdr + 24) % 2 ^ 64 ≡ nhdr + 24 = omega arith in
      rw start (align-macros a (nhdr + 24) power_of_two (omega arith)).1

  -- the word in front of the data, where there is padding
  linked :
      (m : Memory)
      → (p ≡ nhdr + 24) × (link m nhdr p ≡ m)
        ⊎ ((nhdr + 32 ≤ p) × (link m nhdr p ≡ store_word m (p - 8) nhdr))
  unfolding link
  linked m =
      let low = p-le in
      let high = p-lt in
      let limit = given.limit in
      let start : add_size nhdr 24 ≡ nhdr + 24 = omega arith in
      elim (Bool-cases (nhdr + 24 == p)) [
        | inl e ↦ inl (sym ((==_iff (nhdr + 24) p).0 e), rw (start, e) refl)
        | inr e ↦
            let apart : nhdr + 24 < p = ground arith in
            let far : nhdr + 32 ≤ p = omega (arith, apart, p_word, given.block_aligned) in
            let place : sub_size p 8 ≡ p - 8 = omega arith in inr (far, rw (start, e, place) refl)
      ]

  -- the memory once the header is written, before any data is moved
  abbrev pub headed : Memory → Memory
  headed m = write_header (link m nhdr p) nhdr size a

  headed_lem :
      (m : Memory)
      → headed m
        ≡ store_word
            (store_word (store_word (link m nhdr p) nhdr size) (nhdr + 8) (3 + power))
            (nhdr + 16)
            memhdr_sig
  unfolding write_header
  headed_lem m =
      let limit = given.limit in
      let pos = a_pos in
      let second : add_size nhdr 8 ≡ nhdr + 8 = omega arith in
      let third : add_size nhdr 16 ≡ nhdr + 16 = omega arith in
      let exponent : ctz a % 256 ≡ 3 + power =
        ap (λ n. n % 256) (ctz-pow2 (3 + power) (omega arith)) ∙ omega arith in
      rw (second, third, exponent) refl

  -- Behind the header, only the word in front of the data is written.
  headed-Agree :
      (m : Memory) (low high : ℕ) → nhdr + 24 ≤ low → Agree (link m nhdr p) (headed m) low high
  headed-Agree m low high h =
      let m1 = link m nhdr p in
      let m2 = store_word m1 nhdr size in
      let m3 = store_word m2 (nhdr + 8) (3 + power) in
      let m4 = store_word m3 (nhdr + 16) memhdr_sig in
      λ q l u.
        ap (λ f. f q) (headed_lem m)
        ∙ store_word-Agree m3 (nhdr + 16) memhdr_sig low high (inr (omega arith)) q l u
        ∙ store_word-Agree m2 (nhdr + 8) (3 + power) low high (inr (omega arith)) q l u
        ∙ store_word-Agree m1 nhdr size low high (inr (omega arith)) q l u

  pub headed_data : (m : Memory) (q : ℕ) → p ≤ q → headed m q ≡ m q
  headed_data m q h = headed-Agree m p (q + 1) p-le q h (omega arith) ∙ elim (linked m) [
    | inl (e, same) ↦ ap (λ f. f q) same
    | inr (far, written) ↦
        ap (λ f. f q) written
        ∙ store_word-Agree m (p - 8) nhdr p (q + 1) (inr (omega arith)) q h (omega arith)
  ]

  pub headed-IsBlock : (m : Memory) → IsBlock (headed m) nhdr p size power (24 + size + a)
  headed-IsBlock m =
      let m1 = link m nhdr p in
      let m2 = store_word m1 nhdr size in
      let m3 = store_word m2 (nhdr + 8) (3 + power) in
      let low = p-le in
      let high = p-lt in
      let limit = given.limit in
      let size_small = size_given in
      record {
        header_aligned = given.block_aligned;
        some_header = given.some_block;
        inside = omega arith;
        addressed = limit;
        reachable = omega arith;
        aligned = p_aligned;
        behind = low;
        near = high;
        beyond_power = small;
        sized =
            ap (λ f. load_word f nhdr) (headed_lem m)
            ∙ load_word-Agree m3 (store_word m3 (nhdr + 16) memhdr_sig) nhdr (nhdr + 8) nhdr
                (store_word-Agree m3 (nhdr + 16) memhdr_sig nhdr (nhdr + 8) (inl (omega arith)))
                (omega arith) (omega arith)
            ∙ load_word-Agree m2 m3 nhdr (nhdr + 8) nhdr
                (store_word-Agree m2 (nhdr + 8) (3 + power) nhdr (nhdr + 8) (inl (omega arith)))
                (omega arith) (omega arith)
            ∙ load-store_word m1 nhdr size size_small;
        powered =
            ap (λ f. load_word f (nhdr + 8)) (headed_lem m)
            ∙ load_word-Agree m3 (store_word m3 (nhdr + 16) memhdr_sig) (nhdr + 8) (nhdr + 16)
                (nhdr + 8)
                (store_word-Agree m3 (nhdr + 16) memhdr_sig (nhdr + 8) (nhdr + 16)
                  (inl (omega arith)))
                (omega arith) (omega arith)
            ∙ load-store_word m2 (nhdr + 8) (3 + power) (omega arith);
        signed =
            ap (λ f. load_word f (nhdr + 16)) (headed_lem m)
            ∙ load-store_word m3 (nhdr + 16) memhdr_sig (omega arith);
        linked = elim (linked m) [
          | inl (e, same) ↦ inl e
          | inr (far, written) ↦ inr (
            far,
            load_word-Agree m1 (headed m) (p - 8) p (p - 8) (headed-Agree m (p - 8) p (omega arith))
                  (omega arith) (omega arith)
                ∙ ap (λ f. load_word f (p - 8)) written
                ∙ load-store_word m (p - 8) nhdr (omega arith),
          )
        ];
      }

  -- No other memory is written.
  pub headed_outside :
      (m : Memory) (q : ℕ) → (q < nhdr) ⊎ (nhdr + (24 + size + a) ≤ q) → headed m q ≡ m q
  headed_outside m q outside =
      let low = p-le in
      let high = p-lt in
      let m1 = link m nhdr p in
      let m2 = store_word m1 nhdr size in
      let m3 = store_word m2 (nhdr + 8) (3 + power) in
      ap (λ f. f q) (headed_lem m)
      ∙ store_word-Agree m3 (nhdr + 16) memhdr_sig q (q + 1) (omega arith) q (omega arith)
          (omega arith)
      ∙ store_word-Agree m2 (nhdr + 8) (3 + power) q (q + 1) (omega arith) q (omega arith)
          (omega arith)
      ∙ store_word-Agree m1 nhdr size q (q + 1) (omega arith) q (omega arith) (omega arith)
      ∙ elim (linked m) [
        | inl (e, same) ↦ ap (λ f. f q) same
        | inr (far, written) ↦
            ap (λ f. f q) written
            ∙ store_word-Agree m (p - 8) nhdr q (q + 1) (omega arith) q (omega arith) (omega arith)
      ]

  -- the padding before the word in front of the data
  pub headed_padding : (m : Memory) (q : ℕ) → nhdr + 24 ≤ q → q + 8 < p → headed m q ≡ m q
  headed_padding m q h h' =
      headed-Agree m (nhdr + 24) p (omega arith) q h (omega arith) ∙ elim (linked m) [
        | inl (e, same) ↦ ap (λ f. f q) same
        | inr (far, written) ↦
            ap (λ f. f q) written
            ∙ store_word-Agree m (p - 8) nhdr q (q + 1) (inl (omega arith)) q (omega arith)
                (omega arith)
      ]

  pub headed_link : (m : Memory) → nhdr + 24 < p → headed m (p - 8) ≡ nhdr % 256
  headed_link m h = elim (linked m) [
    | inl (e, same) ↦ absurd (omega arith)
    | inr (far, written) ↦
        headed-Agree m (nhdr + 24) p (omega arith) (p - 8) (omega arith) (omega arith)
        ∙ ap (λ f. f (p - 8)) written
        ∙ stored_low m (p - 8) nhdr
  ]
