-- ===== src/SystemAllocator/Moved.antt =====
-- The data of a block that `malloc_` of vsclib/allocator.cpp moves to a new one.
use vsclib.Prelude.Words.{sub_size, add_size}
use vsclib.Prelude.{
  ℕ, ◌+◌, ◌-◌, ◌%◌, ◌^◌, ◌≤◌, ◌<◌, Bool, true, ◌==◌, ltb, ==_iff, Bool-cases, pow2, ◌≡◌, ◌⊎◌, inl,
  inr, refl, ap, ◌∙◌, arith,
}
use vsclib.SystemAllocator.Blocks.{IsBlock, mem2hdr-IsBlock, header_size-IsBlock}
use vsclib.SystemAllocator.Bytes.{Memory, memmove_moved}
use vsclib.SystemAllocator.Finished.{data_at, moved, after, after_kept}
use vsclib.SystemAllocator.Header.{Old, old_block, shift_data}
use vsclib.SystemAllocator.Prepared.{
  IsGiven, p-le, p-lt, p_word, headed, headed_data, headed_padding, headed_link,
}

-- what `malloc_` reads of the block
abbrev pub block_of : ℕ → ℕ → ℕ → Old
block_of hdr ptr oldsize = record { hdr = hdr; oldsize = oldsize; shift = ptr - hdr }

pub old_block-IsBlock :
    (m : Memory) (hdr ptr oldsize oldpower oldextent : ℕ)
    → IsBlock m hdr ptr oldsize oldpower oldextent
    → old_block true m ptr ≡ block_of hdr ptr oldsize
unfolding old_block
old_block-IsBlock m hdr ptr oldsize oldpower oldextent b =
    let distance : sub_size ptr hdr ≡ ptr - hdr = omega (arith, b.behind, b.reachable) in
    rw (mem2hdr-IsBlock b, header_size-IsBlock b, distance) refl

-- The new data has the bytes of the old, or the low byte of the header's address stands over one of
-- them. `shift` is how far the old data stood from its header.
pub data IsMoved (old new : Memory) (shift oldsize nhdr block size : ℕ) (ptr : ℕ) : Type 0 where
  kept :
      (block - nhdr ≤ shift) ⊎ (shift + oldsize + 8 ≤ block - nhdr)
      → ((i : ℕ) → i < oldsize → i < size → new (block + i) ≡ old (ptr + i))
      → IsMoved old new shift oldsize nhdr block size ptr
  overwritten :
      shift < block - nhdr
      → block - nhdr - shift - 8 < oldsize
      → new (block + (block - nhdr - shift - 8)) ≡ nhdr % 256
      → IsMoved old new shift oldsize nhdr block size ptr

-- what stands in the new block before anything is written over it, at the old data's place
module _ (wanted : Bool) (hdr ptr oldsize nhdr size power : ℕ)
    (given : IsGiven nhdr (24 + size + pow2 (3 + power))) (small : power < 61) (m : Memory)
    (behind : hdr + 24 ≤ ptr) (word : nhdr + (ptr - hdr) < 2 ^ 64) where
  abbrev old : Old
  old = block_of hdr ptr oldsize

  abbrev place : ℕ
  place = data_at true wanted old nhdr size power given small m

  abbrev written : Memory
  written = headed nhdr size power given small m

  place-sub : sub_size place nhdr ≡ place - nhdr
  place-sub =
      let low = p-le nhdr size power given small in
      let high = p-lt nhdr size power given small in let limit = given.limit in omega arith

  -- Where the padding changed, the bytes come from the old place.
  moved_from :
      (i : ℕ)
      → i < oldsize
      → moved true wanted old nhdr size power given small m (place + i)
        ≡ written (nhdr + (ptr - hdr) + i)
  unfolding shift_data
  moved_from i h =
      let low = p-le nhdr size power given small in
      let start : add_size nhdr (ptr - hdr) ≡ nhdr + (ptr - hdr) = omega arith in
      elim (Bool-cases (ptr - hdr == place - nhdr)) [
        | inl same ↦
            let offset = (==_iff (ptr - hdr) (place - nhdr)).0 same in
            rw (place-sub, same) (ap written (omega (arith, offset)))
        | inr other ↦
            rw (place-sub, other, start)
              (memmove_moved written place (nhdr + (ptr - hdr)) oldsize i h)
      ]

  after_from :
      (i : ℕ)
      → i < oldsize
      → after true wanted old nhdr size power given small m (place + i)
        ≡ written (nhdr + (ptr - hdr) + i)
  after_from i h =
      after_kept true wanted old nhdr size power given small m (place + i) (inl (omega arith))
      ∙ moved_from i h

  pub after-IsMoved :
      (old_memory : Memory)
      → ((i : ℕ) → i < oldsize → i < size → m (nhdr + (ptr - hdr) + i) ≡ old_memory (ptr + i))
      → nhdr % 8 ≡ 0
      → (ptr - hdr) % 8 ≡ 0
      → IsMoved old_memory
          (after true wanted old nhdr size power given small m)
          (ptr - hdr)
          oldsize
          nhdr
          place
          size
          ptr
  after-IsMoved old_memory copied header_word shift_word =
      let low = p-le nhdr size power given small in
      let data_word = p_word nhdr size power given small in
      elim (Bool-cases (ltb (ptr - hdr) (place - nhdr))) [
        | inr near ↦
            let no_farther : place - nhdr ≤ ptr - hdr = ground arith in
            kept (inl no_farther) (λ i h h'.
              after_from i h
              ∙ headed_data nhdr size power given small m (nhdr + (ptr - hdr) + i) (omega arith)
              ∙ copied i h h')
        | inl far ↦
            let farther : ptr - hdr < place - nhdr = ground arith in
            elim (Bool-cases (ltb (place - nhdr - (ptr - hdr) - 8) oldsize)) [
              | inl reaches ↦
                  let inside : place - nhdr - (ptr - hdr) - 8 < oldsize = ground arith in
                  let gap = place - nhdr - (ptr - hdr) - 8 in
                  let front : nhdr + (ptr - hdr) + gap ≡ place - 8 =
                    omega (arith, data_word, header_word, shift_word) in
                  overwritten farther inside (
                    after_from gap inside
                    ∙ ap written front
                    ∙ headed_link nhdr size power given small m (omega arith))
              | inr short ↦
                  let before : ptr - hdr + oldsize + 8 ≤ place - nhdr =
                    let least : oldsize ≤ place - nhdr - (ptr - hdr) - 8 = ground arith in
                    omega (arith, data_word, header_word, shift_word) in
                  kept (inr before) (λ i h h'.
                    after_from i h
                    ∙ headed_padding nhdr size power given small m (nhdr + (ptr - hdr) + i)
                        (omega arith) (omega arith)
                    ∙ copied i h h')
            ]
      ]
