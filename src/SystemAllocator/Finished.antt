-- ===== src/SystemAllocator/Finished.antt =====
-- The moving and the zeroing of data at the end of `malloc_` of vsclib/allocator.cpp.
use vsclib.Prelude.{
  ℕ, ◌+◌, ◌-◌, ◌≤◌, ◌<◌, Bool, true, not, ◌&&◌, &&_both, ◌==◌, ltb, if◌then◌else◌, Bool-cases, pow2,
  ◌≡◌, ◌⊎◌, inl, inr, refl, ap, ◌∙◌, arith,
}
use vsclib.Prelude.Words.{add_size, sub_size}
use vsclib.SystemAllocator.Blocks.{IsBlock, IsBlock-Agree, header_size-IsBlock}
use vsclib.SystemAllocator.Bytes.{Memory, memset, Agree, memmove-Agree, memset-Agree, memset_set}
use vsclib.SystemAllocator.Header.{Old, shift_data, zero_rest, prepare}
use vsclib.SystemAllocator.Prepared.{IsGiven, p, hdr2mem-p, headed, headed-IsBlock}

module _ (m : Memory) (hdr p size power extent : ℕ) (b : IsBlock m hdr p size power extent) where
  zero_rest_lem :
      (wanted : Bool) (oldsize : ℕ)
      → zero_rest wanted oldsize hdr m p
        ≡ (if wanted && ltb oldsize size then memset m (p + oldsize) 0 (size - oldsize) else m)
  unfolding zero_rest
  zero_rest_lem wanted oldsize =
      rw (header_size-IsBlock b) (elim (Bool-cases (wanted && ltb oldsize size)) [
        | inr e ↦ rw e refl
        | inl e ↦
            let within = b.inside in
            let limit = b.addressed in
            let (asked, more) = &&_both wanted (ltb oldsize size) e in
            let less : oldsize < size = ground arith in
            let place : add_size p oldsize ≡ p + oldsize = omega arith in
            let rest : sub_size size oldsize ≡ size - oldsize = omega arith in
            rw (e, place, rest) refl
      ])

  -- The zeros stand behind what was there before, within the data.
  zero_rest-Agree :
      (wanted : Bool) (oldsize low high : ℕ)
      → (high ≤ p + oldsize) ⊎ (p + size ≤ low)
      → Agree m (zero_rest wanted oldsize hdr m p) low high
  zero_rest-Agree wanted oldsize low high h q l u =
      ap (λ f. f q) (zero_rest_lem wanted oldsize)
      ∙ (elim (Bool-cases (wanted && ltb oldsize size)) [
        | inr e ↦ rw e refl
        | inl e ↦
            let (asked, more) = &&_both wanted (ltb oldsize size) e in
            let less : oldsize < size = ground arith in
            rw e (memset-Agree m (p + oldsize) 0 (size - oldsize) low high (omega arith) q l u)
      ])

  zero_rest_zero :
      (oldsize i : ℕ) → oldsize ≤ i → i < size → zero_rest true oldsize hdr m p (p + i) ≡ 0
  zero_rest_zero oldsize i h h' =
      let some_rest : ltb oldsize size ≡ true = ground arith in
      ap (λ f. f (p + i)) (zero_rest_lem true oldsize)
      ∙ rw some_rest
          (memset_set m (p + oldsize) 0 (size - oldsize) (p + i) (omega arith) (omega arith))

shift_data-Agree :
    (reallocates : Bool) (old : Old) (m : Memory) (nhdr p low : ℕ)
    → Agree m (shift_data reallocates old m nhdr p) low p
unfolding shift_data
shift_data-Agree reallocates old m nhdr p low q l u =
    elim (Bool-cases (reallocates && not (old.shift == sub_size p nhdr))) [
      | inr e ↦ rw e refl
      | inl e ↦
          rw e (
            memmove-Agree m p (add_size nhdr old.shift) old.oldsize low p (inl (omega arith)) q l u)
    ]

-- what `malloc_` writes, in terms of the parts
module _ (reallocates wanted : Bool) (old : Old) (nhdr size power : ℕ)
    (given : IsGiven nhdr (24 + size + pow2 (3 + power))) (small : power < 61) (m : Memory) where
  abbrev pub data_at : ℕ
  data_at = p nhdr size power given small

  abbrev pub moved : Memory
  moved = shift_data reallocates old (headed nhdr size power given small m) nhdr data_at

  abbrev pub after : Memory
  after = prepare reallocates wanted old size (pow2 (3 + power)) m nhdr

  after_lem : after ≡ zero_rest wanted old.oldsize nhdr moved data_at
  unfolding prepare
  after_lem = rw (hdr2mem-p nhdr size power given small) refl

  moved-IsBlock : IsBlock moved nhdr data_at size power (24 + size + pow2 (3 + power))
  moved-IsBlock =
      IsBlock-Agree (headed nhdr size power given small m) moved nhdr data_at size power
        (24 + size + pow2 (3 + power))
        (shift_data-Agree reallocates old (headed nhdr size power given small m) nhdr data_at nhdr)
        (headed-IsBlock nhdr size power given small m)

  pub after-IsBlock : IsBlock after nhdr data_at size power (24 + size + pow2 (3 + power))
  after-IsBlock =
      IsBlock-Agree moved after nhdr data_at size power (24 + size + pow2 (3 + power))
        (λ q l u.
          ap (λ f. f q) after_lem
          ∙ zero_rest-Agree moved nhdr data_at size power (24 + size + pow2 (3 + power))
              moved-IsBlock wanted old.oldsize nhdr data_at (inl (omega arith)) q l u)
        moved-IsBlock

  -- where no zero is written
  pub after_kept : (q : ℕ) → (q < data_at + old.oldsize) ⊎ (data_at + size ≤ q) → after q ≡ moved q
  after_kept q h =
      ap (λ f. f q) after_lem
      ∙ zero_rest-Agree moved nhdr data_at size power (24 + size + pow2 (3 + power)) moved-IsBlock
          wanted old.oldsize q (q + 1) (omega arith) q (omega arith) (omega arith)

  pub after_zero : (i : ℕ) → wanted ≡ true → old.oldsize ≤ i → i < size → after (data_at + i) ≡ 0
  after_zero i asked h h' =
      ap (λ f. f (data_at + i)) after_lem
      ∙ ap (λ w. zero_rest w old.oldsize nhdr moved data_at (data_at + i)) asked
      ∙ zero_rest_zero moved nhdr data_at size power (24 + size + pow2 (3 + power)) moved-IsBlock
          old.oldsize i h h'
