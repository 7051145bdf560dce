-- ===== src/Memory/Aligning.antt =====
-- What `vsc_align` and the alignment macros compute, where the alignment is a power of two.
use Prim.Native.Nat.{bit_and}
use vsclib.Memory.Alignment.{is_aligned, align_down, align_up, Aligned, align, not_size}
use vsclib.Memory.Rounding.{
  up, up-le, up-lt, up-mod, IsAlignment, IsAlignment-pos, bit_and-high, sub_size-one, bit_and-below,
  neg_size-high,
}
use vsclib.Prelude.Words.{size_max, add_size, sub_size}
use vsclib.Prelude.{
  ℕ, ◌+◌, ◌-◌, ◌*◌, ◌/◌, ◌%◌, ◌^◌, ◌≤◌, ◌<◌, ◌==◌, leb, Bool-cases, ◌⊎◌, inl, inr, if◌then◌else◌,
  ◌≡◌, refl, ap, ◌∙◌, arith,
}

-- the address that the mask leaves, where the sum does not wrap
masked_up :
    {a : ℕ} (p : ℕ)
    → IsAlignment a
    → p + a ≤ 2 ^ 64
    → bit_and (add_size p (sub_size a 1)) (not_size (sub_size a 1)) ≡ up a p
masked_up {a} p v h =
    let pos = IsAlignment-pos v in
    let sum : add_size p (sub_size a 1) ≡ p + (a - 1) = omega (arith, sub_size-one v) in
    let mask : not_size (sub_size a 1) ≡ size_max - (a - 1) = ap not_size (sub_size-one v) in
    rw (sum, mask) (bit_and-high (p + (a - 1)) v (omega arith))

-- vsc_align in arithmetic
pub align_lem :
    (a size ptr space : ℕ)
    → IsAlignment a
    → ptr + a ≤ 2 ^ 64
    → align a size ptr space ≡ (
        let unchanged : Aligned = record { result = 0; ptr = ptr; space = space } in
        if leb size space
        then if leb (up a ptr - ptr) (space - size)
          then record { result = up a ptr; ptr = up a ptr; space = space - (up a ptr - ptr) }
          else unchanged
        else unchanged)
unfolding align
align_lem a size ptr space v h =
    let pos = IsAlignment-pos v in
    let distance : sub_size (up a ptr) ptr ≡ up a ptr - ptr =
      omega (arith, up-le a ptr pos, up-lt a ptr pos) in
    rw (masked_up ptr v h, distance) refl

-- Where the alignment is a power of two and the rounding does not wrap, vsc_align gives the least
-- aligned address that is no less and takes the padding from the space if the padded size fits in it,
-- and else gives NULL and changes nothing.
pub align-cases :
    (a size ptr space : ℕ)
    → IsAlignment a
    → ptr + a ≤ 2 ^ 64
    → (let address = up a ptr in
        (address % a ≡ 0)
        × (ptr ≤ address)
        × (address < ptr + a)
        × (((size + (address - ptr) ≤ space)
              × (align a size ptr space
                  ≡ record { result = address; ptr = address; space = space - (address - ptr) }))
            ⊎ ((space < size + (address - ptr))
                × (align a size ptr space ≡ record { result = 0; ptr = ptr; space = space }))))
align-cases a size ptr space v h =
    let pos = IsAlignment-pos v in
    (
      up-mod a ptr,
      up-le a ptr pos,
      up-lt a ptr pos,
      elim (Bool-cases (leb size space)) [
        | inr large ↦ inr (ground arith, align_lem a size ptr space v h ∙ rw large refl)
        | inl enough ↦ elim (Bool-cases (leb (up a ptr - ptr) (space - size))) [
          | inl fits ↦ inl (ground arith, align_lem a size ptr space v h ∙ rw (enough, fits) refl)
          | inr beyond ↦
              inr (ground arith, align_lem a size ptr space v h ∙ rw (enough, beyond) refl)
        ]
      ],
    )

-- For a power of two, vsc_align_down and vsc_align_up round to a multiple, where that does not wrap,
-- and vsc_is_aligned tells the multiples.
pub align-macros :
    (a p : ℕ)
    → IsAlignment a
    → p + a ≤ 2 ^ 64
    → (align_down p a ≡ p / a * a) × (align_up p a ≡ up a p) × (is_aligned p a ≡ (p % a == 0))
unfolding align_down align_up is_aligned
align-macros a p v h =
    let pos = IsAlignment-pos v in
    let sum : add_size p (sub_size a 1) ≡ p + (a - 1) = omega (arith, sub_size-one v) in
    (
      ap (bit_and p) (neg_size-high v) ∙ bit_and-high p v (omega arith),
      rw (sum, neg_size-high v) (bit_and-high (p + (a - 1)) v (omega arith)),
      ap (λ m. m == 0) (bit_and-below p v),
    )
