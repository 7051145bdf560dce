-- ===== src/Memory/Layout.antt =====
-- What pass 1 of `vsc_block_xalloc` asks for, and what a layout of blocks is.
use vsclib.Memory.Alignment.{align}
use vsclib.Memory.Aligning.{align-cases}
use vsclib.Memory.Allocation.{Allocator}
use vsclib.Memory.Blocks.{BlockAllocInfo, block_size, pass1}
use vsclib.Memory.Requests.{aligned}
use vsclib.Memory.Rounding.{up, up-le, up-lt, IsAlignment, IsAlignment-pos}
use vsclib.Prelude.Words.{size_max, add_size}
use vsclib.Prelude.{
  ℕ, ◌+◌, ◌-◌, ◌%◌, ◌^◌, ◌≤◌, ◌<◌, List, [], ◌∷◌, ◌≡◌, inl, inr, refl, ap, ◌∙◌, arith,
}

-- an aligned address: where the padded size fits, it is found
pub align-fits :
    (alignment size ptr space : ℕ)
    → IsAlignment alignment
    → ptr + alignment ≤ 2 ^ 64
    → size + (up alignment ptr - ptr) ≤ space
    → align alignment size ptr space ≡ record {
      result = up alignment ptr;
      ptr = up alignment ptr;
      space = space - (up alignment ptr - ptr);
    }
align-fits alignment size ptr space v word fits =
    elim ((align-cases alignment size ptr space v word).3) [
      | inl (_, e) ↦ e
      | inr (short, _) ↦ absurd (omega arith)
    ]

module _ {ℓ} {Heap : Type ℓ} (a : Allocator Heap) (base widest : ℕ) where
  -- Alignments are powers of two of which `base` is a multiple, and none is above `widest`.
  pub data AreAligned : List BlockAllocInfo → Type 0 where
    none_left : AreAligned []
    one_more :
        {info : BlockAllocInfo} {infos : List BlockAllocInfo}
        → IsAlignment (aligned a info.alignment)
        → aligned a info.alignment ≤ widest
        → base % aligned a info.alignment ≡ 0
        → AreAligned infos
        → AreAligned (info ∷ infos)

  -- the bytes that pass 1 asks for, behind `r` bytes
  abbrev pub needed : ℕ → List BlockAllocInfo → ℕ
  needed r [] = r
  needed r (info ∷ infos) = needed (up (aligned a info.alignment) r + block_size info) infos

  -- Every block that is not empty stands aligned, behind the blocks before it and before `limit`.
  pub data AreLaid (limit : ℕ) : ℕ → List BlockAllocInfo → List ℕ → Type 0 where
    all_laid : {from : ℕ} → AreLaid limit from [] []
    empty_one :
        {from : ℕ} {info : BlockAllocInfo} {infos : List BlockAllocInfo} {ptrs : List ℕ}
        → block_size info ≡ 0
        → AreLaid limit from infos ptrs
        → AreLaid limit from (info ∷ infos) (0 ∷ ptrs)
    laid_one :
        {from p : ℕ} {info : BlockAllocInfo} {infos : List BlockAllocInfo} {ptrs : List ℕ}
        → from ≤ p
        → p % aligned a info.alignment ≡ 0
        → p + block_size info ≤ limit
        → AreLaid limit (p + block_size info) infos ptrs
        → AreLaid limit from (info ∷ infos) (p ∷ ptrs)

  pub needed-le : (r : ℕ) (infos : List BlockAllocInfo) → AreAligned infos → r ≤ needed r infos
  needed-le r [] v = omega arith
  needed-le r (info ∷ infos) (one_more v le m vs) =
      let next = up (aligned a info.alignment) r + block_size info in
      omega (arith, up-le (aligned a info.alignment) r (IsAlignment-pos v), needed-le next infos vs)

  pub pass1-needed :
      (r : ℕ) (infos : List BlockAllocInfo)
      → AreAligned infos
      → needed r infos + widest < 2 ^ 64
      → pass1 a r infos ≡ needed r infos
  unfolding pass1
  pass1-needed r [] v fits = refl
  pass1-needed r (info ∷ infos) (one_more v le m vs) fits =
      let alignment = aligned a info.alignment in
      let size = block_size info in
      let pos = IsAlignment-pos v in
      let next = up alignment r + size in
      let later = needed-le next infos vs in
      let place =
        align-fits alignment size r size_max v (omega (arith, up-le alignment r pos))
          (omega (arith, up-le alignment r pos)) in
      let sum : add_size r (add_size size (size_max - (size_max - (up alignment r - r)))) ≡ next =
        omega (arith, up-le alignment r pos, up-lt alignment r pos) in
      ap (λ p. pass1 a (add_size r (add_size size (size_max - p.space))) infos) place
      ∙ ap (λ n. pass1 a n infos) sum
      ∙ pass1-needed next infos vs fits
