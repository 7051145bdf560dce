-- ===== src/Memory/Placing.antt =====
-- That pass 2 of `vsc_block_xalloc` finds room for every block, where the allocation is aligned for
-- all of them.
use vsclib.Memory.Alignment.{align}
use vsclib.Memory.Allocation.{Allocator}
use vsclib.Memory.Blocks.{BlockAllocInfo, block_size, out, Blocks, pass2}
use vsclib.Memory.Requests.{aligned}
use vsclib.Memory.Rounding.{up, up-le, up_mono, up-add, up-mod, IsAlignment-pos}
use vsclib.Prelude.Words.{add_size, sub_size}
use vsclib.Prelude.{
  ℕ, ◌+◌, ◌-◌, ◌%◌, ◌^◌, ◌≤◌, ◌<◌, List, [], ◌∷◌, true, ==_ne, ◌≡◌, ◌≢◌, refl, sym, ap, subst, ◌∙◌,
  ℕ_discrete, arith,
}
use vsclib.Memory.Layout.{
  align-fits, AreAligned, one_more, needed, needed-le, AreLaid, all_laid, empty_one, laid_one,
}

module _ {ℓ} {Heap : Type ℓ} (a : Allocator Heap) (base reqsize : ℕ) where
  pass2_nil :
      (lastptr prev_size : ℕ)
      → pass2 a base reqsize lastptr prev_size [] ≡ record { found = true; ptrs = []; outs = [] }
  unfolding pass2
  pass2_nil lastptr prev_size = refl

  pass2_empty :
      (lastptr prev_size : ℕ) (info : BlockAllocInfo) (infos : List BlockAllocInfo)
      → block_size info ≡ 0
      → pass2 a base reqsize lastptr prev_size (info ∷ infos) ≡ (
          let rest = pass2 a base reqsize lastptr prev_size infos in
          record { found = rest.found; ptrs = 0 ∷ rest.ptrs; outs = out info 0 ∷ rest.outs })
  unfolding pass2
  pass2_empty lastptr prev_size info infos e = rw e refl

  pass2_full :
      (lastptr prev_size q : ℕ) (info : BlockAllocInfo) (infos : List BlockAllocInfo)
      → block_size info ≢ 0
      → (align
          (aligned a info.alignment)
          (block_size info)
          (add_size lastptr prev_size)
          (sub_size reqsize (sub_size (add_size lastptr prev_size) base))).result
        ≡ q
      → q ≢ 0
      → pass2 a base reqsize lastptr prev_size (info ∷ infos) ≡ (
          let rest = pass2 a base reqsize q (block_size info) infos in
          record { found = rest.found; ptrs = q ∷ rest.ptrs; outs = out info q ∷ rest.outs })
  unfolding pass2
  pass2_full lastptr prev_size q info infos full e ne = rw (==_ne full, e, ==_ne ne) refl

module _ {ℓ} {Heap : Type ℓ} (a : Allocator Heap) (base widest : ℕ) (some_base : base ≢ 0) where
  -- `o` bytes behind the start, with `o` no more than pass 1 had counted
  pub pass2-AreLaid :
      (reqsize lastptr prev_size o r : ℕ) (infos : List BlockAllocInfo)
      → AreAligned a base widest infos
      → lastptr + prev_size ≡ base + o
      → o ≤ r
      → needed a base widest r infos ≤ reqsize
      → base + reqsize + widest < 2 ^ 64
      → (let placed = pass2 a base reqsize lastptr prev_size infos in
          (placed.found ≡ true)
          × AreLaid a base widest (base + reqsize) (base + o) infos placed.ptrs)
  pass2-AreLaid reqsize lastptr prev_size o r [] v at before enough word =
      rw (pass2_nil a base reqsize lastptr prev_size) (refl, all_laid)
  pass2-AreLaid reqsize lastptr prev_size o r (info ∷ infos) (one_more v le m vs) at before enough
        word =
      let alignment = aligned a info.alignment in
      let size = block_size info in
      let pos = IsAlignment-pos v in
      let next = up alignment r + size in
      let later = needed-le a base widest next infos vs in
      let p : add_size lastptr prev_size ≡ base + o = omega (arith, up-le alignment r pos) in
      let space : sub_size reqsize (sub_size (base + o) base) ≡ reqsize - o =
        omega (arith, up-le alignment r pos) in
      elim (ℕ_discrete size 0) [
        | yes empty ↦
            let (found, laid) =
              pass2-AreLaid reqsize lastptr prev_size o next infos vs at
                (omega (arith, up-le alignment r pos)) enough word in
            rw (pass2_empty a base reqsize lastptr prev_size info infos empty)
              (found, empty_one empty laid)
        | no full ↦
            let q = base + up alignment o in
            let higher = up_mono alignment o r pos before in
            let address : up alignment (base + o) ≡ q = up-add alignment base o pos m in
            let place =
              align-fits alignment size (base + o) (reqsize - o) v (omega arith)
                (omega (arith, address, up-le alignment o pos)) in
            let result : (align alignment size (add_size lastptr prev_size)
                  (sub_size reqsize (sub_size (add_size lastptr prev_size) base))).result
                ≡ q =
              rw (p, space) (ap (λ x. x.result) place ∙ address) in
            let (found, laid) =
              pass2-AreLaid reqsize q size (up alignment o + size) next infos vs (omega arith)
                (omega arith) enough word in
            let whole : base + (up alignment o + size) ≡ q + size = omega arith in
            let multiple : q % alignment ≡ 0 =
              ap (λ n. n % alignment) (sym address) ∙ up-mod alignment (base + o) in
            rw
              (pass2_full a base reqsize lastptr prev_size q info infos full result
                (λ e. absurd (omega (arith, e, some_base))))
              (
                found,
                laid_one (omega (arith, up-le alignment o pos)) multiple (omega arith) (
                    subst
                      (λ n.
                        AreLaid a base widest (base + reqsize) n infos
                          (pass2 a base reqsize q size infos).ptrs)
                      whole laid),
              )
      ]
