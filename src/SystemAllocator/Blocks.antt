-- ===== src/SystemAllocator/Blocks.antt =====
-- What stands before the data of a block, and that the functions of vsclib/allocator.cpp find it.
use vsclib.Prelude.{
  ℕ, ◌+◌, ◌-◌, ◌*◌, ◌/◌, ◌%◌, ◌^◌, ◌≤◌, ◌<◌, false, ◌==◌, ==_ne, pow2, ◌≡◌, ◌⊎◌, inl, inr, refl,
  sym, ap, ◌∙◌, arith,
}
use native.Mathlib.Nat.{mod-add-div', mul-mod_left}
use vsclib.Prelude.Words.{add_size, sub_size}
use vsclib.Memory.Alignment.{align_down}
use vsclib.Memory.Aligning.{align-macros}
use vsclib.Memory.Rounding.{IsAlignment, pow2-add}
use vsclib.SystemAllocator.Bytes.{Memory, load_word, Agree, load_word-Agree}
use vsclib.SystemAllocator.Header.{
  memhdr_sig, State, System, mem2hdr, header_size, align_power, free_, size_,
}

-- The data at `p` has `size` bytes and the alignment 8 * 2 ^ `power`, the header stands at `hdr`, and
-- the system gave `extent` bytes for both.
pub record IsBlock (m : Memory) (hdr p size power extent : ℕ) : Type 0 where
  pub header_aligned : hdr % 8 ≡ 0
  pub some_header : 0 < hdr
  pub inside : p + size ≤ hdr + extent
  pub addressed : hdr + extent ≤ 2 ^ 64
  pub reachable : p < 2 ^ 64
  pub aligned : p % pow2 (3 + power) ≡ 0
  pub behind : hdr + 24 ≤ p
  pub near : p < hdr + 24 + pow2 (3 + power)
  pub beyond_power : power < 61
  pub sized : load_word m hdr ≡ size
  pub powered : load_word m (hdr + 8) ≡ 3 + power
  pub signed : load_word m (hdr + 16) ≡ memhdr_sig
  pub linked : (p ≡ hdr + 24) ⊎ ((hdr + 32 ≤ p) × (load_word m (p - 8) ≡ hdr))

eight-IsAlignment : IsAlignment 8
eight-IsAlignment = record { low = 3; high = 61; digits = refl; power = refl }

-- A multiple of an alignment is a multiple of 8.
pub multiple_of_8 : (power p : ℕ) → p % pow2 (3 + power) ≡ 0 → p % 8 ≡ 0
multiple_of_8 power p h =
    let a = pow2 (3 + power) in
    let split : 8 * pow2 power ≡ a = pow2-add 3 power in
    let whole : p ≡ p / a * a = omega (arith, mod-add-div' p a) in
    let product : p / a * a ≡ p / a * pow2 power * 8 = rw (sym split) (grind arith) in
    ap (λ n. n % 8) (whole ∙ product) ∙ mul-mod_left (p / a * pow2 power) 8

-- What is written elsewhere does not matter.
pub IsBlock-Agree :
    (m m' : Memory) (hdr p size power extent : ℕ)
    → Agree m m' hdr p
    → IsBlock m hdr p size power extent
    → IsBlock m' hdr p size power extent
IsBlock-Agree m m' hdr p size power extent same b =
    let keeps : (q : ℕ) → hdr ≤ q → q + 8 ≤ p → load_word m' q ≡ load_word m q =
      λ q h h'. load_word-Agree m m' hdr p q same h h' in
    let behind = b.behind in
    record {
      header_aligned = b.header_aligned;
      some_header = b.some_header;
      inside = b.inside;
      addressed = b.addressed;
      reachable = b.reachable;
      aligned = b.aligned;
      behind = b.behind;
      near = b.near;
      beyond_power = b.beyond_power;
      sized = keeps hdr (omega arith) (omega arith) ∙ b.sized;
      powered = keeps (hdr + 8) (omega arith) (omega arith) ∙ b.powered;
      signed = keeps (hdr + 16) (omega arith) (omega arith) ∙ b.signed;
      linked = elim b.linked [
        | inl e ↦ inl e
        | inr (far, e) ↦ inr (far, keeps (p - 8) (omega arith) (omega arith) ∙ e)
      ];
    }

module _ {m : Memory} {hdr p size power extent : ℕ} (b : IsBlock m hdr p size power extent) where
  word_aligned : p % 8 ≡ 0
  word_aligned = multiple_of_8 power p b.aligned

  below : p + 8 ≤ 2 ^ 64
  below = omega (arith, word_aligned, b.reachable)

  pend : align_down p 8 ≡ p
  pend = (align-macros 8 p eight-IsAlignment below).0 ∙ omega (arith, word_aligned)

  pub mem2hdr-IsBlock : mem2hdr m p ≡ hdr
  unfolding mem2hdr
  mem2hdr-IsBlock =
      let behind = b.behind in
      let limit = below in
      let before : sub_size p 8 ≡ p - 8 = omega arith in
      elim b.linked [
        | inl e ↦
            let here : p - 8 ≡ hdr + 16 = omega arith in
            let found : load_word m (p - 8) ≡ memhdr_sig = ap (load_word m) here ∙ b.signed in
            let start : sub_size p 24 ≡ hdr = omega arith in rw (pend, before, found, start) refl
        | inr (far, e) ↦
            let multiple = b.header_aligned in
            let other : (hdr == memhdr_sig) ≡ false =
              ==_ne (λ same. absurd (omega (arith, same, multiple))) in
            rw (pend, before, e, other) refl
      ]

  pub header_size-IsBlock : header_size m hdr ≡ size
  unfolding header_size
  header_size-IsBlock = b.sized

  pub align_power-IsBlock : align_power m hdr ≡ 3 + power
  unfolding align_power
  align_power-IsBlock =
      let small = b.beyond_power in
      let limit = below in
      let behind = b.behind in
      let field : add_size hdr 8 ≡ hdr + 8 = omega arith in rw (field, b.powered) (omega arith)

-- what the allocator says of a block, and what it gives back to the system
pub size-IsBlock {ℓ} :
    {Heap : Type ℓ} (sys : System Heap) (state : State Heap) (hdr p size power extent : ℕ)
    → IsBlock state.memory hdr p size power extent
    → (size_ sys p state ≡ size) × (free_ sys p state ≡ sys.sys_free hdr state)
unfolding size_ free_
size-IsBlock sys state hdr p size power extent b =
    let some_data : (p == 0) ≡ false = ==_ne (λ e. absurd (omega (arith, e, b.behind))) in
    (
      rw (some_data, mem2hdr-IsBlock b) (header_size-IsBlock b),
      rw (some_data, mem2hdr-IsBlock b) refl,
    )
