-- ===== src/Memory/Requests.antt =====
-- What `vsc_xcalloc` asks for, and what `vsc_xalloc_ex` does when a faked reallocation fails.
use native.Mathlib.Nat.{div-lt_iff_lt-mul}
use vsclib.Prelude.Words.{size_max, size_mod, mul_size}
use vsclib.Prelude.{
  ℕ, zero, suc, ◌*◌, ◌/◌, ◌%◌, ◌≤◌, ◌<◌, Bool, true, false, ◌&&◌, ◌==◌, ltb, if◌then◌else◌, ◌≡◌,
  refl, ap, ◌∙◌, ◌⊎◌, inl, inr, Bool-cases, arith,
}
use vsclib.Memory.Allocation.{Flags, Allocator, xalloc_ex, pointer, xcalloc}

-- the guard of `vsc_xcalloc` against a product that wraps
overflows : ℕ → ℕ → Bool
overflows nmemb size = ltb 0 size && ltb (size_max / size) nmemb

overflows_exact :
    (nmemb size : ℕ)
    → ((overflows nmemb size ≡ true) × (size_max < nmemb * size))
      ⊎ ((overflows nmemb size ≡ false) × (nmemb * size ≤ size_max))
unfolding overflows
overflows_exact nmemb zero = let none : nmemb * 0 ≡ 0 = omega arith in inr (refl, omega arith)
overflows_exact nmemb (suc size) =
    let exact = div-lt_iff_lt-mul {k = suc size} {x = size_max} {y = nmemb} (omega arith) in
    let positive : ltb 0 (suc size) ≡ true = ground arith in
    elim (Bool-cases (ltb (size_max / suc size) nmemb)) [
      | inl e ↦ inl (rw (positive, e) refl, exact.0 (ground arith))
      | inr e ↦ inr (
        rw (positive, e) refl,
        elim (Bool-cases (ltb size_max (nmemb * suc size))) [
          | inl more ↦
              let more' : size_max < nmemb * suc size = ground arith in
              let below : size_max / suc size < nmemb = exact.1 more' in absurd (ground arith)
          | inr fits ↦ ground arith
        ],
      )
    ]

-- `VSC_ALLOC_ZERO` alone
abbrev pub cleared : Flags
cleared = record { zeroed = true; nofail = false; realloc = false }

-- vsc_xcalloc of elements that fit in a size_t together asks vsc_xalloc_ex for exactly their product,
-- cleared, and of any others returns NULL and leaves the heap alone.
pub xcalloc_cases {ℓ} :
    {Heap : Type ℓ} (a : Allocator Heap) (nmemb size : ℕ) (heap : Heap)
    → ((nmemb * size ≤ size_max)
        × (xcalloc a nmemb size heap
            ≡ pointer a heap (xalloc_ex a 0 (nmemb * size) cleared 0 heap)))
      ⊎ ((size_max < nmemb * size) × (xcalloc a nmemb size heap ≡ (0, heap)))
unfolding xcalloc overflows
xcalloc_cases a nmemb size heap = elim (overflows_exact nmemb size) [
  | inl (over, product) ↦ inr (product, rw (xcalloc, over) refl)
  | inr (fits, product) ↦
      let exact : mul_size size nmemb ≡ nmemb * size =
        ap (λ p. p % size_mod) (swap size nmemb) ∙ unwrapped (nmemb * size) product in
      inl (
        product,
        rw (xcalloc, fits) (ap (λ n. pointer a heap (xalloc_ex a 0 n cleared 0 heap)) exact),
      )
]
  where
    swap : (m n : ℕ) → m * n ≡ n * m
    swap m n = grind arith

    unwrapped : (p : ℕ) → p ≤ size_max → p % size_mod ≡ p
    unwrapped p h = omega arith

-- the alignment that the allocator is asked for
abbrev pub aligned {ℓ} : {Heap : Type ℓ} → Allocator Heap → ℕ → ℕ
aligned a alignment = if alignment == 0 then a.alignment else alignment
