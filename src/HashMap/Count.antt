-- ===== src/HashMap/Count.antt =====
-- How many buckets are taken.
use vsclib.Prelude.{
  ap₂, sym, Bool, ap, ◌∙◌, [], ◌∷◌, ℕ, zero, suc, ◌+◌, ◌≤◌, ◌<◌, ◌≡◌, refl, arith, List, replicate,
  set, length, get_or-set_self, get_or-set_ne, get_or-replicate, true, if◌then◌else◌, ℕ_discrete,
  Bool-cases, inl, inr,
}
use vsclib.HashMap.Types.{Bucket, reset_bucket, slot, is_empty}

-- the taken ones among the first `n`
pub count : ℕ → List Bucket → ℕ
count zero bs = 0
count (suc n) bs = count n bs + (if is_empty (slot bs n) then 0 else 1)

pub count-le : (n : ℕ) (bs : List Bucket) → count n bs ≤ n
unfolding count
count-le zero bs = omega arith
count-le (suc n) bs = ground (arith, count-le n bs)

-- a bucket is free if not all are taken
pub count-free :
    (n : ℕ) (bs : List Bucket) → count n bs < n → (j : ℕ) × (j < n) × (is_empty (slot bs j) ≡ true)
unfolding count
count-free zero bs h = absurd (omega arith)
count-free (suc n) bs h = elim (Bool-cases (is_empty (slot bs n))) [
  | inl e ↦ (n, omega arith, e)
  | inr e ↦ let (j, lt, f) = count-free n bs (ground arith) in (j, omega arith, f)
]

module _ (bs : List Bucket) (i : ℕ) (b : Bucket) (inside : i < length bs) where
  count-set_above : (n : ℕ) → n ≤ i → count n (set bs i b) ≡ count n bs
  unfolding count
  count-set_above zero h = refl
  count-set_above (suc n) h =
      rw (count-set_above n (omega arith), get_or-set_ne bs i n b reset_bucket (omega arith))

  pub count-set :
      (n : ℕ)
      → i < n
      → count n (set bs i b) + (if is_empty (slot bs i) then 0 else 1)
        ≡ count n bs + (if is_empty b then 0 else 1)
  unfolding count
  count-set zero h = absurd (omega arith)
  count-set (suc n) h = elim (ℕ_discrete n i) [
    | yes e ↦
        rw (e, count-set_above i (omega arith), get_or-set_self bs i b reset_bucket inside)
          (omega arith)
    | no e ↦
        rw (get_or-set_ne bs i n b reset_bucket (omega arith))
          (omega (arith, count-set n (omega arith)))
  ]

pub count-replicate : (n m : ℕ) → count n (replicate m reset_bucket) ≡ 0
unfolding count is_empty
count-replicate zero m = refl
count-replicate (suc n) m =
    rw (get_or-replicate m n reset_bucket) (omega (arith, count-replicate n m))

-- the taken buckets of a list, from its front
unfoldable pub entries : List Bucket → ℕ
entries [] = 0
entries (b ∷ bs) = (if is_empty b then 0 else 1) + entries bs

count_cons :
    (n : ℕ) (b : Bucket) (bs : List Bucket)
    → count (suc n) (b ∷ bs) ≡ (if is_empty b then 0 else 1) + count n bs
unfolding count
count_cons zero b bs = omega arith
count_cons (suc n) b bs = omega (arith, count_cons n b bs)

pub count-entries : (bs : List Bucket) → count (length bs) bs ≡ entries bs
unfolding entries count
count-entries [] = refl
count-entries (b ∷ bs) =
    count_cons (length bs) b bs ∙ ap (λ k. (if is_empty b then 0 else 1) + k) (count-entries bs)

pub count_agree :
    (n : ℕ) (bs cs : List Bucket)
    → ((j : ℕ) → j < n → is_empty (slot bs j) ≡ is_empty (slot cs j))
    → count n bs ≡ count n cs
unfolding count
count_agree zero bs cs h = refl
count_agree (suc n) bs cs h =
    ap₂ (λ (k : ℕ) (e : Bool). k + (if e then 0 else 1))
      (count_agree n bs cs (λ j lt. h j (omega arith))) (h n (omega arith))

pub count_beyond :
    (n m : ℕ) (bs : List Bucket)
    → n ≤ m
    → ((j : ℕ) → n ≤ j → is_empty (slot bs j) ≡ true)
    → count m bs ≡ count n bs
unfolding count
count_beyond n zero bs le h = ap (λ k. count k bs) (let e : zero ≡ n = omega arith in e)
count_beyond n (suc m) bs le h = elim (ℕ_discrete n (suc m)) [
  | yes e ↦ ap (λ k. count k bs) (sym e)
  | no ne ↦ rw (h m (omega arith)) (omega (arith, count_beyond n m bs (omega arith) h))
]

pub count-zero :
    (n : ℕ) (bs : List Bucket) → count n bs ≡ 0 → (j : ℕ) → j < n → is_empty (slot bs j) ≡ true
unfolding count
count-zero zero bs h j lt = absurd (omega arith)
count-zero (suc n) bs h j lt = elim (Bool-cases (is_empty (slot bs n))) [
  | inr taken ↦ absurd (ground arith)
  | inl empty ↦ elim (ℕ_discrete j n) [
    | yes e ↦ rw e empty
    | no ne ↦ count-zero n bs (ground arith) j (omega arith)
  ]
]

pub count_none : (bs : List Bucket) → count 0 bs ≡ 0
unfolding count
count_none bs = refl

pub count_of_empty :
    (n : ℕ) (bs : List Bucket) → ((j : ℕ) → j < n → is_empty (slot bs j) ≡ true) → count n bs ≡ 0
unfolding count
count_of_empty zero bs h = refl
count_of_empty (suc n) bs h =
    rw (h n (omega arith)) (omega (arith, count_of_empty n bs (λ j lt. h j (omega arith))))
