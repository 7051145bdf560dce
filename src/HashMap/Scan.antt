-- ===== src/HashMap/Scan.antt =====
-- The search that the probing loops share: from a start, round the buckets, up to the first one
-- that is empty or that passes a test.
use native.Mathlib.Nat.{mod-add-mod, mod-mod}
use vsclib.Prelude.{
  ℕ, zero, suc, ◌+◌, ◌%◌, ◌<◌, ◌≡◌, refl, sym, ap, ◌∙◌, subst, inl, inr, arith, List, Bool, true,
  false, ◌==◌, ==_iff, if◌then◌else◌, Bool-cases,
}
use vsclib.HashMap.Types.{Bucket, slot, is_empty}

-- where a scan ends: at a bucket that passes, at an empty one, or after a whole round
pub data Outcome : Type 0 where
  hit : ℕ → Outcome
  gap : ℕ → Outcome
  full : Outcome

unfoldable pub scan : ℕ → List Bucket → (Bucket → Bool) → ℕ → ℕ → Outcome
scan n bs test zero index = full
scan n bs test (suc rounds) index =
    let b = slot bs index in
    let continue = scan n bs test rounds ((index + 1) % n) in
    if is_empty b then gap index else if test b then hit index else continue

-- the bucket that is looked at after `d` steps from `h`
abbrev pub path : ℕ → ℕ → ℕ → ℕ
path n h d = (h + d) % n

-- a bucket that the scan leaves behind
abbrev pub Passed : (Bucket → Bool) → Bucket → Type 0
Passed test b = (is_empty b ≡ false) × (test b ≡ false)

abbrev pub PassedTo : ℕ → List Bucket → (Bucket → Bool) → ℕ → ℕ → Type 0
PassedTo n bs test h d = (e : ℕ) → e < d → Passed test (slot bs (path n h e))

pub data Scanned (n : ℕ) (bs : List Bucket) (test : Bucket → Bool) (h : ℕ) : Outcome → Type 0 where
  at_hit :
      (i d : ℕ)
      → i ≡ path n h d
      → d < n
      → PassedTo n bs test h d
      → is_empty (slot bs i) ≡ false
      → test (slot bs i) ≡ true
      → Scanned n bs test h (hit i)
  at_gap :
      (i d : ℕ)
      → i ≡ path n h d
      → d < n
      → PassedTo n bs test h d
      → is_empty (slot bs i) ≡ true
      → Scanned n bs test h (gap i)
  at_end : PassedTo n bs test h n → Scanned n bs test h full

path-suc : (n h d : ℕ) → (path n h d + 1) % n ≡ path n h (suc d)
path-suc n h d = mod-add-mod (h + d) n 1 ∙ ap (λ k. k % n) (omega arith)

pub path_home : (n h : ℕ) → h % n % n ≡ path n h 0
path_home n h = mod-mod h n ∙ ap (λ k. k % n) (omega arith)

module _ (n : ℕ) (bs : List Bucket) (test : Bucket → Bool) (h : ℕ) where
  extend :
      (d : ℕ)
      → PassedTo n bs test h d
      → Passed test (slot bs (path n h d))
      → PassedTo n bs test h (suc d)
  extend d before here e lt = elim (Bool-cases (e == d)) [
    | inl same ↦ subst (λ k. Passed test (slot bs (path n h k))) (sym ((==_iff e d).0 same)) here
    | inr less ↦ before e (ground arith)
  ]

  scan-Scanned_from :
      (rounds d : ℕ)
      → d + rounds ≡ n
      → PassedTo n bs test h d
      → Scanned n bs test h (scan n bs test rounds (path n h d))
  unfolding scan
  scan-Scanned_from zero d e before =
      at_end (subst (PassedTo n bs test h) (let k : d ≡ n = omega arith in k) before)
  scan-Scanned_from (suc rounds) d e before = elim (Bool-cases (is_empty (slot bs (path n h d)))) [
    | inl empty ↦ rw empty (at_gap _ d refl (omega arith) before empty)
    | inr taken ↦ elim (Bool-cases (test (slot bs (path n h d)))) [
      | inl found ↦ rw (taken, found) (at_hit _ d refl (omega arith) before taken found)
      | inr other ↦
          rw (taken, other, path-suc)
            (scan-Scanned_from rounds (suc d) (omega arith) (extend d before (taken, other)))
    ]
  ]

  -- a scan from `h` ends as `Scanned` says
  pub scan-Scanned : Scanned n bs test h (scan n bs test n (path n h 0))
  scan-Scanned = scan-Scanned_from n 0 (omega arith) (λ e lt. absurd (omega arith))

pub scan_no_buckets :
    (n : ℕ) (bs : List Bucket) (test : Bucket → Bool) (index : ℕ)
    → (n == 0) ≡ true
    → scan n bs test n index ≡ full
unfolding scan
scan_no_buckets zero bs test index e = refl
scan_no_buckets (suc n) bs test index e = absurd (omega (arith, (==_iff (suc n) 0).0 e))
