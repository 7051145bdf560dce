-- ===== src/HashMap/Between.antt =====
-- The buckets that a probe passes, from its home to where it ends, going round.
use native.Mathlib.Nat.{mod-add-mod, mod-eq_of_lt, mod-lt, add-mod_right}
use vsclib.HashMap.Placed.{Taken, Reached}
use vsclib.HashMap.Scan.{path}
use vsclib.HashMap.Types.{Bucket}
use vsclib.Prelude.{
  ℕ, ◌+◌, ◌-◌, ◌%◌, ◌≤◌, ◌<◌, ◌≡◌, ◌⊎◌, inl, inr, sym, ap, ◌∙◌, subst, arith, dec_lt, List,
}

-- `q` is passed on the way from `home` to `j`
abbrev pub Between : ℕ → ℕ → ℕ → Type 0
Between home q j = ((home ≤ q) × (q < j)) ⊎ (((j < home) × (home ≤ q)) ⊎ ((j < home) × (q < j)))

-- a sum of two positions, going round
round : (n x : ℕ) → x < n + n → ((x < n) × (x % n ≡ x)) ⊎ ((n ≤ x) × (x % n ≡ x - n))
round n x h = elim (dec_lt x n) [
  | yes less ↦ inl (less, mod-eq_of_lt less)
  | no more ↦
      let back : x ≡ x - n + n = omega arith in
      inr (omega arith, ap (λ k. k % n) back ∙ add-mod_right (x - n) n ∙ mod-eq_of_lt (omega arith))
]

path_round :
    (n h d : ℕ)
    → d < n
    → ((h % n + d < n) × (path n h d ≡ h % n + d))
      ⊎ ((n ≤ h % n + d) × (path n h d ≡ h % n + d - n))
path_round n h d lt =
    let home = mod-lt h {m = n} (omega arith) in
    let same : (h % n + d) % n ≡ path n h d = mod-add-mod h n d in
    elim (round n (h % n + d) (omega arith)) [
      | inl (less, e) ↦ inl (less, sym same ∙ e)
      | inr (more, e) ↦ inr (more, sym same ∙ e)
    ]

-- the step at which a bucket is passed
step_to :
    (n h q : ℕ)
    → q < n
    → (d : ℕ) × (d < n)
      × (path n h d ≡ q)
      × (((h % n ≤ q) × (d ≡ q - h % n)) ⊎ ((q < h % n) × (d ≡ q + n - h % n)))
step_to n h q lt =
    let home = mod-lt h {m = n} (omega arith) in
    elim (dec_lt q (h % n)) [
      | no after ↦
          let small : q - h % n < n = omega arith in
          (
            q - h % n,
            small,
            omega (arith, path_round n h (q - h % n) small),
            inl (omega arith, omega arith),
          )
      | yes before ↦
          let small : q + n - h % n < n = omega arith in
          (
            q + n - h % n,
            small,
            omega (arith, path_round n h (q + n - h % n) small),
            inr (before, omega arith),
          )
    ]

module _ {n : ℕ} {bs : List Bucket} (h j : ℕ) where
  pub Reached-Between : Reached n bs h j → (q : ℕ) → q < n → Between (h % n) q j → Taken bs q
  Reached-Between r q lt passed =
      let home = mod-lt h {m = n} (omega arith) in
      let (d, small, at, which) = step_to n h q lt in
      let ends = path_round n h r.steps r.short in
      let here = r.ends in
      let earlier : d < r.steps = omega arith in subst (Taken bs) at (r.over d earlier)

  pub Between-Reached :
      j < n → ((q : ℕ) → q < n → Between (h % n) q j → Taken bs q) → Reached n bs h j
  Between-Reached lt all =
      let home = mod-lt h {m = n} (omega arith) in
      let (d, small, at, which) = step_to n h j lt in
      record {
        steps = d;
        short = small;
        ends = sym at;
        over = λ e earlier.
            let spot = path_round n h e (omega arith) in
            all (path n h e) (mod-lt (h + e) (omega arith)) (omega arith);
      }
