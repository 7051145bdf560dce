-- ===== src/HashMap/Filling.antt =====
-- The state of the loop of `vsc_hashmap_remove` where an empty bucket follows the gap and the entries
-- between have their homes no later than where they stand.
use vsclib.HashMap.Between.{Between, Between-Reached}
use vsclib.HashMap.Count.{count}
use vsclib.HashMap.Placed.{Taken, Stored, Placed}
use vsclib.HashMap.Types.{Bucket, slot, is_empty, says_equal}
use vsclib.Prelude.{
  ℕ, suc, ◌%◌, ◌≤◌, ◌<◌, ◌≡◌, ◌≢◌, ◌⊎◌, inl, inr, ap, subst, arith, Bool, List, length, true, false,
  dec_lt, ℕ_discrete,
}

-- Bucket `g` is the gap and `c` the one that is looked at. The way to every entry goes over taken
-- buckets, and perhaps over the gap if the entry stands between `c` and the empty bucket `e`.
pub record IsFilling (hash : ℕ → ℕ) (proc : ℕ → ℕ → ℕ) (n : ℕ) (bs : List Bucket) (g c e : ℕ)
    : Type 0 where
  pub width : n ≤ length bs
  pub hashed :
      (j : ℕ) → j < n → Taken bs j → Bucket.hash (slot bs j) ≡ hash (Bucket.key (slot bs j))
  pub unique :
      (i j : ℕ)
      → i < n
      → j < n
      → Taken bs i
      → Taken bs j
      → says_equal proc (Bucket.key (slot bs i)) (Bucket.key (slot bs j)) ≡ true
      → i ≡ j
  pub order : (g < c) × (c ≤ e) × (e < n)
  pub gap : is_empty (slot bs g) ≡ true
  pub stop : is_empty (slot bs e) ≡ true
  pub home_before : (j : ℕ) → c ≤ j → j < e → Taken bs j → Bucket.hash (slot bs j) % n ≤ j
  pub over :
      (j : ℕ)
      → j < n
      → Taken bs j
      → (q : ℕ) → q < n
      → Between (Bucket.hash (slot bs j) % n) q j
      → Taken bs q ⊎ ((q ≡ g) × (c ≤ j) × (j < e))

-- the same entries, in place again
pub record IsFilled (hash : ℕ → ℕ) (proc : ℕ → ℕ → ℕ) (n : ℕ) (bs bs' : List Bucket) : Type 0 where
  pub placed : Placed hash proc n bs'
  pub same_count : count n bs' ≡ count n bs
  pub keeps : (b : Bucket) → Stored n bs b → Stored n bs' b
  pub only : (b : Bucket) → Stored n bs' b → Stored n bs b

pub never_both : {b : Bool} → b ≡ false → b ≡ true → ⊥
never_both t e = cc (t, e)

module _ {hash : ℕ → ℕ} {proc : ℕ → ℕ → ℕ} {n : ℕ} {bs : List Bucket} {g c e : ℕ}
    (f : IsFilling hash proc n bs g c e) where
  -- At an empty bucket, no way goes over the gap any more.
  pub at_empty : is_empty (slot bs c) ≡ true → Placed hash proc n bs
  at_empty empty = record {
    width = f.width;
    hashed = f.hashed;
    unique = f.unique;
    reached = λ j lt t. Between-Reached (Bucket.hash (slot bs j)) j lt (λ q lq passed.
        elim (f.over j lt t q lq passed) [
          | inl taken ↦ taken
          | inr (at, low, high) ↦
              let apart : j ≢ c = λ same. never_both (subst (Taken bs) same t) empty in
              let order = f.order in
              elim (f.over j lt t c (omega arith) (omega arith)) [
                | inl taken ↦ absurd (never_both taken empty)
                | inr (same, _, _) ↦ absurd (omega arith)
              ]
        ]);
  }

  -- No way goes over the bucket that is looked at but to those behind it.
  pub behind :
      Taken bs c
      → (j : ℕ) → j < n
      → Taken bs j
      → Between (Bucket.hash (slot bs j) % n) c j
      → (c < j) × (j < e)
  behind here j lt t passed =
      let order = f.order in
      let apart : j ≢ e = λ same. never_both (subst (Taken bs) same t) f.stop in
      elim (dec_lt c j) [
        | yes more ↦ elim (dec_lt j e) [
          | yes less ↦ (more, less)
          | no beyond ↦ elim (f.over j lt t e (omega arith) (omega arith)) [
            | inl taken ↦ absurd (never_both taken f.stop)
            | inr (same, _, _) ↦ absurd (omega arith)
          ]
        ]
        | no less ↦
            let not_here : j ≢ c = λ same. absurd (omega arith) in
            elim (f.over j lt t e (omega arith) (omega arith)) [
              | inl taken ↦ absurd (never_both taken f.stop)
              | inr (same, _, _) ↦ absurd (omega arith)
            ]
      ]

  pub inner : Taken bs c → c < e
  inner here =
      let order = f.order in
      let apart : c ≢ e = λ same. never_both (subst (Taken bs) same here) f.stop in omega arith

  -- The entry at `c` stands behind its home, and its home behind the gap.
  pub continued :
      Taken bs c → g < Bucket.hash (slot bs c) % n → IsFilling hash proc n bs g (suc c) e
  continued here home = record {
    width = f.width;
    hashed = f.hashed;
    unique = f.unique;
    order = let order = f.order in let less = inner here in (omega arith, omega arith, omega arith);
    gap = f.gap;
    stop = f.stop;
    home_before = λ j low. f.home_before j (omega arith);
    over = λ j lt t q lq passed. elim (f.over j lt t q lq passed) [
      | inl taken ↦ inl taken
      | inr (at, low, high) ↦ elim (ℕ_discrete j c) [
        | no other ↦ inr (at, omega arith, high)
        | yes same ↦
            let order = f.order in
            let home_of : Bucket.hash (slot bs j) ≡ Bucket.hash (slot bs c) =
              ap (λ i. Bucket.hash (slot bs i)) same in
            let home' : g < Bucket.hash (slot bs j) % n = rw home_of home in
            let limit = f.home_before j low high t in absurd (omega arith)
      ]
    ];
  }
