-- ===== src/HashMap/Filled.antt =====
-- The loop of `vsc_hashmap_remove` from that state: every entry is in place when it ends.
use vsclib.HashMap.Between.{Between}
use vsclib.HashMap.Filling.{IsFilling, IsFilled, never_both, at_empty, behind, inner, continued}
use vsclib.HashMap.Count.{count, count-set}
use vsclib.HashMap.Placed.{Taken, Stored}
use vsclib.HashMap.Probe.{fill_loop}
use vsclib.HashMap.Rehash.{reset_bucket-is_empty}
use vsclib.HashMap.Types.{HashMap, Bucket, reset_bucket, slot, is_empty, says_equal}
use vsclib.Prelude.{
  ℕ, zero, suc, ◌+◌, ◌-◌, ◌%◌, ◌≤◌, ◌<◌, ◌≡◌, ◌≢◌, ◌⊎◌, inl, inr, refl, sym, ap, ap₂, ◌∙◌, subst,
  arith, Bool, List, set, length-set, get_or-set_self, get_or-set_ne, true, leb, Bool-cases,
  if◌then◌else◌, ℕ_discrete,
}
use native.Mathlib.Nat.{mod-eq_of_lt}

-- what `count` adds for a bucket
abbrev pub amount : Bool → ℕ
amount empty = if empty then 0 else 1

-- the entry at `c` goes into the gap
module _ {hash : ℕ → ℕ} {proc : ℕ → ℕ → ℕ} {n : ℕ} {bs : List Bucket} {g c e : ℕ}
    (f : IsFilling hash proc n bs g c e) (here : Taken bs c) where
  abbrev filled : List Bucket
  filled = set (set bs g (slot bs c)) c reset_bucket

  at_gap : slot filled g ≡ slot bs c
  at_gap =
      let order = f.order in
      let width = f.width in
      get_or-set_ne (set bs g (slot bs c)) c g reset_bucket reset_bucket (omega arith)
      ∙ get_or-set_self bs g (slot bs c) reset_bucket (omega arith)

  at_looked : is_empty (slot filled c) ≡ true
  at_looked =
      let order = f.order in
      let width = f.width in
      ap is_empty (
        get_or-set_self (set bs g (slot bs c)) c reset_bucket reset_bucket
          (omega (arith, length-set bs g (slot bs c))))
      ∙ reset_bucket-is_empty

  at_other : (j : ℕ) → j ≢ g → j ≢ c → slot filled j ≡ slot bs j
  at_other j not_g not_c =
      get_or-set_ne (set bs g (slot bs c)) c j reset_bucket reset_bucket (omega arith)
      ∙ get_or-set_ne bs g j (slot bs c) reset_bucket (omega arith)

  -- where the entry of a bucket was before
  source :
      (j : ℕ)
      → j < n
      → Taken filled j
      → (k : ℕ) × (k < n)
        × Taken bs k
        × (slot filled j ≡ slot bs k)
        × (((j ≡ g) × (k ≡ c)) ⊎ ((j ≡ k) × (j ≢ g) × (j ≢ c)))
  source j lt t =
      let order = f.order in
      elim (ℕ_discrete j g) [
        | yes e ↦ (c, omega arith, here, ap (slot filled) e ∙ at_gap, inl (e, refl))
        | no not_g ↦ elim (ℕ_discrete j c) [
          | yes e ↦ absurd (never_both (subst (Taken filled) e t) at_looked)
          | no not_c ↦
              let same = at_other j not_g not_c in
              (j, lt, ap is_empty (sym same) ∙ t, same, inr (refl, not_g, not_c))
        ]
      ]

  -- what was taken before, but for the entry that has gone
  Taken-filled : (q : ℕ) → q ≢ c → Taken bs q → Taken filled q
  Taken-filled q not_c t = elim (ℕ_discrete q g) [
    | yes e ↦ absurd (never_both (subst (Taken bs) e t) f.gap)
    | no not_g ↦ ap is_empty (at_other q not_g not_c) ∙ t
  ]

  over_filled :
      Bucket.hash (slot bs c) % n ≤ g
      → (j : ℕ) → j < n
      → Taken filled j
      → (q : ℕ) → q < n
      → Between (Bucket.hash (slot filled j) % n) q j
      → Taken filled q ⊎ ((q ≡ c) × (suc c ≤ j) × (j < e))
  over_filled home j lt t q lq passed =
      let (k, lk, tk, same, which) = source j lt t in
      let order = f.order in
      let home_of : Bucket.hash (slot filled j) % n ≡ Bucket.hash (slot bs k) % n =
        ap (λ (b : Bucket). b.hash % n) same in
      elim which [
        | inl (to_gap, from) ↦
            let home_c : Bucket.hash (slot bs k) % n ≤ g =
              subst (λ i. Bucket.hash (slot bs i) % n ≤ g) (sym from) home in
            let before : q < g = omega arith in
            elim (f.over k lk tk q lq (omega arith)) [
              | inl taken ↦ inl (Taken-filled q (omega arith) taken)
              | inr (at, _, _) ↦ absurd (omega arith)
            ]
        | inr (at_k, not_g, not_c) ↦ elim (ℕ_discrete q c) [
          | yes at_c ↦
              let (more, less) = behind f here k lk tk (omega arith) in
              inr (at_c, omega arith, omega arith)
          | no elsewhere ↦ elim (ℕ_discrete q g) [
            | yes at_g ↦ inl (ap (λ i. is_empty (slot filled i)) at_g ∙ ap is_empty at_gap ∙ here)
            | no not_gap ↦ elim (f.over k lk tk q lq (omega arith)) [
              | inl taken ↦ inl (Taken-filled q elsewhere taken)
              | inr (at, _, _) ↦ absurd (omega arith)
            ]
          ]
        ]
      ]

  filled-IsFilling : Bucket.hash (slot bs c) % n ≤ g → IsFilling hash proc n filled c (suc c) e
  filled-IsFilling home =
      let order = f.order in
      let less = inner f here in
      record {
        width =
            let width = f.width in
            omega (
              arith,
              length-set (set bs g (slot bs c)) c reset_bucket,
              length-set bs g (slot bs c),
            );
        hashed = λ j lt t.
            let (k, lk, tk, same, which) = source j lt t in
            subst (λ (b : Bucket). b.hash ≡ hash b.key) (sym same) (f.hashed k lk tk);
        unique = λ i j li lj ti tj equal.
            let (k, lk, tk, same_i, which_i) = source i li ti in
            let (l, ll, tl, same_j, which_j) = source j lj tj in
            let back =
              ap₂ (λ (a b : Bucket). says_equal proc a.key b.key) (sym same_i) (sym same_j)
              ∙ equal in
            let one = f.unique k l lk ll tk tl back in omega arith;
        order = (omega arith, omega arith, omega arith);
        gap = at_looked;
        stop = ap is_empty (at_other e (omega arith) (omega arith)) ∙ f.stop;
        home_before = λ j low high t.
            let same = at_other j (omega arith) (omega arith) in
            subst (λ (b : Bucket). b.hash % n ≤ j) (sym same)
              (f.home_before j (omega arith) high (ap is_empty (sym same) ∙ t));
        over = over_filled home;
      }

  filled-count : count n filled ≡ count n bs
  filled-count =
      let order = f.order in
      let width = f.width in
      let first = count-set bs g (slot bs c) (omega arith) n (omega arith) in
      let second =
        count-set (set bs g (slot bs c)) c reset_bucket (omega (arith, length-set bs g (slot bs c)))
          n (omega arith) in
      let kept : slot (set bs g (slot bs c)) c ≡ slot bs c =
        get_or-set_ne bs g c (slot bs c) reset_bucket (omega arith) in
      let was_free = ap amount f.gap in
      let was_full = ap amount here in
      let is_taken = ap (λ b. amount (is_empty b)) kept ∙ was_full in
      let is_free = ap amount reset_bucket-is_empty in
      omega (arith, first, second, was_free, was_full, is_taken, is_free)

  filled-keeps : (b : Bucket) → Stored n bs b → Stored n filled b
  filled-keeps b s =
      let order = f.order in
      elim (ℕ_discrete s.index c) [
        | yes e ↦ record {
          index = g;
          within = omega arith;
          reads = at_gap ∙ ap (slot bs) (sym e) ∙ s.reads;
          taken = s.taken;
        }
        | no not_c ↦
            let not_g : s.index ≢ g = λ e.
              never_both s.taken
                (sym (ap is_empty s.reads) ∙ ap (λ i. is_empty (slot bs i)) e ∙ f.gap) in
            record {
              index = s.index;
              within = s.within;
              reads = at_other s.index not_g not_c ∙ s.reads;
              taken = s.taken;
            }
      ]

  filled-only : (b : Bucket) → Stored n filled b → Stored n bs b
  filled-only b s =
      let (k, lk, tk, same, which) = source s.index s.within (ap is_empty s.reads ∙ s.taken) in
      record { index = k; within = lk; reads = sym same ∙ s.reads; taken = s.taken }

-- With a round for each bucket up to the empty one, the loop puts every entry in place.
pub fill_loop-IsFilled :
    (hm : HashMap) (rounds : ℕ) {bs : List Bucket} {g c e : ℕ}
    → e - c < rounds
    → IsFilling hm.hash_proc hm.compare_proc hm.num_buckets bs g c e
    → IsFilled hm.hash_proc hm.compare_proc hm.num_buckets bs (fill_loop hm rounds g c bs)
unfolding fill_loop
fill_loop-IsFilled hm zero enough f = absurd (omega arith)
fill_loop-IsFilled hm (suc rounds) {bs = bs} {g = g} {c = c} {e = e} enough f =
    elim (Bool-cases (is_empty (slot bs c))) [
      | inl empty ↦ rw empty (record {
        placed = at_empty f empty;
        same_count = refl;
        keeps = λ b s. s;
        only = λ b s. s;
      })
      | inr here ↦
          let order = f.order in
          let less = inner f here in
          let step : (c + 1) % hm.num_buckets ≡ suc c = mod-eq_of_lt (omega arith) ∙ omega arith in
          elim (Bool-cases (leb (Bucket.hash (slot bs c) % hm.num_buckets) g)) [
            | inr home ↦
                rw (here, home, step)
                  (fill_loop-IsFilled hm rounds (omega arith) (continued f here (ground arith)))
            | inl home ↦
                let rest =
                  fill_loop-IsFilled hm rounds (omega arith)
                    (filled-IsFilling f here (ground arith)) in
                rw (here, home, step)
                  (record {
                    placed = rest.placed;
                    same_count = rest.same_count ∙ filled-count f here;
                    keeps = λ b s. rest.keeps b (filled-keeps f here b s);
                    only = λ b s. filled-only f here b (rest.only b s);
                  })
          ]
    ]
