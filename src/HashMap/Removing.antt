-- ===== src/HashMap/Removing.antt =====
-- `vsc_hashmap_remove` against the entries that are stored, where an empty bucket follows the removed
-- one and the entries between have their homes no later than where they stand.
use native.Mathlib.Nat.{mod-eq_of_lt}
use vsclib.HashMap.Api.{find}
use vsclib.HashMap.Between.{Between, Reached-Between}
use vsclib.HashMap.Count.{count, count-set}
use vsclib.HashMap.Filled.{amount, fill_loop-IsFilled}
use vsclib.HashMap.Filling.{IsFilling, IsFilled, never_both}
use vsclib.HashMap.Finding.{Holds, Lacks, find_held, find_lacked, find_cases}
use vsclib.HashMap.Placed.{Taken, Stored, Placed, Taken-at}
use vsclib.HashMap.Probe.{fill_gap}
use vsclib.HashMap.Rehash.{reset_bucket-is_empty}
use vsclib.HashMap.Types.{HashMap, Bucket, reset_bucket, slot, is_empty, compare}
use vsclib.HashMap.Valid.{IsValid}
use vsclib.Prelude.Words.{size_max, sub_size}
use vsclib.Prelude.{
  ℕ, ◌+◌, ◌%◌, ◌≤◌, ◌<◌, ◌≡◌, ◌≢◌, ◌⊎◌, inl, inr, refl, sym, ap, ◌∙◌, subst, arith, true, false,
  List, set, length-set, get_or-set_self, get_or-set_ne, Bool-cases, if◌then◌else◌, dec_lt,
  ℕ_discrete,
}

-- Behind `index` and not beyond the last bucket there is an empty one, and the entries between have
-- their homes no later than where they stand.
pub record IsUnwrapped (hm : HashMap) (index : ℕ) : Type 0 where
  pub end : ℕ
  pub behind : index < end
  pub within : end < hm.num_buckets
  pub empty : is_empty (slot hm.buckets end) ≡ true
  pub homes :
      (j : ℕ)
      → index < j
      → j < end
      → Taken hm.buckets j
      → Bucket.hash (slot hm.buckets j) % hm.num_buckets ≤ j

module _ {hm : HashMap} (v : IsValid hm) (i : ℕ) (inside : i < hm.num_buckets)
    (taken : Taken hm.buckets i) (u : IsUnwrapped hm i) where
  abbrev pub n : ℕ
  n = hm.num_buckets

  abbrev p : Placed hm.hash_proc hm.compare_proc n hm.buckets
  p = v.probed.placed

  abbrev pub opened : List Bucket
  opened = set hm.buckets i reset_bucket

  opened_at : is_empty (slot opened i) ≡ true
  opened_at =
      let width = p.width in
      ap is_empty (get_or-set_self hm.buckets i reset_bucket reset_bucket (omega arith))
      ∙ reset_bucket-is_empty

  opened_ne : (j : ℕ) → Taken opened j → j ≢ i
  opened_ne j t e = never_both (subst (Taken opened) e t) opened_at

  opened_other : (j : ℕ) → j ≢ i → slot opened j ≡ slot hm.buckets j
  opened_other j ne = get_or-set_ne hm.buckets i j reset_bucket reset_bucket (omega arith)

  Taken-opened : (j : ℕ) → Taken opened j → Taken hm.buckets j
  Taken-opened j t = ap is_empty (sym (opened_other j (opened_ne j t))) ∙ t

  opened_over :
      (j : ℕ)
      → j < n
      → Taken opened j
      → (q : ℕ) → q < n
      → Between (Bucket.hash (slot opened j) % n) q j
      → Taken opened q ⊎ ((q ≡ i) × (i + 1 ≤ j) × (j < u.end))
  opened_over j lt t q lq passed =
      let ne = opened_ne j t in
      let before = Taken-opened j t in
      let same = opened_other j ne in
      let home_of : Bucket.hash (slot opened j) % n ≡ Bucket.hash (slot hm.buckets j) % n =
        ap (λ (b : Bucket). b.hash % n) same in
      let goes = Reached-Between (Bucket.hash (slot hm.buckets j)) j (p.reached j lt before) in
      let not_end : j ≢ u.end = λ e. never_both (subst (Taken hm.buckets) e before) u.empty in
      let order = u.behind in
      let limit = u.within in
      elim (ℕ_discrete q i) [
        | no other ↦ inl (ap is_empty (opened_other q other) ∙ goes q lq (omega arith))
        | yes at ↦ elim (dec_lt j i) [
          | yes less ↦ absurd (never_both (goes u.end limit (omega arith)) u.empty)
          | no more ↦ elim (dec_lt j u.end) [
            | yes here ↦ inr (at, omega arith, here)
            | no beyond ↦ absurd (never_both (goes u.end limit (omega arith)) u.empty)
          ]
        ]
      ]

  opened-IsFilling : IsFilling hm.hash_proc hm.compare_proc n opened i (i + 1) u.end
  opened-IsFilling =
      let order = u.behind in
      let limit = u.within in
      record {
        width = let width = p.width in omega (arith, length-set hm.buckets i reset_bucket);
        hashed = λ j lt t.
            subst (λ (b : Bucket). b.hash ≡ hm.hash_proc b.key)
              (sym (opened_other j (opened_ne j t))) (p.hashed j lt (Taken-opened j t));
        unique = λ j k lj lk tj tk equal.
            p.unique j k lj lk (Taken-opened j tj) (Taken-opened k tk) (
              ap (λ (b : Bucket). compare hm b.key (Bucket.key (slot hm.buckets k)))
                (sym (opened_other j (opened_ne j tj)))
              ∙ ap (λ (b : Bucket). compare hm (Bucket.key (slot opened j)) b.key)
                  (sym (opened_other k (opened_ne k tk)))
              ∙ equal);
        order = (omega arith, omega arith, limit);
        gap = opened_at;
        stop = ap is_empty (opened_other u.end (omega arith)) ∙ u.empty;
        home_before = λ j low high t.
            let same = opened_other j (omega arith) in
            subst (λ (b : Bucket). b.hash % n ≤ j) (sym same)
              (u.homes j (omega arith) high (ap is_empty (sym same) ∙ t));
        over = opened_over;
      }

  abbrev pub refilled : List Bucket
  refilled = fill_gap hm i opened

  refilled-IsFilled : IsFilled hm.hash_proc hm.compare_proc n opened refilled
  unfolding fill_gap
  refilled-IsFilled =
      let order = u.behind in
      let limit = u.within in
      let next : (i + 1) % n ≡ i + 1 = mod-eq_of_lt (omega arith) in
      rw next (fill_loop-IsFilled hm n (omega arith) opened-IsFilling)

  kept : {b : Bucket} (s : Holds hm b) → s.index ≢ i → Stored n refilled b
  kept {b} s other = refilled-IsFilled.keeps b (record {
    index = s.index;
    within = s.within;
    reads = opened_other s.index other ∙ s.reads;
    taken = s.taken;
  })

  was_kept : (b : Bucket) → Stored n refilled b → (s : Holds hm b) × (s.index ≢ i)
  was_kept b s =
      let before = refilled-IsFilled.only b s in
      let other = opened_ne before.index (Taken-at before) in
      (
        record {
          index = before.index;
          within = before.within;
          reads = sym (opened_other before.index other) ∙ before.reads;
          taken = before.taken;
        },
        other,
      )

  abbrev pub removed : HashMap
  removed = record hm { buckets = refilled; size = sub_size hm.size 1 }

  pub one_less : count n refilled + 1 ≡ hm.size
  one_less =
      let width = p.width in
      let fewer = count-set hm.buckets i reset_bucket (omega arith) n inside in
      let was = ap amount taken in
      let is = ap amount reset_bucket-is_empty in
      omega (arith, fewer, was, is, refilled-IsFilled.same_count, v.counted)

  pub removed-IsValid : hm.size ≤ size_max → IsValid removed
  removed-IsValid fits = record {
    probed = record { laws = v.probed.laws; placed = refilled-IsFilled.placed };
    counted = let less = one_less in omega (arith, less);
    configured = v.configured;
  }

  module _ (key : ℕ) (same : compare hm key (Bucket.key (slot hm.buckets i)) ≡ true)
      (fits : hm.size ≤ size_max) where
    -- the entry of a key that equals the removed one stood in its bucket
    only_there :
        {b : Bucket} (q : ℕ) (s : Holds hm b)
        → compare hm q b.key ≡ true
        → compare hm q key ≡ true
        → s.index ≡ i
    only_there {b} q s matched equal =
        let laws = v.probed.laws in
        let key_b = ap (λ (x : Bucket). compare hm q x.key) s.reads ∙ matched in
        let to_q = laws.equal_symm (Bucket.key (slot hm.buckets s.index)) q ∙ key_b in
        let to_i = laws.equal_trans q key (Bucket.key (slot hm.buckets i)) equal same in
        p.unique s.index i s.within inside (Taken-at s) taken (laws.equal_trans _ q _ to_q to_i)

    Lacks-removed : (q : ℕ) → compare hm q key ≡ true → Lacks removed q
    Lacks-removed q equal j lt t = elim (Bool-cases (compare hm q (Bucket.key (slot refilled j)))) [
      | inr differs ↦ differs
      | inl matched ↦
          let (s, other) =
            was_kept (slot refilled j)
              (record { index = j; within = lt; reads = refl; taken = t }) in
          absurd (other (only_there q s matched equal))
    ]

    -- the bucket of an entry with another key
    elsewhere :
        {b : Bucket} (q : ℕ) (s : Holds hm b)
        → compare hm q b.key ≡ true
        → compare hm q key ≡ false
        → s.index ≢ i
    elsewhere {b} q s matched differs e =
        let laws = v.probed.laws in
        let key_b : b.key ≡ Bucket.key (slot hm.buckets i) =
          ap Bucket.key (sym s.reads ∙ ap (slot hm.buckets) e) in
        let to_i = ap (compare hm q) (sym key_b) ∙ matched in
        let back = laws.equal_symm (Bucket.key (slot hm.buckets i)) key ∙ same in
        never_both differs (laws.equal_trans q (Bucket.key (slot hm.buckets i)) key to_i back)

    pub removed-find : (q : ℕ) → find removed q ≡ (if compare hm q key then 0 else find hm q)
    removed-find q = elim (Bool-cases (compare hm q key)) [
      | inl equal ↦ rw equal (find_lacked (removed-IsValid fits).probed q (Lacks-removed q equal))
      | inr differs ↦ rw differs (elim (find_cases v.probed q) [
        | inl (b, s, matched) ↦
            find_held (removed-IsValid fits).probed q (kept s (elsewhere q s matched differs))
              matched
            ∙ sym (find_held v.probed q s matched)
        | inr lacks ↦
            find_lacked (removed-IsValid fits).probed q (λ j lt t.
              let (s, other) =
                was_kept (slot refilled j)
                  (record { index = j; within = lt; reads = refl; taken = t }) in
              ap (λ (x : Bucket). compare hm q x.key) (sym s.reads)
              ∙ lacks s.index s.within (Taken-at s))
            ∙ sym (find_lacked v.probed q lacks)
      ])
    ]
