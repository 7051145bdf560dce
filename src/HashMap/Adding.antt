-- ===== src/HashMap/Adding.antt =====
-- What `add_or_replace_bucket` does to the buckets.
use vsclib.HashMap.Count.{count, count-set, count-free, count-le}
use vsclib.HashMap.Placed.{
  KeyLaws, Taken, Stored, Reached, Placed, path-lt, path_covers, Scanned-hit, matches_equal,
}
use vsclib.HashMap.Scan.{Outcome, hit, path, PassedTo, Scanned, at_hit, at_gap, at_end}
use vsclib.HashMap.Slots.{matches, added}
use vsclib.HashMap.Types.{Bucket, slot, is_empty, says_equal, reset_bucket}
use vsclib.Prelude.{
  ℕ, ◌+◌, ◌<◌, ◌≡◌, ◌≢◌, sym, refl, ap, ◌∙◌, arith, List, set, length, Bool, true, false,
  if◌then◌else◌, ◌⊎◌, inl, inr, dec_lt, ℕ_discrete, length-set, get_or-set_self, get_or-set_ne,
  Option, none, some, Bool-cases,
}

-- no bucket has the key
abbrev pub Absent : (ℕ → ℕ → ℕ) → ℕ → List Bucket → ℕ → Type 0
Absent proc n bs key =
    (j : ℕ) → j < n → Taken bs j → says_equal proc key (Bucket.key (slot bs j)) ≡ false

-- `bs'` is `bs` with `b` in it and no other bucket of its key; `grown` says if it holds one more
pub record Replaced (hash : ℕ → ℕ) (proc : ℕ → ℕ → ℕ) (n : ℕ) (bs : List Bucket) (b : Bucket)
    (grown : Bool) (bs' : List Bucket) : Type 0 where
  pub placed : Placed hash proc n bs'
  pub same_length : length bs' ≡ length bs
  pub stores : Stored n bs' b
  pub keeps : (c : Bucket) → Stored n bs c → says_equal proc b.key c.key ≡ false → Stored n bs' c
  pub only :
      (c : Bucket)
      → Stored n bs' c
      → (c ≡ b) ⊎ (Stored n bs c × (says_equal proc b.key c.key ≡ false))
  pub was_there :
      grown ≡ false → (c : Bucket) × Stored n bs c × (says_equal proc b.key c.key ≡ true)
  pub was_absent : grown ≡ true → Absent proc n bs b.key
  pub counted : count n bs' ≡ count n bs + (if grown then 1 else 0)

-- Either the bucket is written, or all the buckets are taken by other keys.
pub data AddResult (hash : ℕ → ℕ) (proc : ℕ → ℕ → ℕ) (n : ℕ) (bs : List Bucket) (b : Bucket)
    : Option (Bool × List Bucket) → Type 0 where
  wrote :
      (grown : Bool) (bs' : List Bucket)
      → Replaced hash proc n bs b grown bs'
      → AddResult hash proc n bs b (some (grown, bs'))
  no_room : count n bs ≡ n → Absent proc n bs b.key → AddResult hash proc n bs b none

module _ {hash : ℕ → ℕ} {proc : ℕ → ℕ → ℕ} (laws : KeyLaws hash proc) {n : ℕ} {bs : List Bucket}
    (p : Placed hash proc n bs) (b : Bucket) (of_key : b.hash ≡ hash b.key)
    (taken_b : is_empty b ≡ false) where
  -- The write at `i`, where the probes reach `i` and no other bucket has the key.
  module _ (i : ℕ) (r : Reached n bs b.hash i) (inside : i < n)
      (others : (j : ℕ)
        → j < n
        → j ≢ i
        → Taken bs j
        → says_equal proc b.key (Bucket.key (slot bs j)) ≡ false) where
    self : slot (set bs i b) i ≡ b
    self = get_or-set_self bs i b reset_bucket (let w = p.width in omega arith)

    other : (j : ℕ) → j ≢ i → slot (set bs i b) j ≡ slot bs j
    other j ne = get_or-set_ne bs i j b reset_bucket (λ e. ne (sym e))

    still-Taken : (j : ℕ) → Taken bs j → Taken (set bs i b) j
    still-Taken j t = elim (ℕ_discrete j i) [
      | yes e ↦ rw (e, self) taken_b
      | no ne ↦ rw (other j ne) t
    ]

    still-Reached : (h j : ℕ) → Reached n bs h j → Reached n (set bs i b) h j
    still-Reached h j s = record {
      steps = s.steps;
      short = s.short;
      ends = s.ends;
      over = λ e lt. still-Taken _ (s.over e lt);
    }

    set_unique :
        (j k : ℕ)
        → j < n
        → k < n
        → Taken (set bs i b) j
        → Taken (set bs i b) k
        → says_equal proc (Bucket.key (slot (set bs i b) j)) (Bucket.key (slot (set bs i b) k))
          ≡ true
        → j ≡ k
    set_unique j k lj lk tj tk same = elim (ℕ_discrete j i) [
      | yes ej ↦ elim (ℕ_discrete k i) [
        | yes ek ↦ ej ∙ sym ek
        | no nk ↦ cc (self, ej, other k nk, same, others k lk nk (rw (other k nk) at tk))
      ]
      | no nj ↦ elim (ℕ_discrete k i) [
        | yes ek ↦ cc (
          self,
          ek,
          other j nj,
          same,
          others j lj nj (rw (other j nj) at tj),
          laws.equal_symm b.key (Bucket.key (slot bs j)),
        )
        | no nk ↦
            p.unique j k lj lk (rw (other j nj) at tj) (rw (other k nk) at tk)
              (rw (other j nj, other k nk) at same)
      ]
    ]

    set-Placed : Placed hash proc n (set bs i b)
    set-Placed = record {
      width = rw length-set p.width;
      hashed = λ j lt t. elim (ℕ_discrete j i) [
        | yes e ↦ rw (e, self) of_key
        | no ne ↦ rw (other j ne) (p.hashed j lt (rw (other j ne) at t))
      ];
      reached = λ j lt t. elim (ℕ_discrete j i) [
        | yes e ↦ rw (e, self) (still-Reached b.hash i r)
        | no ne ↦ rw (other j ne) (still-Reached _ j (p.reached j lt (rw (other j ne) at t)))
      ];
      unique = set_unique;
    }

    set_keeps :
        (c : Bucket)
        → Stored n bs c
        → (is_empty (slot bs i) ≡ false → says_equal proc b.key (Bucket.key (slot bs i)) ≡ true)
        → says_equal proc b.key c.key ≡ false
        → Stored n (set bs i b) c
    set_keeps c s here differs = elim (ℕ_discrete s.index i) [
      | yes e ↦
          let at_i = sym (ap (slot bs) e) ∙ s.reads in cc (at_i, here (rw at_i s.taken), differs)
      | no ne ↦ record {
        index = s.index;
        within = s.within;
        reads = other s.index ne ∙ s.reads;
        taken = s.taken;
      }
    ]

    set_only :
        (c : Bucket)
        → Stored n (set bs i b) c
        → (c ≡ b) ⊎ (Stored n bs c × (says_equal proc b.key c.key ≡ false))
    set_only c s = elim (ℕ_discrete s.index i) [
      | yes e ↦ inl (sym s.reads ∙ ap (slot (set bs i b)) e ∙ self)
      | no ne ↦
          let at_old = sym (other s.index ne) ∙ s.reads in
          inr (
            record { index = s.index; within = s.within; reads = at_old; taken = s.taken },
            ap (λ (x : Bucket). says_equal proc b.key x.key) (sym at_old)
                ∙ others s.index s.within ne (rw at_old s.taken),
          )
    ]

    pub set-Replaced :
        (is_empty (slot bs i) ≡ false → says_equal proc b.key (Bucket.key (slot bs i)) ≡ true)
        → Replaced hash proc n bs b (is_empty (slot bs i)) (set bs i b)
    set-Replaced here = record {
      placed = set-Placed;
      same_length = length-set bs i b;
      stores = record { index = i; within = inside; reads = self; taken = taken_b };
      keeps = λ c s. set_keeps c s here;
      only = set_only;
      was_there =
          λ t. (slot bs i, record { index = i; within = inside; reads = refl; taken = t }, here t);
      was_absent = λ empty j lt t. elim (ℕ_discrete j i) [
        | yes e ↦ cc (t, ap (slot bs) e, empty)
        | no ne ↦ others j lt ne t
      ];
      counted = let w = p.width in ground (arith, count-set bs i b (omega arith) n inside, taken_b);
    }

  abbrev AtKey : Outcome → Type 0
  AtKey o = Scanned n bs (matches proc (hash b.key) b.key) (hash b.key) o

  -- the key is in no bucket but the one where its lookup ends
  differs_unless_hit :
      {o : Outcome}
      → AtKey o
      → (j : ℕ) → o ≢ hit j
      → j < n
      → Taken bs j
      → says_equal proc b.key (Bucket.key (slot bs j)) ≡ false
  differs_unless_hit s j not_hit lt t =
      elim (Bool-cases (says_equal proc b.key (Bucket.key (slot bs j)))) [
        | inl same ↦ absurd (not_hit (Scanned-hit laws p b.key j lt t same s))
        | inr differs ↦ differs
      ]

  Reached-here :
      (i d : ℕ)
      → i ≡ path n (hash b.key) d
      → d < n
      → PassedTo n bs (matches proc (hash b.key) b.key) (hash b.key) d
      → Reached n bs b.hash i
  Reached-here i d e lt before =
      rw of_key (record { steps = d; short = lt; ends = e; over = λ k l. (before k l).0 })

  all_taken : PassedTo n bs (matches proc (hash b.key) b.key) (hash b.key) n → count n bs ≡ n
  all_taken before = elim (dec_lt (count n bs) n) [
    | yes less ↦
        let (j, lt, free) = count-free n bs less in
        let (d, short, ends) = path_covers n (hash b.key) j lt in
        cc ((before d short).0, ap (slot bs) ends, free)
    | no enough ↦ omega (arith, count-le n bs)
  ]

  pub added-AddResult : {o : Outcome} → AtKey o → AddResult hash proc n bs b (added bs b o)
  unfolding added
  added-AddResult (at_hit i d e lt before taken found) =
      let inside = path-lt (hash b.key) e lt in
      let s = at_hit i d e lt before taken found in
      let same = sym (matches_equal laws p b.key i inside taken) ∙ found in
      let others = λ (j : ℕ) (l : j < n) (ne : j ≢ i). differs_unless_hit s j (λ h. ne (cc)) l in
      wrote false _
        (rw taken at (set-Replaced i (Reached-here i d e lt before) inside others (λ _. same)))
  added-AddResult (at_gap i d e lt before empty) =
      let inside = path-lt (hash b.key) e lt in
      let s = at_gap i d e lt before empty in
      let others = λ (j : ℕ) (l : j < n) (ne : j ≢ i). differs_unless_hit s j (λ h. cc) l in
      wrote true _
        (rw empty at (set-Replaced i (Reached-here i d e lt before) inside others (λ t. cc)))
  added-AddResult (at_end before) =
      no_room (all_taken before) (λ j. differs_unless_hit (at_end before) j (λ e. cc))
