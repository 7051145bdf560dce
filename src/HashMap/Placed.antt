-- ===== src/HashMap/Placed.antt =====
-- The invariant of the buckets, and where a lookup ends in them.
use native.Mathlib.Nat.{mod-add-mod, add-mod-mod, mod-eq_of_lt, add-mod_right, mod-lt}
use vsclib.Prelude.{
  ℕ, ◌+◌, ◌-◌, ◌%◌, ◌≤◌, ◌<◌, ◌≡◌, ◌≢◌, sym, ap, ◌∙◌, subst, arith, dec_lt, ℕ_discrete, List,
  length, true, false,
}
use vsclib.HashMap.Scan.{Outcome, hit, path, PassedTo, Scanned, at_hit, at_gap, at_end}
use vsclib.HashMap.Slots.{matches}
use vsclib.HashMap.Types.{Bucket, slot, is_empty, says_equal, invalid_hash}

-- What the map asks of its two procedures: equality of keys, and a hash that respects it and is
-- never `VSC_INVALID_HASH`.
pub record KeyLaws (hash : ℕ → ℕ) (proc : ℕ → ℕ → ℕ) : Type 0 where
  pub equal_refl : (a : ℕ) → says_equal proc a a ≡ true
  pub equal_symm : (a b : ℕ) → says_equal proc a b ≡ says_equal proc b a
  pub equal_trans :
      (a b c : ℕ)
      → says_equal proc a b ≡ true
      → says_equal proc b c ≡ true
      → says_equal proc a c ≡ true
  pub hash_congr : (a b : ℕ) → says_equal proc a b ≡ true → hash a ≡ hash b
  pub hash_valid : (a : ℕ) → hash a ≢ invalid_hash

abbrev pub Taken : List Bucket → ℕ → Type 0
Taken bs i = is_empty (slot bs i) ≡ false

-- `b` stands in one of the first `n` buckets
pub record Stored (n : ℕ) (bs : List Bucket) (b : Bucket) : Type 0 where
  pub index : ℕ
  pub within : index < n
  pub reads : slot bs index ≡ b
  pub taken : is_empty b ≡ false

pub Taken-at : {n : ℕ} {bs : List Bucket} {b : Bucket} (s : Stored n bs b) → Taken bs s.index
Taken-at s = ap is_empty s.reads ∙ s.taken

-- the probes from `h` reach bucket `j` over buckets that are taken
pub record Reached (n : ℕ) (bs : List Bucket) (h j : ℕ) : Type 0 where
  pub steps : ℕ
  pub short : steps < n
  pub ends : j ≡ path n h steps
  pub over : (e : ℕ) → e < steps → Taken bs (path n h e)

pub record Placed (hash : ℕ → ℕ) (proc : ℕ → ℕ → ℕ) (n : ℕ) (bs : List Bucket) : Type 0 where
  pub width : n ≤ length bs
  pub hashed :
      (j : ℕ) → j < n → Taken bs j → Bucket.hash (slot bs j) ≡ hash (Bucket.key (slot bs j))
  pub reached : (j : ℕ) → j < n → Taken bs j → Reached n bs (Bucket.hash (slot bs j)) j
  pub unique :
      (i j : ℕ)
      → i < n
      → j < n
      → Taken bs i
      → Taken bs j
      → says_equal proc (Bucket.key (slot bs i)) (Bucket.key (slot bs j)) ≡ true
      → i ≡ j

pub path-lt : {n d i : ℕ} (h : ℕ) → i ≡ path n h d → d < n → i < n
path-lt {n} {d} h e lt = rw e (mod-lt (h + d) (omega arith))

-- the probes go through every bucket
pub path_covers : (n h j : ℕ) → j < n → (d : ℕ) × (d < n) × (path n h d ≡ j)
path_covers n h j lt = (
  (j + (n - h % n)) % n,
  mod-lt _ (omega arith),
  add-mod-mod h (j + (n - h % n)) n
      ∙ sym (mod-add-mod h n (j + (n - h % n)))
      ∙ ap (λ k. k % n) (let low = mod-lt h {m = n} (omega arith) in omega arith)
      ∙ add-mod_right j n
      ∙ mod-eq_of_lt lt,
)

module _ {hash : ℕ → ℕ} {proc : ℕ → ℕ → ℕ} (laws : KeyLaws hash proc) {n : ℕ} {bs : List Bucket}
    (p : Placed hash proc n bs) (q : ℕ) where
  pub matches_equal :
      (j : ℕ)
      → j < n
      → Taken bs j
      → matches proc (hash q) q (slot bs j) ≡ says_equal proc q (Bucket.key (slot bs j))
  unfolding matches
  matches_equal j h t = ground (arith, p.hashed j, laws.hash_congr q (Bucket.key (slot bs j)))

  Reached-by :
      (j : ℕ)
      → j < n
      → Taken bs j
      → says_equal proc q (Bucket.key (slot bs j)) ≡ true
      → Reached n bs (hash q) j
  Reached-by j h t same =
      subst (λ k. Reached n bs k j) (p.hashed j h t ∙ sym (laws.hash_congr _ _ same))
        (p.reached j h t)

  not_passed :
      (j d : ℕ)
      → j < n
      → Taken bs j
      → says_equal proc q (Bucket.key (slot bs j)) ≡ true
      → (r : Reached n bs (hash q) j) → r.steps < d
      → PassedTo n bs (matches proc (hash q) q) (hash q) d
      → ⊥
  not_passed j d h t same r lt before =
      let missed = (before r.steps lt).1 in
      cc (matches_equal j h t, ap (slot bs) r.ends, missed, same)

  -- a lookup of a key that some bucket has ends there
  pub Scanned-hit :
      (j : ℕ)
      → j < n
      → Taken bs j
      → says_equal proc q (Bucket.key (slot bs j)) ≡ true
      → {o : Outcome} → Scanned n bs (matches proc (hash q) q) (hash q) o
      → o ≡ hit j
  Scanned-hit j h t same (at_hit i d e lt before taken found) =
      let inside = path-lt (hash q) e lt in
      let here = sym (matches_equal i inside taken) ∙ found in
      let flipped = sym (laws.equal_symm q (Bucket.key (slot bs i))) ∙ here in
      ap hit (p.unique i j inside h taken t (laws.equal_trans _ q _ flipped same))
  Scanned-hit j h t same (at_gap i d e lt before empty) =
      let r = Reached-by j h t same in
      elim (dec_lt r.steps d) [
        | yes less ↦ absurd (not_passed j d h t same r less before)
        | no more ↦ elim (ℕ_discrete r.steps d) [
          | yes same_step ↦ cc (t, empty, e, r.ends, same_step)
          | no beyond ↦ cc (r.over d (omega arith), ap (λ k. is_empty (slot bs k)) e, empty)
        ]
      ]
  Scanned-hit j h t same (at_end before) =
      let r = Reached-by j h t same in absurd (not_passed j n h t same r r.short before)

  -- a lookup of a key that no bucket has finds nothing
  pub Scanned-miss :
      ((j : ℕ) → j < n → Taken bs j → says_equal proc q (Bucket.key (slot bs j)) ≡ false)
      → (i : ℕ) → Scanned n bs (matches proc (hash q) q) (hash q) (hit i)
      → ⊥
  Scanned-miss none_has i (at_hit _ d e lt before taken found) =
      let inside = path-lt (hash q) e lt in
      cc (matches_equal i inside taken, found, none_has i inside taken)
