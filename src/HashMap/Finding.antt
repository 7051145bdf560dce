-- ===== src/HashMap/Finding.antt =====
-- `vsc_hashmap_find`, `vsc_hashmap_update` and `find_bucket` against the entries that are stored.
use vsclib.HashMap.Adding.{Absent}
use vsclib.HashMap.Api.{find}
use vsclib.HashMap.Placed.{
  KeyLaws, Taken, Stored, Placed, Taken-at, path-lt, matches_equal, Scanned-hit,
}
use vsclib.HashMap.Probe.{find_bucket}
use vsclib.HashMap.Scan.{Outcome, hit, Scanned, at_hit, at_gap, at_end, scan-Scanned}
use vsclib.HashMap.Slots.{matches, found, find_bucket-lookup}
use vsclib.HashMap.Types.{HashMap, Bucket, slot, compare}
use vsclib.Prelude.{
  ℕ, ◌<◌, ◌≡◌, ◌≢◌, refl, sym, ap, ◌∙◌, true, Option, none, some, Bool-cases, inl, inr, ◌⊎◌,
}

-- the part of the invariant that the probing needs
pub record IsProbed (hm : HashMap) : Type 0 where
  pub laws : KeyLaws hm.hash_proc hm.compare_proc
  pub placed : Placed hm.hash_proc hm.compare_proc hm.num_buckets hm.buckets

-- `b` is an entry of the map
abbrev pub Holds : HashMap → Bucket → Type 0
Holds hm b = Stored hm.num_buckets hm.buckets b

abbrev pub Lacks : HashMap → ℕ → Type 0
Lacks hm key = Absent hm.compare_proc hm.num_buckets hm.buckets key

pub data FindResult (hm : HashMap) (key : ℕ) : Option ℕ → Type 0 where
  there :
      (i : ℕ)
      → i < hm.num_buckets
      → Taken hm.buckets i
      → compare hm key (Bucket.key (slot hm.buckets i)) ≡ true
      → FindResult hm key (some i)
  nowhere : Lacks hm key → FindResult hm key none

module _ {hm : HashMap} (p : IsProbed hm) (key : ℕ) where
  Lacks-unless_hit :
      {o : Outcome}
      → Scanned hm.num_buckets hm.buckets
          (matches hm.compare_proc (hm.hash_proc key) key)
          (hm.hash_proc key)
          o
      → ((j : ℕ) → o ≢ hit j)
      → Lacks hm key
  Lacks-unless_hit s not_hit j lt t =
      elim (Bool-cases (compare hm key (Bucket.key (slot hm.buckets j)))) [
        | inl same ↦ absurd (not_hit j (Scanned-hit p.laws p.placed key j lt t same s))
        | inr differs ↦ differs
      ]

  found-FindResult :
      {o : Outcome}
      → Scanned hm.num_buckets hm.buckets
          (matches hm.compare_proc (hm.hash_proc key) key)
          (hm.hash_proc key)
          o
      → FindResult hm key (found o)
  unfolding found
  found-FindResult (at_hit i d e lt before taken yes_here) =
      let inside = path-lt (hm.hash_proc key) e lt in
      there i inside taken (sym (matches_equal p.laws p.placed key i inside taken) ∙ yes_here)
  found-FindResult (at_gap i d e lt before empty) =
      nowhere (Lacks-unless_hit (at_gap i d e lt before empty) (λ j e. cc))
  found-FindResult (at_end before) = nowhere (Lacks-unless_hit (at_end before) (λ j e. cc))

  -- `find_bucket` ends at the bucket of the key, or finds that there is none.
  pub find_bucket-FindResult : FindResult hm key (find_bucket hm key)
  find_bucket-FindResult = rw find_bucket-lookup (found-FindResult (scan-Scanned _ _ _ _))

  held_at :
      {b : Bucket} (s : Holds hm b)
      → compare hm key b.key ≡ true
      → {o : Option ℕ} → FindResult hm key o
      → o ≡ some s.index
  held_at {b} s same (there i inside taken matched) =
      let back = sym (p.laws.equal_symm key (Bucket.key (slot hm.buckets i))) ∙ matched in
      let same_key = ap (λ (x : Bucket). compare hm key x.key) s.reads ∙ same in
      ap some (
        p.placed.unique i s.index inside s.within taken (Taken-at s)
          (p.laws.equal_trans _ key _ back same_key))
  held_at {b} s same (nowhere lacks) =
      let same_key = ap (λ (x : Bucket). compare hm key x.key) s.reads ∙ same in
      cc (lacks s.index s.within (Taken-at s), same_key)

  pub find_bucket_held :
      {b : Bucket} (s : Holds hm b)
      → compare hm key b.key ≡ true
      → find_bucket hm key ≡ some s.index
  find_bucket_held s same = held_at s same find_bucket-FindResult

  lacked_at : Lacks hm key → {o : Option ℕ} → FindResult hm key o → o ≡ none
  lacked_at lacks (there i inside taken matched) = cc (lacks i inside taken, matched)
  lacked_at lacks (nowhere _) = refl

  pub find_bucket_lacked : Lacks hm key → find_bucket hm key ≡ none
  find_bucket_lacked lacks = lacked_at lacks find_bucket-FindResult

  -- `vsc_hashmap_find` returns the value of the entry with the key.
  pub find_held : {b : Bucket} → Holds hm b → compare hm key b.key ≡ true → find hm key ≡ b.value
  unfolding find
  find_held s same = rw (find_bucket_held s same, find) (ap Bucket.value s.reads)

  -- `vsc_hashmap_find` returns NULL for a key that no entry has.
  pub find_lacked : Lacks hm key → find hm key ≡ 0
  unfolding find
  find_lacked lacks = rw (find_bucket_lacked lacks, find)

  -- a key is that of an entry, or of none
  pub find_cases : ((b : Bucket) × Holds hm b × (compare hm key b.key ≡ true)) ⊎ Lacks hm key
  find_cases = cases find_bucket-FindResult
    where
      cases :
          {o : Option ℕ}
          → FindResult hm key o
          → ((b : Bucket) × Holds hm b × (compare hm key b.key ≡ true)) ⊎ Lacks hm key
      cases (there i inside taken matched) = inl (
        slot hm.buckets i,
        record { index = i; within = inside; reads = refl; taken = taken },
        matched,
      )
      cases (nowhere lacks) = inr lacks

-- `vsc_hashmap_find` returns the value of the entry whose key equals the given one, or NULL if there
-- is no such entry.
pub find_entry :
    {hm : HashMap} (key : ℕ)
    → IsProbed hm
    → ((b : Bucket) × Holds hm b × (compare hm key b.key ≡ true) × (find hm key ≡ b.value))
      ⊎ (Lacks hm key × (find hm key ≡ 0))
find_entry key p = elim (find_cases p key) [
  | inl (b, s, same) ↦ inl (b, s, same, find_held p key s same)
  | inr lacks ↦ inr (lacks, find_lacked p key lacks)
]

-- Two maps that hold the same entries of a key find the same value.
pub find_agree :
    {hm hm' : HashMap}
    → IsProbed hm
    → IsProbed hm'
    → (key : ℕ) → ((a b : ℕ) → compare hm' a b ≡ compare hm a b)
    → ((b : Bucket) → Holds hm b → compare hm key b.key ≡ true → Holds hm' b)
    → ((b : Bucket) → Holds hm' b → compare hm key b.key ≡ true → Holds hm b)
    → find hm' key ≡ find hm key
find_agree {hm} {hm'} p p' key same_proc there_too back = elim (find_cases p key) [
  | inl (b, s, same) ↦
      find_held p' key (there_too b s same) (same_proc key b.key ∙ same)
      ∙ sym (find_held p key s same)
  | inr lacks ↦ elim (find_cases p' key) [
    | inl (b, s, same) ↦
        let mine = back b s (sym (same_proc key b.key) ∙ same) in
        let differs = lacks mine.index mine.within (Taken-at mine) in
        cc (differs, mine.reads, same_proc key b.key, same)
    | inr lacks' ↦ find_lacked p' key lacks' ∙ sym (find_lacked p key lacks)
  ]
]
