-- ===== src/HashMap/Strings.antt =====
-- Lookups in a map with the procedures of vsclib/hashmap.c for strings.
use vsclib.EnumGroups.Loop.{same}
use vsclib.HashMap.Api.{find}
use vsclib.HashMap.Defaults.{string_compare}
use vsclib.HashMap.Placed.{Taken, path-lt}
use vsclib.HashMap.Scan.{Outcome, Scanned, at_hit, at_gap, at_end, scan-Scanned}
use vsclib.HashMap.Slots.{matches, found, find_bucket-lookup}
use vsclib.HashMap.Types.{HashMap, Bucket, slot, says_equal, compare}
use vsclib.Prelude.{
  ℕ, ◌<◌, ◌≡◌, ◌⊎◌, inl, inr, refl, ap, ◌∙◌, false, &&_both, ◌==◌, ==_iff, none, List, arith,
}

-- the same address is not equal to itself
string_compare_self : (text : ℕ → List ℕ) (a : ℕ) → says_equal (string_compare text) a a ≡ false
unfolding string_compare says_equal
string_compare_self text a = rw ((==_iff a a).1 refl) refl

string_compare-differ :
    (text : ℕ → List ℕ) (a b : ℕ)
    → same (text a) (text b) ≡ false
    → says_equal (string_compare text) a b ≡ false
unfolding string_compare says_equal
string_compare-differ text a b e = ground (arith, e)

module _ (hm : HashMap) (key : ℕ)
    (unequal : (j : ℕ)
      → j < hm.num_buckets
      → Taken hm.buckets j
      → compare hm key (Bucket.key (slot hm.buckets j)) ≡ false) where
  nothing_found :
      {o : Outcome}
      → Scanned hm.num_buckets hm.buckets
          (matches hm.compare_proc (hm.hash_proc key) key)
          (hm.hash_proc key)
          o
      → found o ≡ none
  unfolding found matches
  nothing_found (at_hit i d e lt before taken yes_here) =
      let inside = path-lt (hm.hash_proc key) e lt in
      let (_, same_key) =
        &&_both (Bucket.hash (slot hm.buckets i) == hm.hash_proc key)
          (compare hm key (Bucket.key (slot hm.buckets i))) yes_here in
      cc (unequal i inside taken, same_key)
  nothing_found (at_gap i d e lt before empty) = refl
  nothing_found (at_end before) = refl

  find_unequal : find hm key ≡ 0
  unfolding find
  find_unequal = rw (find_bucket-lookup, nothing_found (scan-Scanned _ _ _ _), find)

-- In a map that compares with vsc_hashmap_string_compare, vsc_hashmap_find does not find a key that stands
-- in the map by the same address, where no key at another address has the same text.
pub find-same_address :
    (text : ℕ → List ℕ) (hm : HashMap) (key : ℕ)
    → hm.compare_proc ≡ string_compare text
    → ((j : ℕ)
        → j < hm.num_buckets
        → Taken hm.buckets j
        → (Bucket.key (slot hm.buckets j) ≡ key)
          ⊎ (same (text key) (text (Bucket.key (slot hm.buckets j))) ≡ false))
    → find hm key ≡ 0
find-same_address text hm key proc others = find_unequal hm key (λ j lt t.
    ap (λ f. says_equal f key (Bucket.key (slot hm.buckets j))) proc ∙ elim (others j lt t) [
      | inl e ↦ ap (says_equal (string_compare text) key) e ∙ string_compare_self text key
      | inr differs ↦ string_compare-differ text key (Bucket.key (slot hm.buckets j)) differs
    ])
