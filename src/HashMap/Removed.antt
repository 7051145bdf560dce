-- ===== src/HashMap/Removed.antt =====
-- `vsc_hashmap_remove` of a key that the map has or lacks.
use vsclib.HashMap.Api.{find, remove}
use vsclib.HashMap.Finding.{Lacks, FindResult, there, nowhere, find_bucket-FindResult, find_held}
use vsclib.HashMap.Probe.{find_bucket, fill_gap}
use vsclib.HashMap.Types.{HashMap, Bucket, reset_bucket, slot, compare}
use vsclib.HashMap.Valid.{IsValid}
use vsclib.Prelude.Words.{size_max, sub_size}
use vsclib.Prelude.{ℕ, ◌+◌, ◌≤◌, ◌≡◌, refl, subst, arith, Option, none, some, set, if◌then◌else◌}
use vsclib.HashMap.Removing.{IsUnwrapped, removed, one_less, removed-IsValid, removed-find}

-- the value that was under the key, and a valid map without it; or 0 and the map as it was
pub data Removed (hm : HashMap) (key : ℕ) : ℕ × HashMap → Type 0 where
  took :
      (hm' : HashMap)
      → IsValid hm'
      → hm'.size + 1 ≡ hm.size
      → ((q : ℕ) → find hm' q ≡ (if compare hm q key then 0 else find hm q))
      → Removed hm key (find hm key, hm')
  lacked : Lacks hm key → Removed hm key (0, hm)

module _ {hm : HashMap} (v : IsValid hm) (key : ℕ) (fits : hm.size ≤ size_max) where
  by_result :
      {o : Option ℕ}
      → find_bucket hm key ≡ o
      → FindResult hm key o
      → ((index : ℕ) → o ≡ some index → IsUnwrapped hm index)
      → Removed hm key (elim o [
        | none ↦ (0, hm)
        | some index ↦
            let b = slot hm.buckets index in
            (
              b.value,
              record hm {
                buckets = fill_gap hm index (set hm.buckets index reset_bucket);
                size = sub_size hm.size 1;
              },
            )
      ])
  by_result at (nowhere lacks) unwrapped = lacked lacks
  by_result at (there i inside taken same) unwrapped =
      let u = unwrapped i refl in
      let held : find hm key ≡ Bucket.value (slot hm.buckets i) =
        find_held v.probed key (record { index = i; within = inside; reads = refl; taken = taken })
          same in
      subst (λ value. Removed hm key (value, removed v i inside taken u)) held
        (took (removed v i inside taken u) (removed-IsValid v i inside taken u fits)
          (omega (arith, one_less v i inside taken u))
          (removed-find v i inside taken u key same fits))

  -- On a valid map, where behind the key's bucket and not beyond the last bucket there is an empty
  -- one, and every entry that stands between the two has its home no later than where it stands,
  -- vsc_hashmap_remove returns the value under the key and leaves a valid map of one entry less, in
  -- which the key is not found and every other lookup is as it was; for a key that the map lacks, it
  -- returns NULL and changes nothing.
  pub remove-Removed :
      ((index : ℕ) → find_bucket hm key ≡ some index → IsUnwrapped hm index)
      → Removed hm key (remove hm key)
  unfolding remove
  remove-Removed unwrapped = by_result refl (find_bucket-FindResult v.probed key) unwrapped
