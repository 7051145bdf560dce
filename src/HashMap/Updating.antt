-- ===== src/HashMap/Updating.antt =====
-- `vsc_hashmap_update`, which writes the value of a bucket in place.
use vsclib.HashMap.Adding.{Replaced, set-Replaced}
use vsclib.HashMap.Api.{find, update}
use vsclib.HashMap.Finding.{FindResult, there, nowhere, find_bucket-FindResult, Lacks}
use vsclib.HashMap.Inserting.{stored_as}
use vsclib.HashMap.Placed.{Taken}
use vsclib.HashMap.Types.{HashMap, Bucket, slot, is_empty, compare}
use vsclib.HashMap.Valid.{IsValid}
use vsclib.Prelude.{
  ℕ, ◌<◌, ◌≡◌, ◌≢◌, refl, sym, ◌∙◌, set, true, false, Bool-cases, inl, inr, Option, none, some,
  if◌then◌else◌,
}

-- 0 with the value under the key, or 1 and the map as it was, without the key
pub data Updated (hm : HashMap) (key value : ℕ) : ℕ × HashMap → Type 0 where
  wrote_value :
      (hm' : HashMap)
      → IsValid hm'
      → hm'.size ≡ hm.size
      → ((q : ℕ) → find hm' q ≡ (if compare hm q key then value else find hm q))
      → Updated hm key value (0, hm')
  no_key : Lacks hm key → Updated hm key value (1, hm)

module _ {hm : HashMap} (v : IsValid hm) (key value : ℕ) where
  module _ (i : ℕ) (inside : i < hm.num_buckets) (taken : Taken hm.buckets i)
      (same : compare hm key (Bucket.key (slot hm.buckets i)) ≡ true) where
    rewritten : Bucket
    rewritten = record (slot hm.buckets i) { value = value }

    old_key : ℕ
    old_key = Bucket.key (slot hm.buckets i)

    rewritten_taken : is_empty rewritten ≡ false
    unfolding rewritten is_empty
    rewritten_taken = taken

    others :
        (j : ℕ)
        → j < hm.num_buckets
        → j ≢ i
        → Taken hm.buckets j
        → compare hm old_key (Bucket.key (slot hm.buckets j)) ≡ false
    unfolding old_key
    others j lt ne t = elim (Bool-cases (compare hm old_key (Bucket.key (slot hm.buckets j)))) [
      | inr differs ↦ differs
      | inl equal ↦ absurd (ne (sym (v.probed.placed.unique i j inside lt taken t equal)))
    ]

    replaced :
        Replaced hm.hash_proc hm.compare_proc hm.num_buckets hm.buckets rewritten
          (is_empty (slot hm.buckets i))
          (set hm.buckets i rewritten)
    unfolding rewritten old_key
    replaced =
        set-Replaced v.probed.laws v.probed.placed rewritten (v.probed.placed.hashed i inside taken)
          rewritten_taken i (v.probed.placed.reached i inside taken) inside others
          (λ _. v.probed.laws.equal_refl old_key)

    same_answer : (q : ℕ) → compare hm q old_key ≡ compare hm q key
    unfolding old_key
    same_answer q = elim (Bool-cases (compare hm q key)) [
      | inl e ↦ v.probed.laws.equal_trans q key old_key e same ∙ sym e
      | inr e ↦ elim (Bool-cases (compare hm q old_key)) [
        | inr e' ↦ e' ∙ sym e
        | inl e' ↦
            let back = v.probed.laws.equal_symm old_key key ∙ same in
            cc (v.probed.laws.equal_trans q old_key key e' back)
      ]
    ]

    written : Updated hm key value (0, record hm { buckets = set hm.buckets i rewritten })
    unfolding rewritten old_key
    written =
        let p =
          stored_as v rewritten rewritten_taken false (set hm.buckets i rewritten)
            (rw taken at replaced) (λ h. cc) in
        wrote_value _ p.valid refl (λ q. rw (sym (same_answer q)) (p.finds q))

  by_result :
      {o : Option ℕ}
      → FindResult hm key o
      → Updated hm key value (elim o [
        | none ↦ (1, hm)
        | some index ↦
            let b = slot hm.buckets index in
            (0, record hm { buckets = set hm.buckets index (record b { value = value }) })
      ])
  by_result (there i inside taken same) = unfold rewritten in written i inside taken same
  by_result (nowhere lacks) = no_key lacks

  -- On a valid map, vsc_hashmap_update puts the value under a key that the map has, keeps every other
  -- lookup and the size, and returns 0, and returns 1 and changes nothing for a key that it lacks;
  -- hashmap.h says the opposite, 1 if the key exists and 0 if not.
  pub update-Updated : Updated hm key value (update hm key value)
  unfolding update
  update-Updated = by_result (find_bucket-FindResult v.probed key)
