-- ===== src/HashMap/Faults.antt =====
-- Where vsclib/hashmap.c loses entries: a resize to fewer buckets, and a removal that goes round
-- the end of the buckets.
use native.Mathlib.Nat.{mod-eq_of_lt, mod_self}
use vsclib.HashMap.Api.{find, remove}
use vsclib.HashMap.Count.{count-zero}
use vsclib.HashMap.Finding.{Holds, find_lacked, find_bucket_held}
use vsclib.HashMap.Placed.{Taken, Taken-at}
use vsclib.HashMap.Probe.{find_bucket, find_loop, fill_gap, fill_loop}
use vsclib.HashMap.Rehash.{Rehashed, redistributed, redistributed-Rehashed, reset_bucket-is_empty}
use vsclib.HashMap.Resizing.{Grants, resize, bucket_size}
use vsclib.HashMap.Types.{HashMap, Bucket, slot, is_empty, says_equal, reset_bucket}
use vsclib.HashMap.Valid.{IsValid}
use vsclib.Prelude.Errno.{success}
use vsclib.Prelude.Words.{size_max, sub_size}
use vsclib.Prelude.{
  ℕ, zero, suc, ◌+◌, ◌-◌, ◌/◌, ◌%◌, ◌≤◌, ◌<◌, ◌≡◌, ◌≢◌, refl, sym, ap, ◌∙◌, arith, List, set,
  length, get_or-set_self, get_or-set_ne, length-set, true, false, ◌==◌, leb, Bool-cases, inl, inr,
  none, some,
}

-- both allocations succeed
abbrev pub all_granted : Grants
all_granted = record { buckets = true; temp = true }

module _ {hm : HashMap} (v : IsValid hm) (nelem j : ℕ) (inside : j < hm.num_buckets)
    (taken : Taken hm.buckets j) where
  not_zero : hm.size ≢ 0
  not_zero e = cc (count-zero hm.num_buckets hm.buckets (v.counted ∙ e) j inside, taken)

  resize_runs :
      hm.size < nelem
      → nelem < size_max / bucket_size
      → resize all_granted hm nelem ≡ (success, redistributed hm nelem)
  unfolding resize
  resize_runs room small = let ne = not_zero in ground arith

  -- `vsc_hashmap_resize` to fewer buckets returns success, keeps `size`, and loses each entry that
  -- stood past the new end: its key is not found any more.
  pub resize_loses :
      hm.size < nelem
      → nelem < size_max / bucket_size
      → nelem ≤ j
      → ((resize all_granted hm nelem).0 ≡ success)
        × (HashMap.size (resize all_granted hm nelem).1 ≡ hm.size)
        × (find (resize all_granted hm nelem).1 (Bucket.key (slot hm.buckets j)) ≡ 0)
  resize_loses room small past = rw (resize_runs room small) (refl, refl, lost)
    where
      key : ℕ
      key = Bucket.key (slot hm.buckets j)

      rehash : Rehashed hm nelem
      rehash = redistributed-Rehashed hm nelem v.probed

      lost : find (redistributed hm nelem) key ≡ 0
      lost = find_lacked rehash.probed key λ i lt t.
          elim (Bool-cases (
            says_equal hm.compare_proc key
              (Bucket.key (slot (HashMap.buckets (redistributed hm nelem)) i)))) [
                | inr differs ↦ differs
                | inl same ↦
                    let s =
                      rehash.only _ (record { index = i; within = lt; reads = refl; taken = t }) in
                    absurd (
                      omega (
                        arith,
                        v.probed.placed.unique j s.index inside (let w = s.within in omega arith)
                            taken (Taken-at s)
                            (ap (λ (b : Bucket). says_equal hm.compare_proc key b.key) s.reads
                              ∙ same),
                      ))
              ]

-- a search that starts at an empty bucket finds nothing
find_loop-empty :
    (hm : HashMap) (h key rounds index : ℕ)
    → is_empty (slot hm.buckets index) ≡ true
    → find_loop hm h key rounds index ≡ none
unfolding find_loop
find_loop-empty hm h key zero index e = refl
find_loop-empty hm h key (suc rounds) index e = rw e

find_bucket-home_empty :
    (hm : HashMap) (key : ℕ)
    → hm.hash_proc key % hm.num_buckets ≡ 0
    → is_empty (slot hm.buckets 0) ≡ true
    → find_bucket hm key ≡ none
unfolding find_bucket
find_bucket-home_empty hm key home e = elim (Bool-cases (hm.num_buckets == 0)) [
  | inl z ↦ rw z
  | inr z ↦
      let at_zero : 0 % hm.num_buckets ≡ 0 = mod-eq_of_lt (ground arith) in
      rw (z, home, at_zero) (find_loop-empty hm (hm.hash_proc key) key hm.num_buckets 0 e)
]

find_home_empty :
    (hm : HashMap) (key : ℕ)
    → hm.hash_proc key % hm.num_buckets ≡ 0
    → is_empty (slot hm.buckets 0) ≡ true
    → find hm key ≡ 0
unfolding find
find_home_empty hm key home e = rw (find_bucket-home_empty hm key home e, find)

-- the first two rounds from bucket 0 into the last bucket
fill_two :
    (hm : HashMap) (bs : List Bucket) (rounds last : ℕ)
    → 1 < hm.num_buckets
    → 1 < last
    → is_empty (slot bs 0) ≡ false
    → Bucket.hash (slot bs 0) % hm.num_buckets ≡ 0
    → is_empty (slot bs 1) ≡ true
    → fill_loop hm (suc (suc rounds)) last 0 bs ≡ set (set bs last (slot bs 0)) 0 reset_bucket
unfolding fill_loop
fill_two hm bs rounds last wide far taken home empty =
    let kept : slot (set (set bs last (slot bs 0)) 0 reset_bucket) 1 ≡ slot bs 1 =
      get_or-set_ne (set bs last (slot bs 0)) 0 1 reset_bucket reset_bucket (omega arith)
      ∙ get_or-set_ne bs last 1 (slot bs 0) reset_bucket (omega arith) in
    let back : leb 0 last ≡ true = ground arith in
    let one : (0 + 1) % hm.num_buckets ≡ 1 = mod-eq_of_lt wide in
    rw (taken, home, one, kept, empty, back)

fill_two_of :
    (hm : HashMap) (bs : List Bucket) (rounds r last : ℕ)
    → rounds ≡ suc (suc r)
    → 1 < hm.num_buckets
    → 1 < last
    → is_empty (slot bs 0) ≡ false
    → Bucket.hash (slot bs 0) % hm.num_buckets ≡ 0
    → is_empty (slot bs 1) ≡ true
    → fill_loop hm rounds last 0 bs ≡ set (set bs last (slot bs 0)) 0 reset_bucket
fill_two_of hm bs rounds r last e wide far taken home empty =
    ap (λ k. fill_loop hm k last 0 bs) e ∙ fill_two hm bs r last wide far taken home empty

remove_found :
    (hm : HashMap) (key index : ℕ)
    → find_bucket hm key ≡ some index
    → remove hm key ≡ (
      Bucket.value (slot hm.buckets index),
      record hm {
        buckets = fill_gap hm index (set hm.buckets index reset_bucket);
        size = sub_size hm.size 1;
      },
    )
unfolding remove
remove_found hm key index e = rw (e, remove)

module _ {hm : HashMap} (v : IsValid hm) (last : ℕ) (at_end : last + 1 ≡ hm.num_buckets)
    (far : 1 < last) (taken_last : Taken hm.buckets last) (taken_first : Taken hm.buckets 0)
    (home : Bucket.hash (slot hm.buckets 0) % hm.num_buckets ≡ 0)
    (empty_second : is_empty (slot hm.buckets 1) ≡ true) where
  cut : List Bucket
  cut = set hm.buckets last reset_bucket

  filled : fill_gap hm last cut ≡ set (set cut last (slot cut 0)) 0 reset_bucket
  unfolding fill_gap cut
  filled =
      let start : (last + 1) % hm.num_buckets ≡ 0 =
        ap (λ k. k % hm.num_buckets) at_end ∙ mod_self hm.num_buckets in
      let first : slot cut 0 ≡ slot hm.buckets 0 =
        get_or-set_ne hm.buckets last 0 reset_bucket reset_bucket (omega arith) in
      let second : slot cut 1 ≡ slot hm.buckets 1 =
        get_or-set_ne hm.buckets last 1 reset_bucket reset_bucket (omega arith) in
      rw start (
        fill_two_of hm cut hm.num_buckets (last - 1) last (omega arith) (omega arith) far
          (ap is_empty first ∙ taken_first)
          (ap (λ (b : Bucket). b.hash % hm.num_buckets) first ∙ home)
          (ap is_empty second ∙ empty_second))

  -- `vsc_hashmap_remove` of the entry in the last bucket moves the entry at home in bucket 0 there
  -- if bucket 1 is empty, and its key is not found any more.
  pub remove_loses :
      find (remove hm (Bucket.key (slot hm.buckets last))).1 (Bucket.key (slot hm.buckets 0)) ≡ 0
  unfolding cut
  remove_loses =
      let key = Bucket.key (slot hm.buckets last) in
      let s : Holds hm (slot hm.buckets last) = record {
        index = last;
        within = omega arith;
        reads = refl;
        taken = taken_last;
      } in
      let at_first =
        ap (λ (h : ℕ). h % hm.num_buckets) (v.probed.placed.hashed 0 (omega arith) taken_first) in
      rw (remove_found hm key last (find_bucket_held v.probed key s (v.probed.laws.equal_refl key)))
        (find_home_empty _ (Bucket.key (slot hm.buckets 0)) (sym at_first ∙ home) (
          ap (λ bs. is_empty (slot bs 0)) filled
          ∙ ap is_empty (get_or-set_self _ 0 reset_bucket reset_bucket long)
          ∙ reset_bucket-is_empty))
    where
      long :
          0
          < length (
              set
                (set hm.buckets last reset_bucket)
                last
                (slot (set hm.buckets last reset_bucket) 0))
      long = rw (length-set, length-set) (let w = v.probed.placed.width in omega arith)
