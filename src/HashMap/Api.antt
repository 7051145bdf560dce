-- ===== src/HashMap/Api.antt =====
-- The functions of vsclib/include/vsclib/hashmap.h, but for the resizing.
use vsclib.Prelude.Errno.{Status, success, failure, erange, einval, eperm, enospc}
use vsclib.Prelude.Words.{add_size, sub_size}
use vsclib.Prelude.{
  ℕ, zero, suc, ◌+◌, ◌*◌, List, [], ◌∷◌, set, Bool, ◌||◌, ◌&&◌, ◌==◌, ltb, leb, if◌then◌else◌,
  Option, none, some, take,
}
use vsclib.HashMap.Probe.{add_or_replace_bucket, find_bucket, fill_gap}
use vsclib.HashMap.Resizing.{Grants, maybe_resize}
use vsclib.HashMap.Types.{HashMap, Bucket, ResizePolicy, reset_bucket, slot, is_empty, hash}

-- What `validate` asserts, the last line as it is written.
unfoldable pub validate : HashMap → Bool
validate hm =
    leb hm.size hm.num_buckets
    && ltb 0 hm.load_min_den
    && ltb hm.load_min_num hm.load_min_den
    && ltb 0 hm.load_max_den
    && ltb hm.load_max_num hm.load_max_den
    && leb (hm.load_min_num * hm.load_max_den) (hm.load_max_num * hm.load_max_den)

unfoldable pub clear_loop : ℕ → ℕ → List Bucket → List Bucket
clear_loop zero i bs = bs
clear_loop (suc rounds) i bs = clear_loop rounds (i + 1) (set bs i reset_bucket)

unfoldable pub clear : HashMap → HashMap
clear hm = record hm { size = 0; buckets = clear_loop hm.num_buckets 0 hm.buckets }

unfoldable pub configure : HashMap → ℕ → ℕ → ℕ → ℕ → Status × HashMap
configure hm min_num min_den max_num max_den =
    if min_num == 0 || min_den == 0 || leb min_den min_num
    then (failure einval, hm)
    else if max_num == 0 || max_den == 0 || leb max_den max_num
    then (failure einval, hm)
    else if ltb (max_num * min_den) (min_num * max_den)
    then (failure einval, hm)
    else (
      success,
      record hm {
        load_min_num = min_num;
        load_min_den = min_den;
        load_max_num = max_num;
        load_max_den = max_den;
      },
    )

unfoldable pub reset : HashMap → HashMap
reset hm = record hm { num_buckets = 0; buckets = [] }

-- the last part of `vsc_hashmap_insert`
unfoldable pub store : HashMap → Bucket → Status × HashMap
store hm bkt = elim (add_or_replace_bucket hm hm.buckets hm.num_buckets bkt) [
  | none ↦ (failure enospc, hm)
  | some (added, bs) ↦
      (success, record hm { buckets = bs; size = if added then add_size hm.size 1 else hm.size })
]

-- `EPERM` says that a resize is required and not allowed, which is no error.
unfoldable pub insert : Grants → HashMap → ℕ → ℕ → Status × HashMap
insert g hm key value =
    let bkt : Bucket = record { hash = hash hm key; key = key; value = value } in
    if is_empty bkt
    then (failure erange, hm)
    else let (r, hm') = maybe_resize g hm in
      elim r [
        | success ↦ store hm' bkt
        | failure eperm ↦ store hm' bkt
        | failure e ↦ (failure e, hm')
      ]

-- the value, or 0 for NULL
unfoldable pub find : HashMap → ℕ → ℕ
find hm key = elim (find_bucket hm key) [
  | none ↦ 0
  | some index ↦ Bucket.value (slot hm.buckets index)
]

-- Returns 1 and changes nothing if there is no such key.
unfoldable pub update : HashMap → ℕ → ℕ → ℕ × HashMap
update hm key value = elim (find_bucket hm key) [
  | none ↦ (1, hm)
  | some index ↦
      let b = slot hm.buckets index in
      (0, record hm { buckets = set hm.buckets index (record b { value = value }) })
]

unfoldable pub remove : HashMap → ℕ → ℕ × HashMap
remove hm key = elim (find_bucket hm key) [
  | none ↦ (0, hm)
  | some index ↦
      let b = slot hm.buckets index in
      (
        b.value,
        record hm {
          buckets = fill_gap hm index (set hm.buckets index reset_bucket);
          size = sub_size hm.size 1;
        },
      )
]

unfoldable pub set_resize_policy : HashMap → ResizePolicy → ResizePolicy × HashMap
set_resize_policy hm policy = (hm.resize_policy, record hm { resize_policy = policy })

-- a pointer to the first bucket, here the buckets from there on
unfoldable pub first : HashMap → Option (List Bucket)
first hm = if hm.size == 0 then none else some hm.buckets

-- `proc` gets the key, the value, the hash and what stands behind `user`; a result other than 0
-- ends the loop.
unfoldable pub enumerate_loop : {S : Type 0} → (ℕ → ℕ → ℕ → S → ℕ × S) → List Bucket → S → ℕ × S
enumerate_loop proc [] user = (0, user)
enumerate_loop proc (b ∷ bs) user =
    let (r, user') = proc b.key b.value b.hash user in
    let skip = enumerate_loop proc bs user in
    let continue = enumerate_loop proc bs user' in
    if is_empty b then skip else if r == 0 then continue else (r, user')

unfoldable pub enumerate : {S : Type 0} → HashMap → (ℕ → ℕ → ℕ → S → ℕ × S) → S → ℕ × S
enumerate hm proc user = enumerate_loop proc (take hm.num_buckets hm.buckets) user
