-- ===== src/HashMap/Probe.antt =====
-- The loops of vsclib/hashmap.c over the buckets. Each counts the rounds that are left, from
-- `num_buckets`, and goes round the buckets by its index.
use vsclib.Prelude.{
  ℕ, zero, suc, ◌+◌, ◌%◌, List, set, Bool, true, false, not, ◌==◌, leb, if◌then◌else◌, Option, none,
  some,
}
use vsclib.HashMap.Types.{HashMap, Bucket, reset_bucket, slot, is_empty, hash, compare}

-- the step of `LOOP_BUCKETS`
abbrev pub next : HashMap → ℕ → ℕ
next hm index = (index + 1) % hm.num_buckets

-- `some (added, buckets)` for a pointer to the bucket that was written, `none` for NULL
unfoldable pub add_loop : HashMap → List Bucket → Bucket → ℕ → ℕ → Option (Bool × List Bucket)
add_loop hm bs bkt zero index = none
add_loop hm bs bkt (suc rounds) index =
    let b = slot bs index in
    let continue = add_loop hm bs bkt rounds (next hm index) in
    if is_empty b
    then some (true, set bs index bkt)
    else if not (b.hash == bkt.hash)
    then continue
    else if compare hm bkt.key b.key
    then some (false, set bs index bkt)
    else continue

unfoldable pub add_or_replace_bucket :
    HashMap → List Bucket → ℕ → Bucket → Option (Bool × List Bucket)
add_or_replace_bucket hm bs n bkt =
    if n == 0 then none else add_loop hm bs bkt hm.num_buckets (bkt.hash % n % hm.num_buckets)

-- the index of the bucket that is found
unfoldable pub find_loop : HashMap → ℕ → ℕ → ℕ → ℕ → Option ℕ
find_loop hm h key zero index = none
find_loop hm h key (suc rounds) index =
    let b = slot hm.buckets index in
    let continue = find_loop hm h key rounds (next hm index) in
    if is_empty b
    then none
    else if not (b.hash == h)
    then continue
    else if not (compare hm key b.key)
    then continue
    else some index

unfoldable pub find_bucket : HashMap → ℕ → Option ℕ
find_bucket hm key =
    let h = hash hm key in
    if hm.num_buckets == 0
    then none
    else find_loop hm h key hm.num_buckets (h % hm.num_buckets % hm.num_buckets)

-- `vsc_hashmap_find_by_hash`: the value, or 0 for NULL
unfoldable pub by_hash_loop : HashMap → ℕ → ℕ → ℕ → ℕ
by_hash_loop hm h zero index = 0
by_hash_loop hm h (suc rounds) index =
    let b = slot hm.buckets index in
    let continue = by_hash_loop hm h rounds (next hm index) in
    if is_empty b then 0 else if b.hash == h then b.value else continue

unfoldable pub find_by_hash : HashMap → ℕ → ℕ
find_by_hash hm h =
    if h == reset_bucket.hash
    then 0
    else if hm.num_buckets == 0
    then 0
    else by_hash_loop hm h hm.num_buckets (h % hm.num_buckets % hm.num_buckets)

-- The loop of `vsc_hashmap_remove` that fills the gap at `index`, looking at `cidx`.
unfoldable pub fill_loop : HashMap → ℕ → ℕ → ℕ → List Bucket → List Bucket
fill_loop hm zero index cidx bs = bs
fill_loop hm (suc rounds) index cidx bs =
    let b = slot bs cidx in
    let moved = fill_loop hm rounds cidx (next hm cidx) (set (set bs index b) cidx reset_bucket) in
    let continue = fill_loop hm rounds index (next hm cidx) bs in
    if is_empty b then bs else if leb (b.hash % hm.num_buckets) index then moved else continue

unfoldable pub fill_gap : HashMap → ℕ → List Bucket → List Bucket
fill_gap hm index bs = fill_loop hm hm.num_buckets index ((index + 1) % hm.num_buckets) bs
