-- ===== src/HashMap/Resizing.antt =====
-- `vsc_hashmap_resize` and `maybe_resize` of vsclib/hashmap.c. The assertions are compiled out, as
-- in a release build. What the allocator grants is an argument.
use vsclib.Prelude.Errno.{Status, success, failure, erange, einval, enomem, eperm}
use vsclib.Prelude.Words.{size_max, add_size, mul_size}
use vsclib.Prelude.{
  ℕ, ◌+◌, ◌-◌, ◌/◌, ◌%◌, max, min, List, [], ◌∷◌, ◌++◌, take, replicate, Bool, not, ◌||◌, ◌==◌, ltb,
  leb, if◌then◌else◌, none, some,
}
use vsclib.HashMap.Probe.{add_or_replace_bucket}
use vsclib.HashMap.Types.{HashMap, Bucket, resize_none, resize_load_factor, reset_bucket, is_empty}

-- `sizeof(VscHashMapBucket)`
abbrev pub bucket_size : ℕ
bucket_size = 24

-- whether `vsc_xrealloc` of the buckets and `vsc_xcalloc` of the temporary list succeed
pub record Grants : Type 0 where
  pub buckets : Bool
  pub temp : Bool

-- The reallocation keeps what fits, and the loop after it resets the rest.
unfoldable pub resized : HashMap → ℕ → List Bucket
resized hm nelem =
    take (min hm.num_buckets nelem) hm.buckets ++ replicate (nelem - hm.num_buckets) reset_bucket

-- one round of the loop that redistributes
unfoldable pub move : HashMap → ℕ → Bucket → List Bucket → List Bucket
move hm nelem b tmp =
    if is_empty b
    then tmp
    else elim (add_or_replace_bucket hm tmp nelem b) [ none ↦ tmp | some (added, bs) ↦ bs ]

unfoldable pub redistribute : HashMap → ℕ → List Bucket → List Bucket → List Bucket
redistribute hm nelem [] tmp = tmp
redistribute hm nelem (b ∷ bs) tmp = redistribute hm nelem bs (move hm nelem b tmp)

unfoldable pub resize : Grants → HashMap → ℕ → Status × HashMap
resize g hm nelem =
    if nelem == 0 || ltb nelem hm.size
    then (failure einval, hm)
    else if nelem == hm.size
    then (success, hm)
    else if leb (size_max / bucket_size) nelem
    then (failure erange, hm)
    else if not g.buckets
    then (failure enomem, hm)
    else let bkts = resized hm nelem in
      if hm.size == 0
      then (success, record hm { buckets = bkts; num_buckets = nelem })
      else if not g.temp
      then (failure enomem, record hm { buckets = bkts })
      else let grown = record hm { buckets = bkts; num_buckets = nelem } in
        (
          success,
          record grown { buckets = redistribute grown nelem bkts (replicate nelem reset_bucket) },
        )

unfoldable pub intceil : ℕ → ℕ → ℕ
intceil num den = num / den + (if num % den == 0 then 0 else 1)

-- `VSC_HASHMAP_MIN_BUCKET_AUTO_ALLOCATION`
abbrev pub min_bucket_auto_allocation : ℕ
min_bucket_auto_allocation = 16

-- "the minimum number of buckets required to match the target load factor"
unfoldable pub min_required : HashMap → ℕ
min_required hm =
    max (intceil (mul_size (add_size hm.size 1) hm.load_min_den) hm.load_min_num)
      min_bucket_auto_allocation

unfoldable pub threshold : HashMap → ℕ
threshold hm = intceil (mul_size hm.num_buckets hm.load_max_num) hm.load_max_den

unfoldable pub maybe_resize : Grants → HashMap → Status × HashMap
maybe_resize g hm =
    if leb (intceil size_max hm.load_max_num) hm.num_buckets
    then (failure erange, hm)
    else if ltb hm.size (threshold hm)
    then (success, hm)
    else elim hm.resize_policy [
      | resize_none ↦ (failure eperm, hm)
      | resize_load_factor ↦
          if leb (intceil size_max hm.load_max_den) (add_size hm.size 1)
          then (failure erange, hm)
          else resize g hm (min_required hm)
    ]
