-- ===== src/HashMap/Slots.antt =====
-- The probing loops as instances of one scan.
use vsclib.Prelude.{
  ℕ, zero, suc, ◌+◌, ◌%◌, ◌≡◌, refl, arith, List, set, Bool, true, false, ◌==◌, ◌&&◌, Option, none,
  some, Bool-cases, inl, inr,
}
use vsclib.HashMap.Probe.{add_loop, add_or_replace_bucket, find_loop, find_bucket}
use vsclib.HashMap.Scan.{Outcome, hit, gap, full, scan, path, path_home, scan_no_buckets}
use vsclib.HashMap.Types.{HashMap, Bucket, says_equal, hash}

-- the test of `find_bucket` and of `add_or_replace_bucket`
unfoldable pub matches : (ℕ → ℕ → ℕ) → ℕ → ℕ → Bucket → Bool
matches proc h key b = b.hash == h && says_equal proc key b.key

unfoldable pub found : Outcome → Option ℕ
found (hit i) = some i
found (gap i) = none
found full = none

unfoldable pub added : List Bucket → Bucket → Outcome → Option (Bool × List Bucket)
added bs bkt (hit i) = some (false, set bs i bkt)
added bs bkt (gap i) = some (true, set bs i bkt)
added bs bkt full = none

abbrev pub lookup : HashMap → List Bucket → ℕ → ℕ → Outcome
lookup hm bs h key =
    scan hm.num_buckets bs (matches hm.compare_proc h key) hm.num_buckets (path hm.num_buckets h 0)

find_loop-scan :
    (hm : HashMap) (h key rounds index : ℕ)
    → find_loop hm h key rounds index
      ≡ found (scan hm.num_buckets hm.buckets (matches hm.compare_proc h key) rounds index)
unfolding find_loop scan found matches
find_loop-scan hm h key zero index = refl
find_loop-scan hm h key (suc rounds) index =
    ground (arith, find_loop-scan hm h key rounds ((index + 1) % hm.num_buckets))

add_loop-scan :
    (hm : HashMap) (bs : List Bucket) (bkt : Bucket) (rounds index : ℕ)
    → add_loop hm bs bkt rounds index
      ≡ added bs bkt
          (scan hm.num_buckets bs (matches hm.compare_proc bkt.hash bkt.key) rounds index)
unfolding add_loop scan added matches
add_loop-scan hm bs bkt zero index = refl
add_loop-scan hm bs bkt (suc rounds) index =
    ground (arith, add_loop-scan hm bs bkt rounds ((index + 1) % hm.num_buckets))

pub find_bucket-lookup :
    (hm : HashMap) (key : ℕ) → find_bucket hm key ≡ found (lookup hm hm.buckets (hash hm key) key)
unfolding find_bucket
find_bucket-lookup hm key = elim (Bool-cases (hm.num_buckets == 0)) [
  | inl e ↦ rw (e, scan_no_buckets hm.num_buckets hm.buckets _ _ e) (unfold found in refl)
  | inr e ↦ rw (e, path_home) (find_loop-scan hm (hash hm key) key hm.num_buckets _)
]

-- with as many buckets as `n` says
pub add_or_replace_bucket-lookup :
    (hm : HashMap) (bs : List Bucket) (bkt : Bucket)
    → add_or_replace_bucket hm bs hm.num_buckets bkt ≡ added bs bkt (lookup hm bs bkt.hash bkt.key)
unfolding add_or_replace_bucket
add_or_replace_bucket-lookup hm bs bkt = elim (Bool-cases (hm.num_buckets == 0)) [
  | inl e ↦ rw (e, scan_no_buckets hm.num_buckets bs _ _ e) (unfold added in refl)
  | inr e ↦ rw (e, path_home) (add_loop-scan hm bs bkt hm.num_buckets _)
]
