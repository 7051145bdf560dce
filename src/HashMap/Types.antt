-- ===== src/HashMap/Types.antt =====
-- The data of vsclib/hashmap.c and vsclib/include/vsclib/hashmapdef.h. Keys and values are
-- pointers: an address, with 0 for NULL. The hash and compare procedures are the caller's, and
-- `compare_proc` returns the bit pattern of its `int`.
use vsclib.Prelude.Words.{size_max}
use vsclib.Prelude.{ℕ, List, [], get_or, Bool, not, ◌==◌, if◌then◌else◌, Option, none, some}

-- `VSC_INVALID_HASH`, the hash of a bucket that is empty
abbrev pub invalid_hash : ℕ
invalid_hash = size_max

pub record Bucket : Type 0 where
  pub hash : ℕ
  pub key : ℕ
  pub value : ℕ

pub data ResizePolicy : Type 0 where
  resize_load_factor resize_none : ResizePolicy

-- `buckets` is the allocation, `[]` for NULL; after a failed resize it may be longer than
-- `num_buckets`. A load factor is a fraction of two `uint16_t`.
pub record HashMap : Type 0 where
  pub size : ℕ
  pub num_buckets : ℕ
  pub buckets : List Bucket
  pub resize_policy : ResizePolicy
  pub load_min_num : ℕ
  pub load_min_den : ℕ
  pub load_max_num : ℕ
  pub load_max_den : ℕ
  pub hash_proc : ℕ → ℕ
  pub compare_proc : ℕ → ℕ → ℕ

-- what `reset_bucket` writes
abbrev pub reset_bucket : Bucket
reset_bucket = record { hash = invalid_hash; key = 0; value = 0 }

-- `buckets + i`, read
abbrev pub slot : List Bucket → ℕ → Bucket
slot bs i = get_or bs i reset_bucket

unfoldable pub is_empty : Bucket → Bool
is_empty b = b.hash == invalid_hash

abbrev pub hash : HashMap → ℕ → ℕ
hash hm key = hm.hash_proc key

-- the `int` that a compare procedure returns, read as a truth value
unfoldable pub says_equal : (ℕ → ℕ → ℕ) → ℕ → ℕ → Bool
says_equal proc a b = not (proc a b == 0)

abbrev pub compare : HashMap → ℕ → ℕ → Bool
compare hm a b = says_equal hm.compare_proc a b

-- what `vsc_hashmap_alloca` writes into the allocation
unfoldable pub initial : (ℕ → ℕ) → (ℕ → ℕ → ℕ) → HashMap
initial hash_proc compare_proc = record {
  size = 0;
  num_buckets = 0;
  buckets = [];
  resize_policy = resize_load_factor;
  load_min_num = 1;
  load_min_den = 2;
  load_max_num = 3;
  load_max_den = 4;
  hash_proc = hash_proc;
  compare_proc = compare_proc;
}

-- `none` is NULL, when the allocation was not granted
unfoldable pub alloca : Bool → (ℕ → ℕ) → (ℕ → ℕ → ℕ) → Option HashMap
unfolding initial
alloca granted hash_proc compare_proc =
    if granted then some (initial hash_proc compare_proc) else none
