-- ===== src/HashMap/Defaults.antt =====
-- The procedures of vsclib/hashmap.c that a map uses for pointers and for strings, and vsclib/hash.c. The
-- hash function of xxHash is a parameter, and `text` is the string at an address.
use vsclib.HashMap.Types.{invalid_hash}
use vsclib.Prelude.{ℕ, List, [], length, take, not, ◌||◌, ◌==◌, if◌then◌else◌, Option, none, some}
use vsclib.EnumGroups.Loop.{same}

-- NULL, or the bytes
unfoldable pub hash_data : (List ℕ → ℕ) → Option (List ℕ) → ℕ → ℕ
hash_data xxh none size = if not (size == 0) then invalid_hash else xxh []
hash_data xxh (some bytes) size = xxh (take size bytes)

unfoldable pub hash_string : (List ℕ → ℕ) → Option (List ℕ) → ℕ
unfolding hash_data
hash_string xxh none = invalid_hash
hash_string xxh (some s) = hash_data xxh (some s) (length s)

unfoldable pub default_hash : ℕ → ℕ
default_hash k = k

unfoldable pub default_compare : ℕ → ℕ → ℕ
default_compare a b = if a == b then 1 else 0

-- the string at an address, or NULL
unfoldable pub string_at : (ℕ → List ℕ) → ℕ → Option (List ℕ)
string_at text s = if s == 0 then none else some (text s)

unfoldable pub string_hash : (List ℕ → ℕ) → (ℕ → List ℕ) → ℕ → ℕ
unfolding hash_string string_at
string_hash xxh text s = hash_string xxh (string_at text s)

unfoldable pub string_compare : (ℕ → List ℕ) → ℕ → ℕ → ℕ
unfolding same
string_compare text a b =
    if a == b then 0 else if a == 0 || b == 0 then 0 else if same (text a) (text b) then 1 else 0
