-- ===== src/HashMap/Tests.antt =====
-- The map at small inputs: keys are hashed by their remainder and compared by their address.
use mathlib.Core.List.{Memᴰ}
use vsclib.HashMap.Api.{
  find, update, remove, insert, store, clear, clear_loop, configure, enumerate, enumerate_loop,
  reset, validate,
}
use vsclib.HashMap.Defaults.{string_compare}
use vsclib.HashMap.Enumerating.{calls, enumerate-calls}
use vsclib.HashMap.Faults.{all_granted, resize_loses, remove_loses}
use vsclib.HashMap.Finding.{Holds, Lacks, find_entry}
use vsclib.HashMap.Growing.{MadeRoom, maybe_resize-MadeRoom}
use vsclib.HashMap.Inserting.{Inserted, Inserted-IsValid, insert-Inserted}
use vsclib.HashMap.Lifecycle.{initial-IsValid, emptied-IsValid, configure-Configured}
use vsclib.HashMap.Placed.{KeyLaws}
use vsclib.HashMap.Probe.{
  add_loop, add_or_replace_bucket, find_loop, find_bucket, by_hash_loop, find_by_hash, fill_loop,
  fill_gap,
}
use vsclib.HashMap.Removed.{Removed, remove-Removed}
use vsclib.HashMap.Removing.{IsUnwrapped}
use vsclib.HashMap.Resizing.{
  resized, move, redistribute, resize, intceil, min_required, threshold, maybe_resize,
}
use vsclib.HashMap.Strings.{find-same_address}
use vsclib.HashMap.Types.{HashMap, Bucket, initial, slot, is_empty, says_equal, compare}
use vsclib.HashMap.Updating.{Updated, update-Updated}
use vsclib.HashMap.Valid.{IsOrdered, IsValid, Grows, resize-Grows}
use vsclib.Prelude.Errno.{success, failure, einval}
use vsclib.Prelude.{
  ℕ, ◌%◌, ◌≤◌, ◌≡◌, ◌⊎◌, refl, sym, ap, ◌∙◌, subst, arith, ◌==◌, if◌then◌else◌, true, Option, none,
  some, ℕ_discrete, ◌+◌, ◌↔◌, List, [], ◌∷◌, length, inl,
}

program : Unit {0}
unfolding find update remove insert store clear clear_loop configure enumerate enumerate_loop reset
    validate add_loop add_or_replace_bucket find_loop find_bucket by_hash_loop find_by_hash
    fill_loop fill_gap resized move redistribute resize intceil min_required threshold maybe_resize
    initial is_empty says_equal
program = tt

abbrev hash_key : ℕ → ℕ
hash_key k = k % 1000

abbrev same_key : ℕ → ℕ → ℕ
same_key a b = if a == b then 1 else 0

laws : KeyLaws hash_key same_key
unfolding says_equal
laws = record {
  equal_refl = ground arith;
  equal_symm = ground arith;
  equal_trans = ground arith;
  hash_congr = ground arith;
  hash_valid = ground arith;
}

abbrev empty : HashMap
empty = initial hash_key same_key

new-IsValid : IsValid empty
new-IsValid = (initial-IsValid hash_key same_key laws).0

insert-Inserted_example : Inserted empty 15 150 (insert all_granted empty 15 150)
unfolding initial
insert-Inserted_example = insert-Inserted all_granted 15 150 new-IsValid (omega arith)

-- key 15 in the last of 16 buckets
abbrev one : HashMap
one = (insert all_granted empty 15 150).1

one-IsValid : IsValid one
one-IsValid = Inserted-IsValid insert-Inserted_example

find-one : find one 15 ≡ 150
unfolding program
find-one = refl

-- and key 16 at home in bucket 0
abbrev two : HashMap
two = (insert all_granted one 16 160).1

two-IsValid : IsValid two
unfolding program
two-IsValid = Inserted-IsValid (insert-Inserted all_granted 16 160 one-IsValid (omega arith))

removed : find (remove two 15).1 16 ≡ 0
unfolding program
removed = refl

resize-Grows_example : Grows one (resize all_granted one 40).1
unfolding program
resize-Grows_example = resize-Grows all_granted 40 one-IsValid (omega arith)

resize_loses_example :
    ((resize all_granted one 8).0 ≡ success)
    × (HashMap.size (resize all_granted one 8).1 ≡ one.size)
    × (find (resize all_granted one 8).1 (Bucket.key (slot one.buckets 15)) ≡ 0)
unfolding program
resize_loses_example =
    resize_loses one-IsValid 8 15 (omega arith) refl (omega arith) (omega arith) (omega arith)

remove_loses_example :
    find (remove two (Bucket.key (slot two.buckets 15))).1 (Bucket.key (slot two.buckets 0)) ≡ 0
unfolding program
remove_loses_example = remove_loses two-IsValid 15 refl (omega arith) refl refl refl refl

maybe_resize-MadeRoom_example : MadeRoom empty (maybe_resize all_granted empty)
unfolding initial
maybe_resize-MadeRoom_example = maybe_resize-MadeRoom all_granted new-IsValid (omega arith)

update-Updated_example : Updated one 15 7 (update one 15 7)
update-Updated_example = update-Updated one-IsValid 15 7

emptied-IsValid_example :
    (IsValid empty × ((key : ℕ) → find empty key ≡ 0))
    × (IsValid (clear one)
        × (HashMap.size (clear one) ≡ 0)
        × (HashMap.num_buckets (clear one) ≡ one.num_buckets)
        × ((key : ℕ) → find (clear one) key ≡ 0))
emptied-IsValid_example = emptied-IsValid hash_key same_key laws one-IsValid

configure-Configured_example :
    (let r = configure one 1 3 2 3 in
      ((r.0 ≡ success)
        × IsOrdered 1 3 2 3
        × IsValid r.1
        × ((key : ℕ) → find r.1 key ≡ find one key))
      ⊎ ((r ≡ (failure einval, one)) × ¬ IsOrdered 1 3 2 3))
configure-Configured_example = configure-Configured 1 3 2 3 one-IsValid

find_entry_example :
    ((b : Bucket) × Holds one b × (compare one 15 b.key ≡ true) × (find one 15 ≡ b.value))
    ⊎ (Lacks one 15 × (find one 15 ≡ 0))
find_entry_example = find_entry 15 one-IsValid.probed

-- keys 32 and 17 behind key 16, one bucket behind their homes
abbrev four : HashMap
four = (insert all_granted (insert all_granted two 32 320).1 17 170).1

four-IsValid : IsValid four
unfolding program
four-IsValid = Inserted-IsValid (
    insert-Inserted all_granted 17 170
      (Inserted-IsValid (insert-Inserted all_granted 32 320 two-IsValid (omega arith)))
      (omega arith))

moved_back :
    (find (remove four 16).1 32 ≡ 320)
    × (find (remove four 16).1 17 ≡ 170)
    × (find (remove four 16).1 16 ≡ 0)
unfolding program
moved_back = (refl, refl, refl)

four-IsUnwrapped : IsUnwrapped four 0
unfolding program
four-IsUnwrapped = record {
  end = 3;
  behind = omega arith;
  within = omega arith;
  empty = refl;
  homes = λ j low high t. elim (ℕ_discrete j 1) [
    | yes e ↦
        subst (λ k. Bucket.hash (slot four.buckets k) % 16 ≤ k) (sym e)
          (let home : 0 ≤ 1 = omega arith in home)
    | no other ↦
        subst (λ k. Bucket.hash (slot four.buckets k) % 16 ≤ k) (let e : 2 ≡ j = omega arith in e)
          (let home : 1 ≤ 2 = omega arith in home)
  ];
}

abbrev value_or_0 : Option ℕ → ℕ
value_or_0 none = 0
value_or_0 (some k) = k

found_first : find_bucket four 16 ≡ some 0
unfolding program
found_first = refl

remove-Removed_example : Removed four 16 (remove four 16)
unfolding program
remove-Removed_example =
    remove-Removed four-IsValid 16 (omega arith)
      (λ index e. subst (IsUnwrapped four) (ap value_or_0 (sym found_first ∙ e)) four-IsUnwrapped)

-- the sum of the values
abbrev add_value : ℕ → ℕ → ℕ → ℕ → ℕ × ℕ
add_value key value h sum = (0, sum + value)

enumerate-calls_example :
    (bs : List Bucket) × (enumerate four add_value 0 ≡ calls add_value bs 0)
    × (length bs ≡ four.size)
    × ((b : Bucket) → Memᴰ b bs ↔ Holds four b)
enumerate-calls_example = enumerate-calls add_value 0 four-IsValid

-- Every address has a text of its own.
abbrev text : ℕ → List ℕ
text a = a ∷ []

abbrev strings : HashMap
strings = initial hash_key (string_compare text)

lost : find (insert all_granted strings 5 50).1 5 ≡ 0
unfolding program string_compare
lost = refl

abbrev one_string : HashMap
one_string = record strings {
  size = 1;
  num_buckets = 1;
  buckets = record { hash = 5; key = 5; value = 50 } ∷ [];
}

find-same_address_example : find one_string 5 ≡ 0
unfolding initial
find-same_address_example = find-same_address text one_string 5 refl (λ j lt t. inl (
    subst (λ i. Bucket.key (slot one_string.buckets i) ≡ 5) (let e : 0 ≡ j = omega arith in e)
      refl))
