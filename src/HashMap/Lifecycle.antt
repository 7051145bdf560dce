-- ===== src/HashMap/Lifecycle.antt =====
-- The map's making, configuration and clearing, with the invariant.
use vsclib.HashMap.Api.{find, clear_loop, clear, configure}
use vsclib.HashMap.Count.{count_none, count_of_empty}
use vsclib.HashMap.Finding.{IsProbed, find_lacked, find_agree}
use vsclib.HashMap.Placed.{KeyLaws, Placed}
use vsclib.HashMap.Rehash.{reset_bucket-is_empty}
use vsclib.HashMap.Types.{HashMap, Bucket, initial, reset_bucket, slot, is_empty}
use vsclib.HashMap.Valid.{IsOrdered, IsValid}
use vsclib.Prelude.Errno.{success, failure, einval}
use vsclib.Prelude.{
  ℕ, zero, suc, ◌+◌, ◌*◌, ◌≤◌, ◌<◌, ◌≡◌, ◌⊎◌, refl, ap, ◌∙◌, arith, List, [], set, length,
  length-set, get_or-set_self, get_or-set_ne, true, Bool-cases, inl, inr, ℕ_discrete, ◌==◌, ◌||◌,
  leb, ltb,
}

-- buckets that are all empty are in place
Placed-empty :
    (hash : ℕ → ℕ) (proc : ℕ → ℕ → ℕ) (n : ℕ) (bs : List Bucket)
    → n ≤ length bs
    → ((j : ℕ) → j < n → is_empty (slot bs j) ≡ true)
    → Placed hash proc n bs
Placed-empty hash proc n bs wide empty = record {
  width = wide;
  hashed = λ j lt t. cc (t, empty j lt);
  reached = λ j lt t. cc (t, empty j lt);
  unique = λ i j li lj ti tj e. cc (ti, empty i li);
}

-- A new map is valid, and every lookup in it gives NULL.
pub initial-IsValid :
    (hash : ℕ → ℕ) (proc : ℕ → ℕ → ℕ)
    → KeyLaws hash proc
    → IsValid (initial hash proc) × ((key : ℕ) → find (initial hash proc) key ≡ 0)
unfolding initial
initial-IsValid hash proc laws =
    let p : IsProbed (initial hash proc) = record {
      laws = laws;
      placed = Placed-empty hash proc 0 [] (omega arith) (λ j lt. absurd (omega arith));
    } in
    (
      record { probed = p; counted = count_none []; configured = omega arith },
      λ key. find_lacked p key (λ j lt t. absurd (omega arith)),
    )

clear_loop_below :
    (rounds i j : ℕ) (bs : List Bucket) → j < i → slot (clear_loop rounds i bs) j ≡ slot bs j
unfolding clear_loop
clear_loop_below zero i j bs lt = refl
clear_loop_below (suc rounds) i j bs lt =
    clear_loop_below rounds (i + 1) j _ (omega arith)
    ∙ get_or-set_ne bs i j reset_bucket reset_bucket (omega arith)

clear_loop_within :
    (rounds i j : ℕ) (bs : List Bucket)
    → i ≤ j
    → j < i + rounds
    → j < length bs
    → slot (clear_loop rounds i bs) j ≡ reset_bucket
unfolding clear_loop
clear_loop_within zero i j bs le lt inside = absurd (omega arith)
clear_loop_within (suc rounds) i j bs le lt inside = elim (ℕ_discrete i j) [
  | yes e ↦
      clear_loop_below rounds (i + 1) j _ (omega arith)
      ∙ ap (λ k. slot (set bs k reset_bucket) j) e
      ∙ get_or-set_self bs j reset_bucket reset_bucket inside
  | no ne ↦ clear_loop_within rounds (i + 1) j _ (omega arith) (omega arith) (rw length-set inside)
]

length-clear_loop : (rounds i : ℕ) (bs : List Bucket) → length (clear_loop rounds i bs) ≡ length bs
unfolding clear_loop
length-clear_loop zero i bs = refl
length-clear_loop (suc rounds) i bs =
    length-clear_loop rounds (i + 1) _ ∙ length-set bs i reset_bucket

-- `vsc_hashmap_clear` keeps the buckets and leaves a valid map of size 0 in which every lookup gives
-- NULL.
clear-IsValid :
    {hm : HashMap}
    → IsValid hm
    → IsValid (clear hm)
      × (HashMap.size (clear hm) ≡ 0)
      × (HashMap.num_buckets (clear hm) ≡ hm.num_buckets)
      × ((key : ℕ) → find (clear hm) key ≡ 0)
unfolding clear
clear-IsValid {hm} v =
    let n = hm.num_buckets in
    let bs = clear_loop n 0 hm.buckets in
    let wide = Placed.width v.probed.placed in
    let empty = λ (j : ℕ) (lt : j < n).
      ap is_empty (clear_loop_within n 0 j hm.buckets (omega arith) (omega arith) (omega arith))
      ∙ reset_bucket-is_empty in
    let placed =
      Placed-empty hm.hash_proc hm.compare_proc n bs
        (omega (arith, length-clear_loop n 0 hm.buckets)) empty in
    let p : IsProbed (record hm { size = 0; buckets = bs }) = record {
      laws = v.probed.laws;
      placed = placed;
    } in
    (
      record { probed = p; counted = count_of_empty n bs empty; configured = v.configured },
      refl,
      refl,
      λ key. find_lacked p key (λ j lt t. cc (t, empty j lt)),
    )

-- `vsc_hashmap_configure` succeeds on two proper fractions of which the first is no greater, and
-- on any others returns `EINVAL` and changes nothing.
configure_cases :
    (hm : HashMap) (min_num min_den max_num max_den : ℕ)
    → let r = configure hm min_num min_den max_num max_den in
      ((r.0 ≡ success) × IsOrdered min_num min_den max_num max_den)
      ⊎ ((r ≡ (failure einval, hm)) × ¬ IsOrdered min_num min_den max_num max_den)
unfolding configure
configure_cases hm a b c d = elim (Bool-cases (a == 0 || b == 0 || leb b a)) [
  | inl e ↦ inr (rw e, λ o. ground arith)
  | inr e ↦ elim (Bool-cases (c == 0 || d == 0 || leb d c)) [
    | inl f ↦ inr (rw (e, f), λ o. ground arith)
    | inr f ↦ elim (Bool-cases (ltb (c * b) (a * d))) [
      | inl g ↦ inr (rw (e, f, g), λ o. ground arith)
      | inr g ↦ inl (rw (e, f, g), ground arith)
    ]
  ]
]

-- `vsc_hashmap_configure` keeps a map valid, whatever it returns.
configure-IsValid :
    {hm : HashMap} (min_num min_den max_num max_den : ℕ)
    → IsValid hm
    → IsValid (configure hm min_num min_den max_num max_den).1
unfolding configure
configure-IsValid {hm} a b c d v = elim (Bool-cases (a == 0 || b == 0 || leb b a)) [
  | inl e ↦ rw e v
  | inr e ↦ elim (Bool-cases (c == 0 || d == 0 || leb d c)) [
    | inl f ↦ rw (e, f) v
    | inr f ↦ elim (Bool-cases (ltb (c * b) (a * d))) [
      | inl g ↦ rw (e, f, g) v
      | inr g ↦
          rw (e, f, g)
            (record {
              probed = record { laws = v.probed.laws; placed = v.probed.placed };
              counted = v.counted;
              configured = ground arith;
            })
    ]
  ]
]

configure-find :
    {hm : HashMap} (min_num min_den max_num max_den key : ℕ)
    → IsValid hm
    → find (configure hm min_num min_den max_num max_den).1 key ≡ find hm key
unfolding configure
configure-find {hm} a b c d key v = elim (Bool-cases (a == 0 || b == 0 || leb b a)) [
  | inl e ↦ rw e refl
  | inr e ↦ elim (Bool-cases (c == 0 || d == 0 || leb d c)) [
    | inl f ↦ rw (e, f) refl
    | inr f ↦ elim (Bool-cases (ltb (c * b) (a * d))) [
      | inl g ↦ rw (e, f, g) refl
      | inr g ↦
          rw (e, f, g)
            (find_agree v.probed (record { laws = v.probed.laws; placed = v.probed.placed }) key
              (λ x y. refl) (λ x s m. s) (λ x s m. s))
    ]
  ]
]

-- vsc_hashmap_configure of a valid map succeeds on two proper fractions of which the first is no
-- greater, and leaves a valid map that finds what it found; on any others it returns EINVAL and changes
-- nothing.
pub configure-Configured :
    {hm : HashMap} (min_num min_den max_num max_den : ℕ)
    → IsValid hm
    → let r = configure hm min_num min_den max_num max_den in
      ((r.0 ≡ success)
        × IsOrdered min_num min_den max_num max_den
        × IsValid r.1
        × ((key : ℕ) → find r.1 key ≡ find hm key))
      ⊎ ((r ≡ (failure einval, hm)) × ¬ IsOrdered min_num min_den max_num max_den)
configure-Configured {hm} a b c d v =
    let valid = configure-IsValid a b c d v in
    elim (configure_cases hm a b c d) [
      | inr refused ↦ inr refused
      | inl (done, ordered) ↦ inl (done, ordered, valid, λ key. configure-find a b c d key v)
    ]

-- A new map over procedures that meet the key laws is valid, and so is one that vsc_hashmap_clear has
-- emptied, of size 0 with its buckets kept; every lookup in either gives NULL.
pub emptied-IsValid :
    (hash : ℕ → ℕ) (proc : ℕ → ℕ → ℕ)
    → KeyLaws hash proc
    → {hm : HashMap} → IsValid hm
    → (IsValid (initial hash proc) × ((key : ℕ) → find (initial hash proc) key ≡ 0))
      × (IsValid (clear hm)
          × (HashMap.size (clear hm) ≡ 0)
          × (HashMap.num_buckets (clear hm) ≡ hm.num_buckets)
          × ((key : ℕ) → find (clear hm) key ≡ 0))
emptied-IsValid hash proc laws v = (initial-IsValid hash proc laws, clear-IsValid v)
