-- ===== src/HashMap/Inserting.antt =====
-- `vsc_hashmap_insert`: what a map finds afterwards.
use native.Mathlib.Nat.{mod-eq_of_lt}
use vsclib.HashMap.Adding.{AddResult, wrote, no_room, Replaced}
use vsclib.HashMap.Api.{find, insert, store}
use vsclib.HashMap.Finding.{IsProbed, Holds, Lacks, find_held, find_agree}
use vsclib.HashMap.Growing.{MadeRoom, made, not_made, maybe_resize-MadeRoom, mul_mono}
use vsclib.HashMap.Moving.{add-AddResult}
use vsclib.HashMap.Placed.{KeyLaws, Taken-at}
use vsclib.HashMap.Resizing.{Grants, maybe_resize}
use vsclib.HashMap.Types.{HashMap, Bucket, invalid_hash, is_empty, says_equal, hash, compare}
use vsclib.HashMap.Valid.{IsValid, Grows, Grows-refl, Grows-find}
use vsclib.Prelude.Errno.{Errno, Status, success, failure, eperm, enospc}
use vsclib.Prelude.Words.{add_size, size_mod}
use vsclib.Prelude.{
  ℕ, ◌+◌, ◌*◌, ◌<◌, ◌≡◌, ◌≢◌, refl, sym, ap, ◌∙◌, arith, List, Bool, true, false, if◌then◌else◌,
  Bool-cases, inl, inr, ◌⊎◌, Option, none, some,
}

-- `hm'` is `hm` with `value` under `key`
pub record Puts (hm : HashMap) (key value : ℕ) (hm' : HashMap) : Type 0 where
  pub valid : IsValid hm'
  pub finds : (q : ℕ) → find hm' q ≡ (if compare hm q key then value else find hm q)
  pub sizes :
      ((b : Bucket) × Holds hm b × (compare hm key b.key ≡ true) × (hm'.size ≡ hm.size))
      ⊎ (Lacks hm key × (hm'.size ≡ hm.size + 1))

-- What an insertion returns: the map with the entry, or an error and the entries as they were;
-- `ENOSPC` means that every bucket is taken by another key.
pub data Inserted (hm : HashMap) (key value : ℕ) : Status × HashMap → Type 0 where
  put : (hm' : HashMap) → Puts hm key value hm' → Inserted hm key value (success, hm')
  no_space :
      (hm' : HashMap)
      → Grows hm hm'
      → hm'.size ≡ hm'.num_buckets
      → Lacks hm key
      → Inserted hm key value (failure enospc, hm')
  refused :
      (e : Errno) (hm' : HashMap)
      → Grows hm hm'
      → e ≢ enospc
      → Inserted hm key value (failure e, hm')

-- a key that equals one end of an unequal pair differs from the other
pub equal_ends :
    {hash_proc : ℕ → ℕ} {proc : ℕ → ℕ → ℕ}
    → KeyLaws hash_proc proc
    → (q a c : ℕ) → says_equal proc q c ≡ true
    → says_equal proc q a ≡ false
    → says_equal proc a c ≡ false
equal_ends {proc = proc} laws q a c same differs = elim (Bool-cases (says_equal proc a c)) [
  | inr e ↦ e
  | inl e ↦ cc (laws.equal_trans q c a same (laws.equal_symm c a ∙ e), differs)
]

module _ {hm : HashMap} (v : IsValid hm) (b : Bucket) (taken_b : is_empty b ≡ false) where
  pub stored_as :
      (grown : Bool) (bs : List Bucket)
      → Replaced hm.hash_proc hm.compare_proc hm.num_buckets hm.buckets b grown bs
      → (grown ≡ true → hm.size + 1 < size_mod)
      → Puts hm b.key b.value
          (record hm { buckets = bs; size = if grown then add_size hm.size 1 else hm.size })
  stored_as grown bs r fits =
      let size' = if grown then add_size hm.size 1 else hm.size in
      let p' : IsProbed (record hm { buckets = bs; size = size' }) = record {
        laws = v.probed.laws;
        placed = r.placed;
      } in
      record {
        valid = record {
          probed = p';
          counted = elim (Bool-cases grown) [
            | inl more ↦ ground (arith, r.counted, v.counted, mod-eq_of_lt (fits more))
            | inr none_more ↦ ground (arith, r.counted, v.counted)
          ];
          configured = v.configured;
        };
        finds = λ q. elim (Bool-cases (compare hm q b.key)) [
          | inl same ↦ rw same (find_held p' q r.stores same)
          | inr differs ↦ rw differs (
              find_agree v.probed p' q (λ x y. refl)
                (λ c s e. r.keeps c s (equal_ends v.probed.laws q b.key c.key e differs))
                (λ c s e. elim (r.only c s) [
                  | inl same ↦ cc (e, same, differs)
                  | inr (old, _) ↦ old
                ]))
        ];
        sizes = elim (Bool-cases grown) [
          | inl more ↦ inr (r.was_absent more, rw more (mod-eq_of_lt (fits more)))
          | inr none_more ↦ let (c, s, e) = r.was_there none_more in inl (c, s, e, rw none_more)
        ];
      }

  -- the last part of `vsc_hashmap_insert`
  store-AddResult :
      hm.size + 1 < size_mod
      → {o : Option (Bool × List Bucket)}
      → AddResult hm.hash_proc hm.compare_proc hm.num_buckets hm.buckets b o
      → Inserted hm b.key b.value (elim o [
        | none ↦ (failure enospc, hm)
        | some (added, bs) ↦ (
          success,
          record hm { buckets = bs; size = if added then add_size hm.size 1 else hm.size },
        )
      ])
  store-AddResult fits (wrote grown bs r) = put _ (stored_as grown bs r (λ _. fits))
  store-AddResult fits (no_room full absent) =
      no_space hm (Grows-refl v) (sym v.counted ∙ full) absent

  store-Inserted :
      hm.size + 1 < size_mod → b.hash ≡ hm.hash_proc b.key → Inserted hm b.key b.value (store hm b)
  unfolding store
  store-Inserted fits of_key =
      store-AddResult fits
        (add-AddResult hm hm.buckets b v.probed.laws v.probed.placed of_key taken_b)

is_empty_valid :
    (h key value : ℕ)
    → h ≢ invalid_hash
    → is_empty (record { hash = h; key = key; value = value }) ≡ false
unfolding is_empty
is_empty_valid h key value ne = ground arith

-- an insertion after a resize
module _ {hm hm1 : HashMap} (p : IsProbed hm) (g : Grows hm hm1) (key value : ℕ) where
  same_answer : (a b : ℕ) → compare hm1 a b ≡ compare hm a b
  same_answer a b = ap (λ proc. says_equal proc a b) g.same_compare

  Lacks-before : Lacks hm1 key → Lacks hm key
  Lacks-before lacks j lt t =
      let s = g.keeps _ (record { index = j; within = lt; reads = refl; taken = t }) in
      sym (same_answer key _)
      ∙ sym (ap (λ (b : Bucket). compare hm1 key b.key) s.reads)
      ∙ lacks s.index s.within (Taken-at s)

  Grows-trans : {hm2 : HashMap} → Grows hm1 hm2 → Grows hm hm2
  Grows-trans h = record {
    valid = h.valid;
    same_size = h.same_size ∙ g.same_size;
    wider = let a = g.wider in let b = h.wider in omega arith;
    same_hash = h.same_hash ∙ g.same_hash;
    same_compare = h.same_compare ∙ g.same_compare;
    keeps = λ b s. h.keeps b (g.keeps b s);
    only = λ b s. g.only b (h.only b s);
  }

  Puts-after : {hm2 : HashMap} → Puts hm1 key value hm2 → Puts hm key value hm2
  Puts-after u = record {
    valid = u.valid;
    finds = λ q. rw (u.finds q, same_answer q key, Grows-find q p g);
    sizes = elim u.sizes [
      | inl (b, s, e, same) ↦
          inl (b, g.only b s, sym (same_answer key b.key) ∙ e, same ∙ g.same_size)
      | inr (lacks, more) ↦ inr (Lacks-before lacks, more ∙ ap (λ n. n + 1) g.same_size)
    ];
  }

  Inserted-after : {r : Status × HashMap} → Inserted hm1 key value r → Inserted hm key value r
  Inserted-after (put hm2 u) = put hm2 (Puts-after u)
  Inserted-after (no_space hm2 h full lacks) =
      no_space hm2 (Grows-trans h) full (Lacks-before lacks)
  Inserted-after (refused e hm2 h ne) = refused e hm2 (Grows-trans h) ne

-- `vsc_hashmap_insert` either puts the value under the key, and under no other, and counts a new
-- key, or returns an error and keeps the entries; it reports `ENOSPC` only for a map that other keys
-- fill. The map stays valid, as long as `(size + 1) * load_min.den` does not wrap.
pub insert-Inserted :
    (g : Grants) {hm : HashMap} (key value : ℕ)
    → IsValid hm
    → (hm.size + 1) * hm.load_min_den < size_mod
    → Inserted hm key value (insert g hm key value)
unfolding insert
insert-Inserted g {hm} key value v fits =
    rw (is_empty_valid _ key value (v.probed.laws.hash_valid key))
      (resized_first (maybe_resize g hm) (maybe_resize-MadeRoom g v fits))
  where
    bkt : Bucket
    bkt = record { hash = hash hm key; key = key; value = value }

    taken_b : is_empty bkt ≡ false
    taken_b = is_empty_valid _ key value (v.probed.laws.hash_valid key)

    then_store : {hm1 : HashMap} → Grows hm hm1 → Inserted hm key value (store hm1 bkt)
    then_store {hm1} m =
        let wide =
          mul_mono (hm.size + 1) 1 hm.load_min_den
            (let x = v.configured.min_below in omega arith) in
        Inserted-after v.probed m key value (
          store-Inserted m.valid bkt taken_b (let same = m.same_size in omega arith)
            (ap (λ (h : ℕ → ℕ). h key) (sym m.same_hash)))

    resized_first :
        (r : Status × HashMap)
        → MadeRoom hm r
        → Inserted hm key value (
            let (st, hm') = r in
            elim st [
              | success ↦ store hm' bkt
              | failure eperm ↦ store hm' bkt
              | failure e ↦ (failure e, hm')
            ])
    resized_first _ (made hm1 g room) = then_store g
    resized_first _ (not_made eperm hm1 g ne) = then_store g
    resized_first _ (not_made enospc hm1 g ne) = absurd (ne refl)
    resized_first _ (not_made e hm1 g ne) = refused e hm1 g ne

-- the map that an insertion leaves is valid
pub Inserted-IsValid :
    {hm : HashMap} {key value : ℕ} {r : Status × HashMap} → Inserted hm key value r → IsValid r.1
Inserted-IsValid (put hm' u) = u.valid
Inserted-IsValid (no_space hm' g full lacks) = g.valid
Inserted-IsValid (refused e hm' g ne) = g.valid
