-- ===== src/HashMap/Moving.antt =====
-- The loop of `vsc_hashmap_resize` that redistributes the buckets.
use vsclib.HashMap.Adding.{AddResult, wrote, no_room, added-AddResult}
use vsclib.HashMap.Count.{count, entries}
use vsclib.HashMap.Placed.{KeyLaws, Taken, Stored, Placed, Taken-at}
use vsclib.HashMap.Probe.{add_or_replace_bucket}
use vsclib.HashMap.Resizing.{move, redistribute}
use vsclib.HashMap.Scan.{scan-Scanned}
use vsclib.HashMap.Slots.{add_or_replace_bucket-lookup, added, lookup}
use vsclib.HashMap.Types.{HashMap, Bucket, slot, is_empty, says_equal}
use vsclib.Prelude.{
  ℕ, zero, suc, ◌+◌, ◌≤◌, ◌<◌, ◌≡◌, refl, sym, ap, ap₂, ◌∙◌, subst, arith, List, [], ◌∷◌, length,
  Bool, true, false, ◌⊎◌, inl, inr, Option, none, some, Bool-cases,
}

-- `add_or_replace_bucket` of an entry in its own terms
pub add-AddResult :
    (hm : HashMap) (bs : List Bucket) (b : Bucket)
    → KeyLaws hm.hash_proc hm.compare_proc
    → Placed hm.hash_proc hm.compare_proc hm.num_buckets bs
    → b.hash ≡ hm.hash_proc b.key
    → is_empty b ≡ false
    → AddResult hm.hash_proc hm.compare_proc hm.num_buckets bs b
        (add_or_replace_bucket hm bs hm.num_buckets b)
add-AddResult hm bs b laws p of_key taken = rw add_or_replace_bucket-lookup (
    subst
      (λ h.
        AddResult hm.hash_proc hm.compare_proc hm.num_buckets bs b
          (added bs b (lookup hm bs h b.key)))
      (sym of_key)
      (added-AddResult laws p b of_key taken
        (scan-Scanned hm.num_buckets bs _ (hm.hash_proc b.key))))

the_head : {b c : Bucket} → Stored 1 (b ∷ []) c → b ≡ c
the_head {b} {c} s = cases s.index s.within s.reads
  where
    cases : (i : ℕ) → i < 1 → slot (b ∷ []) i ≡ c → b ≡ c
    cases zero lt e = e
    cases (suc i) lt e = absurd (omega arith)

module _ {b c : Bucket} {bs : List Bucket} where
  uncons : Stored (length (b ∷ bs)) (b ∷ bs) c → Stored 1 (b ∷ []) c ⊎ Stored (length bs) bs c
  uncons s = cases s.index s.within s.reads
    where
      cases :
          (i : ℕ)
          → i < suc (length bs)
          → slot (b ∷ bs) i ≡ c
          → Stored 1 (b ∷ []) c ⊎ Stored (length bs) bs c
      cases zero lt e = inl (record { index = 0; within = omega arith; reads = e; taken = s.taken })
      cases (suc i) lt e =
          inr (record { index = i; within = omega arith; reads = e; taken = s.taken })

  head_of : Stored 1 (b ∷ []) c → Stored (length (b ∷ bs)) (b ∷ bs) c
  head_of s = record { index = 0; within = omega arith; reads = the_head s; taken = s.taken }

  tail_of : Stored (length bs) bs c → Stored (length (b ∷ bs)) (b ∷ bs) c
  tail_of s = record {
    index = suc s.index;
    within = let w = s.within in omega arith;
    reads = s.reads;
    taken = s.taken;
  }

-- the entries of a list of buckets can stand in one map
pub record Entries (hash : ℕ → ℕ) (proc : ℕ → ℕ → ℕ) (bs : List Bucket) : Type 0 where
  pub hashed :
      (j : ℕ) → j < length bs → Taken bs j → Bucket.hash (slot bs j) ≡ hash (Bucket.key (slot bs j))
  pub unique :
      (i j : ℕ)
      → i < length bs
      → j < length bs
      → Taken bs i
      → Taken bs j
      → says_equal proc (Bucket.key (slot bs i)) (Bucket.key (slot bs j)) ≡ true
      → i ≡ j

module _ (hm : HashMap) (laws : KeyLaws hm.hash_proc hm.compare_proc) where
  abbrev pub InPlace : List Bucket → Type 0
  InPlace = Placed hm.hash_proc hm.compare_proc hm.num_buckets

  Entries-tail :
      {b : Bucket} {bs : List Bucket}
      → Entries hm.hash_proc hm.compare_proc (b ∷ bs)
      → Entries hm.hash_proc hm.compare_proc bs
  Entries-tail es = record {
    hashed = λ j lt t. es.hashed (suc j) (omega arith) t;
    unique = λ i j li lj ti tj same.
        omega (arith, es.unique (suc i) (suc j) (omega arith) (omega arith) ti tj same);
  }

  -- what the loop leaves, from `bs` still to move and `tmp`
  pub record Moved (bs tmp result : List Bucket) : Type 0 where
    pub placed : InPlace result
    pub same_length : length result ≡ length tmp
    pub old : (c : Bucket) → Stored hm.num_buckets tmp c → Stored hm.num_buckets result c
    pub new : (c : Bucket) → Stored (length bs) bs c → Stored hm.num_buckets result c
    pub only :
        (c : Bucket)
        → Stored hm.num_buckets result c
        → Stored hm.num_buckets tmp c ⊎ Stored (length bs) bs c
    pub counted : count hm.num_buckets result ≡ count hm.num_buckets tmp + entries bs

  -- no key of `bs` is in `tmp`
  abbrev pub Apart : List Bucket → List Bucket → Type 0
  Apart bs tmp =
      (b c : Bucket)
      → Stored (length bs) bs b
      → Stored hm.num_buckets tmp c
      → says_equal hm.compare_proc b.key c.key ≡ false

  added-Moved :
      (b : Bucket) (tmp : List Bucket)
      → is_empty b ≡ false
      → Apart (b ∷ []) tmp
      → count hm.num_buckets tmp + 1 ≤ hm.num_buckets
      → {o : Option (Bool × List Bucket)}
      → AddResult hm.hash_proc hm.compare_proc hm.num_buckets tmp b o
      → Moved (b ∷ []) tmp (elim o [ none ↦ tmp | some (_, bs) ↦ bs ])
  unfolding entries
  added-Moved b tmp taken apart room (wrote grown bs' r) = record {
    placed = r.placed;
    same_length = r.same_length;
    old = λ c s. r.keeps c s (apart b c head s);
    new = λ c s. subst (Stored hm.num_buckets bs') (the_head s) r.stores;
    only = λ c s. elim (r.only c s) [
      | inl e ↦ inr (record { index = 0; within = omega arith; reads = sym e; taken = s.taken })
      | inr (old, _) ↦ inl old
    ];
    counted = elim (Bool-cases grown) [
      | inl more ↦ r.counted ∙ rw (more, taken)
      | inr same ↦ let (c, s, equal) = r.was_there same in cc (apart b c head s, equal)
    ];
  }
    where
      head : Stored 1 (b ∷ []) b
      head = record { index = 0; within = omega arith; reads = refl; taken = taken }
  added-Moved b tmp taken apart room (no_room full absent) = absurd (omega arith)

  move-Moved :
      (b : Bucket) (tmp : List Bucket)
      → (is_empty b ≡ false → b.hash ≡ hm.hash_proc b.key)
      → InPlace tmp
      → Apart (b ∷ []) tmp
      → count hm.num_buckets tmp + entries (b ∷ []) ≤ hm.num_buckets
      → Moved (b ∷ []) tmp (move hm hm.num_buckets b tmp)
  unfolding move entries
  move-Moved b tmp hashed p apart room = elim (Bool-cases (is_empty b)) [
    | inl empty ↦ rw empty (record {
      placed = p;
      same_length = refl;
      old = λ c s. s;
      new = λ c s. cc (the_head s, s.taken, empty);
      only = λ c s. inl s;
      counted = rw empty (omega arith);
    })
    | inr taken ↦ rw taken (
        added-Moved b tmp taken apart (rw taken at room)
          (add-AddResult hm tmp b laws p (hashed taken) taken))
  ]

  Moved-trans :
      (b : Bucket) (bs tmp mid result : List Bucket)
      → Moved (b ∷ []) tmp mid
      → Moved bs mid result
      → Moved (b ∷ bs) tmp result
  unfolding entries
  Moved-trans b bs tmp mid result m r = record {
    placed = r.placed;
    same_length = r.same_length ∙ m.same_length;
    old = λ c s. r.old c (m.old c s);
    new = λ c s. elim (uncons s) [ inl here ↦ r.old c (m.new c here) | inr later ↦ r.new c later ];
    only = λ c s. elim (r.only c s) [
      | inl moved ↦ elim (m.only c moved) [ inl old ↦ inl old | inr here ↦ inr (head_of here) ]
      | inr later ↦ inr (tail_of later)
    ];
    counted = let x = r.counted in let y = m.counted in omega arith;
  }

  Apart-later :
      (b : Bucket) (bs tmp mid : List Bucket)
      → Entries hm.hash_proc hm.compare_proc (b ∷ bs)
      → Apart (b ∷ bs) tmp
      → Moved (b ∷ []) tmp mid
      → Apart bs mid
  Apart-later b bs tmp mid es apart m x c s t = elim (m.only c t) [
    | inl old ↦ apart x c (tail_of s) old
    | inr here ↦ elim (Bool-cases (says_equal hm.compare_proc x.key c.key)) [
      | inr differs ↦ differs
      | inl same ↦
          let taken = ap is_empty (the_head here) ∙ here.taken in
          let keys =
            ap₂ (λ (y z : Bucket). says_equal hm.compare_proc y.key z.key) s.reads (the_head here)
            ∙ same in
          absurd (
            omega (
              arith,
              es.unique (suc s.index) 0 (let w = s.within in omega arith) (omega arith) (Taken-at s)
                  taken keys,
            ))
    ]
  ]

  pub redistribute-Moved :
      (bs tmp : List Bucket)
      → Entries hm.hash_proc hm.compare_proc bs
      → InPlace tmp
      → Apart bs tmp
      → count hm.num_buckets tmp + entries bs ≤ hm.num_buckets
      → Moved bs tmp (redistribute hm hm.num_buckets bs tmp)
  unfolding redistribute entries
  redistribute-Moved [] tmp es p apart room = record {
    placed = p;
    same_length = refl;
    old = λ c s. s;
    new = λ c s. absurd (let w = s.within in omega arith);
    only = λ c s. inl s;
    counted = omega arith;
  }
  redistribute-Moved (b ∷ bs) tmp es p apart room =
      let hashed = es.hashed 0 (omega arith) in
      let m : Moved (b ∷ []) tmp (move hm hm.num_buckets b tmp) =
        move-Moved b tmp hashed p (λ x c s old. apart x c (head_of s) old) (omega arith) in
      Moved-trans b bs tmp _ _ m (
        redistribute-Moved bs _ (Entries-tail es) m.placed (Apart-later b bs tmp _ es apart m)
          (let y = m.counted in omega arith))
