-- ===== src/HashMap/Rehash.antt =====
-- The buckets that `vsc_hashmap_resize` reallocates, and what they become when redistributed.
use vsclib.HashMap.Count.{
  count, entries, count-le, count-replicate, count-entries, count_agree, count_beyond,
}
use vsclib.HashMap.Finding.{IsProbed, Holds}
use vsclib.HashMap.Moving.{Entries, redistribute-Moved}
use vsclib.HashMap.Placed.{Taken, Stored, Placed, Taken-at}
use vsclib.HashMap.Resizing.{resized, redistribute}
use vsclib.HashMap.Types.{HashMap, Bucket, slot, is_empty, says_equal, reset_bucket}
use vsclib.Prelude.{
  ℕ, ◌-◌, ◌≤◌, ◌<◌, ◌≡◌, refl, sym, ap, ap₂, ◌∙◌, subst, arith, min, take, replicate, length,
  length-append, length-take, length-replicate, get_or-take, get_or-append_left,
  get_or-append_right, get_or-replicate, true, dec_lt, inl, inr,
}

pub reset_bucket-is_empty : is_empty reset_bucket ≡ true
unfolding is_empty
reset_bucket-is_empty = refl

nothing-Stored : (n : ℕ) (c : Bucket) → Stored n (replicate n reset_bucket) c → ⊥
nothing-Stored n c s =
    cc (Taken-at s, ap is_empty (get_or-replicate n s.index reset_bucket), reset_bucket-is_empty)

-- a list of buckets with no entry is in place
pub Placed-replicate :
    (hash : ℕ → ℕ) (proc : ℕ → ℕ → ℕ) (n : ℕ) → Placed hash proc n (replicate n reset_bucket)
Placed-replicate hash proc n = record {
  width = rw length-replicate (omega arith);
  hashed = λ j lt t. absurd (not-Taken j t);
  reached = λ j lt t. absurd (not-Taken j t);
  unique = λ i j li lj ti tj e. absurd (not-Taken i ti);
}
  where
    not-Taken : (j : ℕ) → Taken (replicate n reset_bucket) j → ⊥
    not-Taken j t = cc (t, ap is_empty (get_or-replicate n j reset_bucket), reset_bucket-is_empty)

module _ (hm : HashMap) (nelem : ℕ) (wide : hm.num_buckets ≤ length hm.buckets) where
  abbrev kept : ℕ
  kept = min hm.num_buckets nelem

  length-kept : length (take kept hm.buckets) ≡ kept
  length-kept = omega (arith, length-take kept hm.buckets)

  pub length-resized : length (resized hm nelem) ≡ nelem
  unfolding resized
  length-resized = omega (
    arith,
    length-append (take kept hm.buckets) (replicate (nelem - hm.num_buckets) reset_bucket),
    length-replicate (nelem - hm.num_buckets) reset_bucket,
    length-kept,
  )

  pub slot-resized-kept : (j : ℕ) → j < kept → slot (resized hm nelem) j ≡ slot hm.buckets j
  unfolding resized
  slot-resized-kept j lt =
      get_or-append_left (take kept hm.buckets) _ j reset_bucket (rw length-kept lt)
      ∙ get_or-take kept hm.buckets j reset_bucket lt

  pub slot-resized_fresh : (j : ℕ) → kept ≤ j → slot (resized hm nelem) j ≡ reset_bucket
  unfolding resized
  slot-resized_fresh j le =
      get_or-append_right (take kept hm.buckets) _ j reset_bucket (rw length-kept le)
      ∙ get_or-replicate (nelem - hm.num_buckets) (j - length (take kept hm.buckets)) reset_bucket

  kept_of_Taken : (j : ℕ) → Taken (resized hm nelem) j → j < kept
  kept_of_Taken j t = elim (dec_lt j kept) [
    | yes lt ↦ lt
    | no ge ↦ cc (t, ap is_empty (slot-resized_fresh j (omega arith)), reset_bucket-is_empty)
  ]

  pub resized_only :
      (c : Bucket)
      → Stored (length (resized hm nelem)) (resized hm nelem) c
      → Stored kept hm.buckets c
  resized_only c s =
      let lt = kept_of_Taken s.index (Taken-at s) in
      record {
        index = s.index;
        within = lt;
        reads = sym (slot-resized-kept s.index lt) ∙ s.reads;
        taken = s.taken;
      }

  pub resized_keeps :
      (c : Bucket)
      → Stored kept hm.buckets c
      → Stored (length (resized hm nelem)) (resized hm nelem) c
  resized_keeps c s = record {
    index = s.index;
    within = rw length-resized (let w = s.within in omega arith);
    reads = slot-resized-kept s.index s.within ∙ s.reads;
    taken = s.taken;
  }

  resized-Entries :
      Placed hm.hash_proc hm.compare_proc hm.num_buckets hm.buckets
      → Entries hm.hash_proc hm.compare_proc (resized hm nelem)
  resized-Entries p = record {
    hashed = λ j lt t.
        let k = kept_of_Taken j t in
        let e = slot-resized-kept j k in
        subst (λ (b : Bucket). b.hash ≡ hm.hash_proc b.key) (sym e)
          (p.hashed j (omega arith) (ap is_empty (sym e) ∙ t));
    unique = λ i j li lj ti tj same.
        let ki = kept_of_Taken i ti in
        let kj = kept_of_Taken j tj in
        let ei = slot-resized-kept i ki in
        let ej = slot-resized-kept j kj in
        p.unique i j (omega arith) (omega arith) (ap is_empty (sym ei) ∙ ti)
          (ap is_empty (sym ej) ∙ tj)
          (ap₂ (λ (a b : Bucket). says_equal hm.compare_proc a.key b.key) (sym ei) (sym ej) ∙ same);
  }

  count-resized : entries (resized hm nelem) ≡ count kept hm.buckets
  count-resized =
      sym (count-entries (resized hm nelem))
      ∙ ap (λ k. count k (resized hm nelem)) length-resized
      ∙ count_beyond kept nelem (resized hm nelem) (omega arith)
          (λ j le. ap is_empty (slot-resized_fresh j le) ∙ reset_bucket-is_empty)
      ∙ count_agree kept (resized hm nelem) hm.buckets
          (λ j lt. ap is_empty (slot-resized-kept j lt))

-- the map between the reallocation and the redistribution
abbrev pub regrown : HashMap → ℕ → HashMap
regrown hm nelem = record hm { buckets = resized hm nelem; num_buckets = nelem }

-- and after it
abbrev pub redistributed : HashMap → ℕ → HashMap
redistributed hm nelem = record hm {
  buckets = redistribute (regrown hm nelem) nelem (resized hm nelem) (replicate nelem reset_bucket);
  num_buckets = nelem;
}

-- The buckets are in place, and hold what the first `nelem` held before.
pub record Rehashed (hm : HashMap) (nelem : ℕ) : Type 0 where
  pub probed : IsProbed (redistributed hm nelem)
  pub keeps :
      (c : Bucket)
      → Stored (min hm.num_buckets nelem) hm.buckets c
      → Holds (redistributed hm nelem) c
  pub only :
      (c : Bucket)
      → Holds (redistributed hm nelem) c
      → Stored (min hm.num_buckets nelem) hm.buckets c
  pub counted :
      count nelem (HashMap.buckets (redistributed hm nelem))
      ≡ count (min hm.num_buckets nelem) hm.buckets

pub redistributed-Rehashed : (hm : HashMap) (nelem : ℕ) → IsProbed hm → Rehashed hm nelem
redistributed-Rehashed hm nelem p =
    let wide = Placed.width p.placed in
    let none_there = λ (c : Bucket) (s : Stored nelem (replicate nelem reset_bucket) c).
      nothing-Stored nelem c s in
    let m =
      redistribute-Moved (regrown hm nelem) p.laws (resized hm nelem) (replicate nelem reset_bucket)
        (resized-Entries hm nelem wide p.placed)
        (Placed-replicate hm.hash_proc hm.compare_proc nelem) (λ b c s t. absurd (none_there c t))
        (omega (
          arith,
          count-replicate nelem nelem,
          count-resized hm nelem wide,
          count-le (min hm.num_buckets nelem) hm.buckets,
        )) in
    record {
      probed = record { laws = p.laws; placed = m.placed };
      keeps = λ c s. m.new c (resized_keeps hm nelem wide c s);
      only = λ c s. elim (m.only c s) [
        | inl old ↦ absurd (none_there c old)
        | inr new ↦ resized_only hm nelem wide c new
      ];
      counted = m.counted ∙ omega (arith, count-replicate nelem nelem, count-resized hm nelem wide);
    }
