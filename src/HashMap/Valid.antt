-- ===== src/HashMap/Valid.antt =====
-- The invariant of the map, and `vsc_hashmap_resize` to no fewer buckets.
use native.Mathlib.Nat.{mod-lt}
use vsclib.HashMap.Api.{find}
use vsclib.HashMap.Count.{count, count_agree, count_beyond, count-zero, count_none}
use vsclib.HashMap.Finding.{IsProbed, Holds, find_agree}
use vsclib.HashMap.Placed.{Taken, Stored, Reached, Placed, Taken-at}
use vsclib.HashMap.Rehash.{
  length-resized, slot-resized-kept, slot-resized_fresh, redistributed, redistributed-Rehashed,
  reset_bucket-is_empty,
}
use vsclib.HashMap.Resizing.{Grants, resized, resize, bucket_size}
use vsclib.HashMap.Types.{HashMap, Bucket, slot, is_empty, says_equal}
use vsclib.Prelude.Words.{size_max}
use vsclib.Prelude.{
  ℕ, ◌*◌, ◌/◌, ◌≤◌, ◌<◌, ◌≡◌, refl, sym, ap, ap₂, ◌∙◌, subst, arith, min, List, length, true, ◌||◌,
  ◌==◌, ltb, leb, Bool-cases, inl, inr, dec_lt, ==_iff,
}

-- What `vsc_hashmap_alloca` sets and `vsc_hashmap_configure` lets through: two fractions below 1,
-- the first no greater than the second.
pub record IsOrdered (min_num min_den max_num max_den : ℕ) : Type 0 where
  pub min_pos : 0 < min_num
  pub min_below : min_num < min_den
  pub max_pos : 0 < max_num
  pub max_below : max_num < max_den
  pub ordered : min_num * max_den ≤ max_num * min_den

abbrev pub IsConfigured : HashMap → Type 0
IsConfigured hm = IsOrdered hm.load_min_num hm.load_min_den hm.load_max_num hm.load_max_den

-- The buckets are in place, `size` counts the entries, and the load factors are in order.
pub record IsValid (hm : HashMap) : Type 0 where
  pub probed : IsProbed hm
  pub counted : count hm.num_buckets hm.buckets ≡ hm.size
  pub configured : IsConfigured hm

-- `hm'` is a valid map with the entries of `hm` and no fewer buckets
pub record Grows (hm hm' : HashMap) : Type 0 where
  pub valid : IsValid hm'
  pub same_size : hm'.size ≡ hm.size
  pub wider : hm.num_buckets ≤ hm'.num_buckets
  pub same_hash : hm'.hash_proc ≡ hm.hash_proc
  pub same_compare : hm'.compare_proc ≡ hm.compare_proc
  pub keeps : (b : Bucket) → Holds hm b → Holds hm' b
  pub only : (b : Bucket) → Holds hm' b → Holds hm b

pub Grows-refl : {hm : HashMap} → IsValid hm → Grows hm hm
Grows-refl v = record {
  valid = v;
  same_size = refl;
  wider = omega arith;
  same_hash = refl;
  same_compare = refl;
  keeps = λ b s. s;
  only = λ b s. s;
}

-- Every lookup is as it was.
pub Grows-find :
    {hm hm' : HashMap} (key : ℕ) → IsProbed hm → Grows hm hm' → find hm' key ≡ find hm key
Grows-find key p g =
    find_agree p g.valid.probed key (λ a b. ap (λ proc. says_equal proc a b) g.same_compare)
      (λ b s e. g.keeps b s) (λ b s e. g.only b s)

-- The invariant of the buckets is one of the first `n` only.
Placed-agree :
    {hash : ℕ → ℕ} {proc : ℕ → ℕ → ℕ} {n : ℕ} {bs cs : List Bucket}
    → ((j : ℕ) → j < n → slot cs j ≡ slot bs j)
    → n ≤ length cs
    → Placed hash proc n bs
    → Placed hash proc n cs
Placed-agree {hash} {proc} {n} {bs} {cs} same wide p = record {
  width = wide;
  hashed = λ j lt t.
      subst (λ (b : Bucket). b.hash ≡ hash b.key) (sym (same j lt))
        (p.hashed j lt (ap is_empty (sym (same j lt)) ∙ t));
  reached = λ j lt t.
      let r = p.reached j lt (ap is_empty (sym (same j lt)) ∙ t) in
      subst (λ (b : Bucket). Reached n cs b.hash j) (sym (same j lt))
        (record {
          steps = r.steps;
          short = r.short;
          ends = r.ends;
          over = λ e l. ap is_empty (same _ (mod-lt _ (omega arith))) ∙ r.over e l;
        });
  unique = λ i j li lj ti tj equal.
      p.unique i j li lj (ap is_empty (sym (same i li)) ∙ ti) (ap is_empty (sym (same j lj)) ∙ tj) (
        ap₂ (λ (a b : Bucket). says_equal proc a.key b.key) (sym (same i li)) (sym (same j lj))
        ∙ equal);
}

module _ {hm : HashMap} (v : IsValid hm) (nelem : ℕ) (more : hm.num_buckets ≤ nelem) where
  wide : hm.num_buckets ≤ length hm.buckets
  wide = Placed.width v.probed.placed

  at_old : (j : ℕ) → j < hm.num_buckets → slot (resized hm nelem) j ≡ slot hm.buckets j
  at_old j lt = slot-resized-kept hm nelem wide j (omega arith)

  -- the reallocation was granted and the temporary list was not
  half_grown : Grows hm (record hm { buckets = resized hm nelem })
  half_grown =
      let p' : IsProbed (record hm { buckets = resized hm nelem }) = record {
        laws = v.probed.laws;
        placed = Placed-agree at_old (omega (arith, length-resized hm nelem wide)) v.probed.placed;
      } in
      record {
        valid = record {
          probed = p';
          counted =
              count_agree hm.num_buckets _ hm.buckets (λ j lt. ap is_empty (at_old j lt))
              ∙ v.counted;
          configured = v.configured;
        };
        same_size = refl;
        wider = omega arith;
        same_hash = refl;
        same_compare = refl;
        keeps = λ b s. record {
          index = s.index;
          within = s.within;
          reads = at_old s.index s.within ∙ s.reads;
          taken = s.taken;
        };
        only = λ b s. record {
          index = s.index;
          within = s.within;
          reads = sym (at_old s.index s.within) ∙ s.reads;
          taken = s.taken;
        };
      }

  grown_full : Grows hm (redistributed hm nelem)
  grown_full =
      let r = redistributed-Rehashed hm nelem v.probed in
      let all_kept : min hm.num_buckets nelem ≡ hm.num_buckets = omega arith in
      record {
        valid = record {
          probed = r.probed;
          counted = r.counted ∙ ap (λ k. count k hm.buckets) all_kept ∙ v.counted;
          configured = v.configured;
        };
        same_size = refl;
        wider = more;
        same_hash = refl;
        same_compare = refl;
        keeps = λ b s. r.keeps b (subst (λ k. Stored k hm.buckets b) (sym all_kept) s);
        only = λ b s. subst (λ k. Stored k hm.buckets b) all_kept (r.only b s);
      }

  module _ (none_there : hm.size ≡ 0) where
    old_empty : (j : ℕ) → j < hm.num_buckets → is_empty (slot hm.buckets j) ≡ true
    old_empty = count-zero hm.num_buckets hm.buckets (v.counted ∙ none_there)

    new_empty : (j : ℕ) → is_empty (slot (resized hm nelem) j) ≡ true
    new_empty j = elim (dec_lt j hm.num_buckets) [
      | yes lt ↦ ap is_empty (at_old j lt) ∙ old_empty j lt
      | no ge ↦
          ap is_empty (slot-resized_fresh hm nelem wide j (omega arith)) ∙ reset_bucket-is_empty
    ]

    not-Taken : (j : ℕ) → Taken (resized hm nelem) j → ⊥
    not-Taken j t = cc (t, new_empty j)

    grown_empty : Grows hm (record hm { buckets = resized hm nelem; num_buckets = nelem })
    grown_empty =
        let p' : IsProbed (record hm { buckets = resized hm nelem; num_buckets = nelem }) = record {
          laws = v.probed.laws;
          placed = record {
            width = omega (arith, length-resized hm nelem wide);
            hashed = λ j lt t. absurd (not-Taken j t);
            reached = λ j lt t. absurd (not-Taken j t);
            unique = λ i j li lj ti tj e. absurd (not-Taken i ti);
          };
        } in
        record {
          valid = record {
            probed = p';
            counted =
                count_beyond 0 nelem _ (omega arith) (λ j le. new_empty j)
                ∙ count_none _
                ∙ sym none_there;
            configured = v.configured;
          };
          same_size = refl;
          wider = more;
          same_hash = refl;
          same_compare = refl;
          keeps = λ b s. cc (Taken-at s, old_empty s.index s.within);
          only = λ b s. absurd (not-Taken s.index (Taken-at s));
        }

-- `vsc_hashmap_resize` to no fewer buckets keeps the map valid and its entries as they were,
-- whatever it returns.
pub resize-Grows :
    {hm : HashMap} (g : Grants) (nelem : ℕ)
    → IsValid hm
    → hm.num_buckets ≤ nelem
    → Grows hm (resize g hm nelem).1
unfolding resize
resize-Grows {hm} g nelem v more = elim (Bool-cases (nelem == 0 || ltb nelem hm.size)) [
  | inl a ↦ rw a (Grows-refl v)
  | inr a ↦ elim (Bool-cases (nelem == hm.size)) [
    | inl b ↦ rw (a, b) (Grows-refl v)
    | inr b ↦ elim (Bool-cases (leb (size_max / bucket_size) nelem)) [
      | inl c ↦ rw (a, b, c) (Grows-refl v)
      | inr c ↦ elim (Bool-cases g.buckets) [
        | inr d ↦ rw (a, b, c, d) (Grows-refl v)
        | inl d ↦ elim (Bool-cases (hm.size == 0)) [
          | inl e ↦ rw (a, b, c, d, e) (grown_empty v nelem more ((==_iff hm.size 0).0 e))
          | inr e ↦ elim (Bool-cases g.temp) [
            | inr f ↦ rw (a, b, c, d, e, f) (half_grown v nelem more)
            | inl f ↦ rw (a, b, c, d, e, f) (grown_full v nelem more)
          ]
        ]
      ]
    ]
  ]
]
