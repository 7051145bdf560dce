-- ===== src/HashMap/Growing.antt =====
-- `maybe_resize` of vsclib/hashmap.c: it never shrinks the map, and leaves room.
use vsclib.HashMap.Resizing.{Grants, resize, maybe_resize, intceil, min_required, threshold}
use vsclib.HashMap.Types.{HashMap, ResizePolicy, resize_none, resize_load_factor}
use vsclib.HashMap.Valid.{IsOrdered, IsConfigured, IsValid, Grows, Grows-refl, resize-Grows}
use vsclib.Prelude.Errno.{Errno, Status, success, failure, eperm, erange, enospc}
use vsclib.Prelude.Words.{size_max, size_mod, add_size}
use vsclib.Prelude.{
  ℕ, ◌+◌, ◌*◌, ◌≤◌, ◌<◌, ◌≡◌, ◌≢◌, refl, ap, arith, ltb, leb, dec_lt, Bool-cases, inl, inr, max,
  if◌then◌else◌,
}
use native.Mathlib.Nat.{div-add-mod, mod-lt, mod-eq_of_lt}

-- `intceil` rounds up.
pub intceil_bounds :
    (num den : ℕ) → 0 < den → (num ≤ den * intceil num den) × (den * intceil num den < num + den)
unfolding intceil
intceil_bounds num den pos = ground (arith, div-add-mod num den, mod-lt num pos)

pub mul_mono : (k x y : ℕ) → x ≤ y → k * x ≤ k * y
mul_mono k x y h = grind arith

-- from `s` entries in `b` buckets at or over the threshold, with `r` buckets required
room_for :
    {a b c d : ℕ} (size buckets thresh required : ℕ)
    → IsOrdered a b c d
    → buckets * c ≤ d * thresh
    → thresh ≤ size
    → (size + 1) * b ≤ a * required
    → (buckets ≤ required) × (size < required)
room_for {a} {b} {c} {d} size buckets thresh required o h1 h2 h3 = (
  elim (dec_lt required buckets) [
    | no ge ↦ omega arith
    | yes lt ↦
        let t1 = mul_mono (a * d) (required + 1) buckets (omega arith) in
        let t2 = mul_mono d ((size + 1) * b) (a * required) h3 in
        let t3 = mul_mono b (buckets * c) (d * thresh) h1 in
        let t4 = mul_mono (b * d) thresh size h2 in
        let t5 = mul_mono buckets (a * d) (c * b) o.ordered in
        let p1 = mul_mono a 1 d (let x = o.max_below in omega arith) in
        let p2 = o.min_pos in absurd (omega arith)
  ],
  elim (dec_lt size required) [
    | yes lt ↦ lt
    | no ge ↦
        let t1 = mul_mono a required size (omega arith) in
        let t2 = mul_mono (size + 1) a b (let x = o.min_below in omega arith) in
        let p2 = o.min_pos in absurd (omega arith)
  ],
)

-- The threshold is exact where its product does not wrap, and no more than the buckets.
threshold_bounds :
    (hm : HashMap)
    → IsConfigured hm
    → hm.num_buckets * hm.load_max_num < size_mod
    → (hm.num_buckets * hm.load_max_num ≤ hm.load_max_den * threshold hm)
      × (threshold hm ≤ hm.num_buckets)
unfolding threshold
threshold_bounds hm c fits =
    let n = hm.num_buckets in
    let d = hm.load_max_den in
    let b : n * hm.load_max_num ≤ d * threshold hm × (d * threshold hm < n * hm.load_max_num + d) =
      rw (mod-eq_of_lt fits) (intceil_bounds (n * hm.load_max_num) d (omega arith)) in
    let over = λ (h : n < threshold hm). mul_mono d (n + 1) (threshold hm) (omega arith) in
    let below = mul_mono n hm.load_max_num d (omega arith) in
    (
      b.0,
      elim (dec_lt n (threshold hm)) [
        | yes h ↦ let o = over h in absurd (omega arith)
        | no h ↦ omega arith
      ],
    )

-- `maybe_resize` checks this before it multiplies.
guarded_product : (n m : ℕ) → 0 < m → n < intceil size_max m → n * m < size_mod
guarded_product n m pos h =
    let t = mul_mono m (n + 1) (intceil size_max m) (omega arith) in
    omega (arith, intceil_bounds size_max m pos)

required_bounds :
    (hm : HashMap)
    → IsConfigured hm
    → (hm.size + 1) * hm.load_min_den < size_mod
    → (hm.size + 1) * hm.load_min_den ≤ hm.load_min_num * min_required hm
unfolding min_required
required_bounds hm c fits =
    let need = (hm.size + 1) * hm.load_min_den in
    let m = hm.load_min_num in
    let wide = mul_mono (hm.size + 1) 1 hm.load_min_den (let x = c.min_below in omega arith) in
    let small : hm.size + 1 < size_mod = omega arith in
    let up = mul_mono m (intceil need m) (max (intceil need m) 16) (omega arith) in
    rw (mod-eq_of_lt small, mod-eq_of_lt fits)
      (omega (arith, intceil_bounds need m (let x = c.min_pos in x)))

-- The new number of buckets is no less than the old, and more than the entries.
grow_bounds :
    (hm : HashMap)
    → IsConfigured hm
    → hm.num_buckets < intceil size_max hm.load_max_num
    → threshold hm ≤ hm.size
    → (hm.size + 1) * hm.load_min_den < size_mod
    → (hm.num_buckets ≤ min_required hm) × (hm.size < min_required hm)
grow_bounds hm c guard full fits =
    let th =
      threshold_bounds hm c (guarded_product hm.num_buckets hm.load_max_num c.max_pos guard) in
    room_for hm.size hm.num_buckets (threshold hm) (min_required hm) c th.0 full
      (required_bounds hm c fits)

-- On success a resize has as many buckets as it was asked for.
resize_success :
    (g : Grants) (hm : HashMap) (nelem : ℕ)
    → hm.size < nelem
    → (resize g hm nelem).0 ≡ success
    → HashMap.num_buckets (resize g hm nelem).1 ≡ nelem
unfolding resize
resize_success g hm nelem more = ground arith

resize-ne-enospc : (g : Grants) (hm : HashMap) (nelem : ℕ) → (resize g hm nelem).0 ≢ failure enospc
unfolding resize
resize-ne-enospc g hm nelem = ground arith

-- What `maybe_resize` leaves: the same entries, and on success a bucket that is free.
pub data MadeRoom (hm : HashMap) : Status × HashMap → Type 0 where
  made : (hm' : HashMap) → Grows hm hm' → hm'.size < hm'.num_buckets → MadeRoom hm (success, hm')
  not_made : (e : Errno) (hm' : HashMap) → Grows hm hm' → e ≢ enospc → MadeRoom hm (failure e, hm')

MadeRoom-of_parts :
    {hm : HashMap} (r : Status × HashMap)
    → Grows hm r.1
    → (r.0 ≡ success → HashMap.size r.1 < HashMap.num_buckets r.1)
    → r.0 ≢ failure enospc
    → MadeRoom hm r
MadeRoom-of_parts (success, hm') g room ne = made hm' g (room refl)
MadeRoom-of_parts (failure e, hm') g room ne = not_made e hm' g (λ h. ne (ap failure h))

unchanged : {hm : HashMap} (e : Errno) → e ≢ enospc → IsValid hm → MadeRoom hm (failure e, hm)
unchanged {hm} e ne v = not_made e hm (Grows-refl v) ne

-- `maybe_resize` keeps the map valid with the entries it had and never fewer buckets, and when it
-- succeeds there is a free bucket, as long as `(size + 1) * load_min.den` does not wrap.
pub maybe_resize-MadeRoom :
    (g : Grants) {hm : HashMap}
    → IsValid hm
    → (hm.size + 1) * hm.load_min_den < size_mod
    → MadeRoom hm (maybe_resize g hm)
unfolding maybe_resize
maybe_resize-MadeRoom g {hm} v fits =
    elim (Bool-cases (leb (intceil size_max hm.load_max_num) hm.num_buckets)) [
      | inl a ↦ rw a (unchanged erange (λ h. cc) v)
      | inr a ↦
          let c = v.configured in
          let guard : hm.num_buckets < intceil size_max hm.load_max_num = ground arith in
          elim (Bool-cases (ltb hm.size (threshold hm))) [
            | inl b ↦
                let th =
                  threshold_bounds hm c
                    (guarded_product hm.num_buckets hm.load_max_num c.max_pos guard) in
                rw (a, b) (made hm (Grows-refl v) (ground (arith, th)))
            | inr b ↦ rw (a, b) (by_policy hm.resize_policy guard (ground arith))
          ]
    ]
  where
    by_policy :
        (policy : ResizePolicy)
        → hm.num_buckets < intceil size_max hm.load_max_num
        → threshold hm ≤ hm.size
        → MadeRoom hm (elim policy [
          | resize_none ↦ (failure eperm, hm)
          | resize_load_factor ↦
              if leb (intceil size_max hm.load_max_den) (add_size hm.size 1)
              then (failure erange, hm)
              else resize g hm (min_required hm)
        ])
    by_policy resize_none guard full = unchanged eperm (λ h. cc) v
    by_policy resize_load_factor guard full =
        let (wide, more) = grow_bounds hm v.configured guard full fits in
        elim (Bool-cases (leb (intceil size_max hm.load_max_den) (add_size hm.size 1))) [
          | inl d ↦ rw d (unchanged erange (λ h. cc) v)
          | inr d ↦
              let grown = resize-Grows g (min_required hm) v wide in
              rw d (
                MadeRoom-of_parts (resize g hm (min_required hm)) grown
                  (λ h.
                    omega (arith, resize_success g hm (min_required hm) more h, grown.same_size))
                  (resize-ne-enospc g hm (min_required hm)))
        ]
