-- ===== src/HashMap/Enumerating.antt =====
-- `vsc_hashmap_enumerate` against the entries that are stored.
use mathlib.Core.List.{Memᴰ}
use mathlib.Core.List.Memᴰ.{head, tail}
use mathlib.Core.List.Memᴰ
use vsclib.HashMap.Api.{enumerate, enumerate_loop}
use vsclib.HashMap.Count.{count, entries, count-entries, count_agree}
use vsclib.HashMap.Finding.{Holds}
use vsclib.HashMap.Placed.{Stored}
use vsclib.HashMap.Types.{HashMap, Bucket, reset_bucket, slot, is_empty}
use vsclib.HashMap.Valid.{IsValid}
use vsclib.Prelude.{
  ℕ, zero, suc, ◌<◌, ◌≡◌, ◌↔◌, refl, sym, ap, ◌∙◌, subst, arith, List, [], ◌∷◌, length, take,
  length-take, get_or-take, true, false, ◌==◌, if◌then◌else◌, Bool-cases, inl, inr,
}

-- The calls of the procedure on a list of entries, up to the first that does not return 0.
unfoldable pub calls : {S : Type 0} → (ℕ → ℕ → ℕ → S → ℕ × S) → List Bucket → S → ℕ × S
calls proc [] user = (0, user)
calls proc (b ∷ bs) user =
    let (r, user') = proc b.key b.value b.hash user in
    let rest = calls proc bs user' in if r == 0 then rest else (r, user')

unfoldable pub taken_of : List Bucket → List Bucket
taken_of [] = []
taken_of (b ∷ bs) = let rest = taken_of bs in if is_empty b then rest else b ∷ rest

enumerate_loop-calls :
    {S : Type 0} (proc : ℕ → ℕ → ℕ → S → ℕ × S) (bs : List Bucket) (user : S)
    → enumerate_loop proc bs user ≡ calls proc (taken_of bs) user
unfolding enumerate_loop calls taken_of
enumerate_loop-calls proc [] user = refl
enumerate_loop-calls proc (b ∷ bs) user = elim (Bool-cases (is_empty b)) [
  | inl empty ↦ rw empty (enumerate_loop-calls proc bs user)
  | inr taken ↦ rw (taken, enumerate_loop-calls proc bs (proc b.key b.value b.hash user).1) refl
]

length-taken_of : (bs : List Bucket) → length (taken_of bs) ≡ entries bs
unfolding taken_of entries
length-taken_of [] = refl
length-taken_of (b ∷ bs) = elim (Bool-cases (is_empty b)) [
  | inl empty ↦ rw empty (omega (arith, length-taken_of bs))
  | inr taken ↦ rw taken (omega (arith, length-taken_of bs))
]

taken_of-empty :
    (x : Bucket) (xs : List Bucket) → is_empty x ≡ true → taken_of (x ∷ xs) ≡ taken_of xs
unfolding taken_of
taken_of-empty x xs e = rw e refl

taken_of-taken :
    (x : Bucket) (xs : List Bucket) → is_empty x ≡ false → taken_of (x ∷ xs) ≡ x ∷ taken_of xs
unfolding taken_of
taken_of-taken x xs e = rw e refl

Stored-tail :
    {x b : Bucket} {xs : List Bucket}
    → Stored (length xs) xs b
    → Stored (length (x ∷ xs)) (x ∷ xs) b
Stored-tail s = record {
  index = suc s.index;
  within = let within = s.within in omega arith;
  reads = s.reads;
  taken = s.taken;
}

-- the entries are those that some bucket has
taken_of-Stored : (bs : List Bucket) (b : Bucket) → Memᴰ b (taken_of bs) → Stored (length bs) bs b
unfolding taken_of
taken_of-Stored [] b m = absurd (Memᴰ.not-nil m)
taken_of-Stored (x ∷ xs) b m = elim (Bool-cases (is_empty x)) [
  | inl empty ↦
      Stored-tail (taken_of-Stored xs b (subst (λ l. Memᴰ b l) (taken_of-empty x xs empty) m))
  | inr taken ↦ elim (Memᴰ.cases_cons (subst (λ l. Memᴰ b l) (taken_of-taken x xs taken) m)) [
    | inl e ↦ record {
      index = 0;
      within = omega arith;
      reads = sym e;
      taken = ap is_empty e ∙ taken;
    }
    | inr rest ↦ Stored-tail (taken_of-Stored xs b rest)
  ]
]

in_tail : (x b : Bucket) (xs : List Bucket) → Memᴰ b (taken_of xs) → Memᴰ b (taken_of (x ∷ xs))
in_tail x b xs m = elim (Bool-cases (is_empty x)) [
  | inl empty ↦ subst (λ l. Memᴰ b l) (sym (taken_of-empty x xs empty)) m
  | inr taken ↦ subst (λ l. Memᴰ b l) (sym (taken_of-taken x xs taken)) (tail m)
]

slot-taken_of :
    (bs : List Bucket) (b : Bucket) (i : ℕ)
    → i < length bs
    → slot bs i ≡ b
    → is_empty b ≡ false
    → Memᴰ b (taken_of bs)
slot-taken_of [] b i lt reads t = absurd (omega arith)
slot-taken_of (x ∷ xs) b zero lt reads t =
    subst (λ l. Memᴰ b l) (sym (taken_of-taken x xs (ap is_empty reads ∙ t))) (head (sym reads))
slot-taken_of (x ∷ xs) b (suc i) lt reads t =
    in_tail x b xs (slot-taken_of xs b i (omega arith) reads t)

-- vsc_hashmap_enumerate calls the procedure on each entry of a valid map once, up to the first call
-- that does not return 0, and returns what that call returned, or 0.
pub enumerate-calls :
    {S : Type 0} {hm : HashMap} (proc : ℕ → ℕ → ℕ → S → ℕ × S) (user : S)
    → IsValid hm
    → (bs : List Bucket) × (enumerate hm proc user ≡ calls proc bs user)
      × (length bs ≡ hm.size)
      × ((b : Bucket) → Memᴰ b bs ↔ Holds hm b)
unfolding enumerate
enumerate-calls {hm = hm} proc user v =
    let n = hm.num_buckets in
    let bs = take n hm.buckets in
    let width = v.probed.placed.width in
    let all : length bs ≡ n = length-take n hm.buckets ∙ omega arith in
    let same : (j : ℕ) → j < n → slot bs j ≡ slot hm.buckets j =
      λ j lt. get_or-take n hm.buckets j reset_bucket lt in
    (
      taken_of bs,
      enumerate_loop-calls proc bs user,
      length-taken_of bs
          ∙ sym (count-entries bs)
          ∙ ap (λ k. count k bs) all
          ∙ count_agree n bs hm.buckets (λ j lt. ap is_empty (same j lt))
          ∙ v.counted,
      λ b. (
        λ m.
            let s = taken_of-Stored bs b m in
            let within : s.index < n = omega (arith, s.within, all) in
            record {
              index = s.index;
              within = within;
              reads = sym (same s.index within) ∙ s.reads;
              taken = s.taken;
            },
        λ s.
            slot-taken_of bs b s.index (omega (arith, s.within, all))
              (same s.index s.within ∙ s.reads) s.taken,
      ),
    )
