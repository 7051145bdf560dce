-- ===== src/Memory/Faked/Tests.antt =====
-- A heap of two blocks, whose allocator cannot reallocate.
use vsclib.Memory.Allocation.{Flags, Reply, Allocator, xalloc_ex}
use vsclib.Memory.Faked.{IsPlain, IsFaked, xalloc_ex-IsFaked}
use vsclib.Prelude.Errno.{success, failure, enotsup, enomem}
use vsclib.Prelude.{
  ℕ, ◌≤◌, List, [], ◌∷◌, ◌++◌, length, length-append, length-take, length-drop, take, drop,
  take-append, replicate, length-replicate, Bool, true, false, ◌==◌, ==_ne, ==_iff, Bool-cases,
  if◌then◌else◌, Option, none, some, ◌≡◌, ◌≢◌, inl, inr, refl, sym, ap, ◌∙◌, arith,
}

abbrev Slots : Type 0
Slots = ℕ → Option (List ℕ)

abbrev put_block : ℕ → Option (List ℕ) → Slots → Slots
put_block p o heap q = if q == p then o else heap q

abbrev is_vacant : Option (List ℕ) → Bool
is_vacant none = true
is_vacant (some c) = false

abbrev contents : Option (List ℕ) → List ℕ
contents none = []
contents (some c) = c

abbrev give : ℕ → ℕ → Slots → Reply Slots
give q size heap = record {
  status = success;
  block = q;
  heap = put_block q (some (replicate size 0xaa)) heap;
}

abbrev two_alloc : ℕ → ℕ → ℕ → Flags → Slots → Reply Slots
two_alloc p size alignment flags heap =
    if flags.realloc
    then record { status = failure enotsup; block = p; heap = heap }
    else if is_vacant (heap 64)
    then give 64 size heap
    else if is_vacant (heap 128)
    then give 128 size heap
    else record { status = failure enomem; block = p; heap = heap }

abbrev over : ℕ → List ℕ → List ℕ → List ℕ
over n c d = take n c ++ drop n d

abbrev two : Allocator Slots
two = record {
  alloc = two_alloc;
  free = λ p heap. put_block p none heap;
  size = λ p heap. length (contents (heap p));
  memcpy = λ dst src n heap.
      put_block dst (some (over n (contents (heap src)) (contents (heap dst)))) heap;
  alignment = 8;
}

same_place : (p : ℕ) → (p == p) ≡ true
same_place p = (==_iff p p).1 refl

abbrev held_by : Slots → ℕ → Option (List ℕ)
held_by heap p = heap p

vacant_lem : (o : Option (List ℕ)) → is_vacant o ≡ true → o ≡ none
vacant_lem none e = refl
vacant_lem (some c) e = absurd (ground (arith, e))

-- what the laws say of a granted block
data IsGiven (size : ℕ) (heap : Slots) (reply : Reply Slots) : Type 0 where
  refused : reply.status ≢ success → ((q : ℕ) → reply.heap q ≡ heap q) → IsGiven size heap reply
  given :
      reply.status ≡ success
      → reply.block ≢ 0
      → heap reply.block ≡ none
      → (d : List ℕ) → reply.heap reply.block ≡ some d
      → size ≤ length d
      → ((q : ℕ) → q ≢ reply.block → reply.heap q ≡ heap q)
      → IsGiven size heap reply

give-IsGiven :
    (q size : ℕ) (heap : Slots)
    → q ≢ 0
    → is_vacant (heap q) ≡ true
    → IsGiven size heap (give q size heap)
give-IsGiven q size heap ne vacant =
    given refl ne (vacant_lem (heap q) vacant) (replicate size 0xaa) (rw (same_place q) refl)
      (let filler : ℕ = 0xaa in omega (arith, length-replicate size filler))
      (λ r other. rw (==_ne other) refl)

two_alloc-IsGiven :
    (p size alignment : ℕ) (flags : Flags) (heap : Slots)
    → flags.realloc ≡ false
    → IsGiven size heap (two_alloc p size alignment flags heap)
two_alloc-IsGiven p size alignment flags heap plain = elim (Bool-cases (is_vacant (heap 64))) [
  | inl first ↦ rw (plain, first) (give-IsGiven 64 size heap (λ e. absurd (omega (arith, e))) first)
  | inr full ↦ elim (Bool-cases (is_vacant (heap 128))) [
    | inl second ↦
        rw (plain, full, second)
          (give-IsGiven 128 size heap (λ e. absurd (omega (arith, e))) second)
    | inr none_left ↦
        rw (plain, full, none_left) (refused (λ e. absurd (ground (arith, e))) (λ q. refl))
  ]
]

over-length : (n : ℕ) (c d : List ℕ) → n ≤ length c → n ≤ length d → length (over n c d) ≡ length d
over-length n c d short fits =
    omega (arith, length-append (take n c) (drop n d), length-take n c, length-drop n d)

over-take : (n : ℕ) (c d : List ℕ) → n ≤ length c → take n (over n c d) ≡ take n c
over-take n c d short =
    let len : length (take n c) ≡ n = omega (arith, length-take n c) in
    ap (λ k. take k (take n c ++ drop n d)) (sym len) ∙ take-append (take n c) (drop n d)

two-IsPlain : IsPlain two held_by
two-IsPlain = record {
  unsupported = λ p size alignment flags heap wanted. rw wanted refl;
  denied = λ p size alignment flags heap e plain bad q.
      elim (two_alloc-IsGiven p size alignment flags heap plain) [
        | refused _ same ↦ same q
        | given good _ _ _ _ _ _ ↦ absurd (ground (arith, sym good ∙ bad))
      ];
  granted = λ p size alignment flags heap plain good.
      elim (two_alloc-IsGiven p size alignment flags heap plain) [
        | refused bad _ ↦ absurd (bad good)
        | given _ ne fresh d new room others ↦ (ne, fresh, (d, new, room), others)
      ];
  measured = λ p heap c held. rw held refl;
  copied = λ dst src n heap c d old new short fits. (
    (
      over n c d,
      rw (same_place dst, old, new) refl,
      over-length n c d short fits,
      over-take n c d short,
    ),
    λ q ne. rw (==_ne ne) refl,
  );
  freed = λ p heap not_null. (rw (same_place p) refl, λ q ne. rw (==_ne ne) refl);
}

abbrev one_block : Slots
one_block p = if p == 64 then some (1 ∷ 2 ∷ []) else none

abbrev must : Flags
must = record { zeroed = false; nofail = true; realloc = true }

xalloc_ex-IsFaked_example :
    IsFaked held_by one_block 64 4 (1 ∷ 2 ∷ []) (xalloc_ex two 64 4 must 0 one_block)
xalloc_ex-IsFaked_example =
    xalloc_ex-IsFaked two held_by two-IsPlain 64 4 0 must one_block (1 ∷ 2 ∷ [])
      (λ e. absurd (omega (arith, e))) refl refl
