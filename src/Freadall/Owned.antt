-- ===== src/Freadall/Owned.antt =====
-- No buffer is lost: the caller gets the one block that is left, or there is none.
use vsclib.Freadall.System
use vsclib.Freadall.Loop.{
  Procedures, Reading, Result, enlarge, released, reserve, read_chunk, finish, read_loop,
}
use vsclib.Memory.Allocation.{
  Flags, Allocator, is_enotsup, without_realloc, xalloc_ex, pointer, xfree, xrealloc,
}
use vsclib.Prelude.Errno.{Status, success, failure, Errno, enomem, ecanceled, eio}
use vsclib.Prelude.Words.{add_size}
use vsclib.Prelude.{
  ℕ, zero, suc, ◌<◌, Bool, true, false, not, ◌&&◌, ◌||◌, ◌==◌, ==_ne, ==_iff, leb, Bool-cases,
  if◌then◌else◌, Option, none, some, ◌≡◌, ◌≢◌, ◌⊎◌, inl, inr, refl, subst, arith,
}

-- An allocator that can reallocate, where `Owns p heap` says that the block at `p` is the one that
-- the reader has, and with 0 that it has none. The laws are on a new block, which is asked for at NULL
-- without VSC_ALLOC_REALLOC, and on a block that is reallocated, which is asked for with that flag.
pub record IsReallocating {ℓ} {Heap : Type ℓ} (a : Allocator Heap) (Owns : ℕ → Heap → Type ℓ)
    : Type ℓ where
  pub granted :
      (p size alignment : ℕ) (flags : Flags) (heap : Heap)
      → flags.realloc ≡ not (p == 0)
      → Owns p heap
      → (let reply = a.alloc p size alignment flags heap in
          reply.status ≡ success → (reply.block ≢ 0) × Owns reply.block reply.heap)
  pub denied :
      (p size alignment : ℕ) (flags : Flags) (heap : Heap) (e : Errno)
      → flags.realloc ≡ not (p == 0)
      → Owns p heap
      → (let reply = a.alloc p size alignment flags heap in
          reply.status ≡ failure e → (is_enotsup (failure e) ≡ false) × Owns p reply.heap)
  pub freed : (p : ℕ) (heap : Heap) → p ≢ 0 → Owns p heap → Owns 0 (a.free p heap)

module _ {ℓ} {Heap : Type ℓ} (a : Allocator Heap) (Owns : ℕ → Heap → Type ℓ)
    (laws : IsReallocating a Owns) where
  xfree-Owns : (p : ℕ) (heap : Heap) → Owns p heap → Owns 0 (xfree a p heap)
  unfolding xfree
  xfree-Owns p heap own = elim (Bool-cases (p == 0)) [
    | inl null ↦ rw null (subst (λ q. Owns q heap) ((==_iff p 0).0 null) own)
    | inr some_block ↦ rw some_block (laws.freed p heap (λ e. absurd (ground arith)) own)
  ]

  pub data IsReallocated (p : ℕ) : ℕ × Heap → Type ℓ where
    kept_old : {heap : Heap} → Owns p heap → IsReallocated p (0, heap)
    got_new : {q : ℕ} {heap : Heap} → q ≢ 0 → Owns q heap → IsReallocated p (q, heap)

  wanted : Flags
  wanted = record { zeroed = false; nofail = false; realloc = true }

  asked_as_needed :
      (p : ℕ) → Flags.realloc (if p == 0 then without_realloc wanted else wanted) ≡ not (p == 0)
  unfolding wanted
  asked_as_needed p =
      elim (p == 0) as (λ b. Flags.realloc (if b then without_realloc wanted else wanted) ≡ not b) [
        | true ↦ refl
        | false ↦ refl
      ]

  xalloc_ex-IsReallocated :
      (p size : ℕ) (heap : Heap) (st : Status)
      → Owns p heap
      → (a.alloc p size a.alignment (if p == 0 then without_realloc wanted else wanted) heap).status
        ≡ st
      → IsReallocated p (pointer a heap (xalloc_ex a p size wanted 0 heap))
  unfolding wanted xalloc_ex pointer is_enotsup
  xalloc_ex-IsReallocated p size heap success own e =
      let asked = if p == 0 then without_realloc wanted else wanted in
      let (some_block, own1) =
        laws.granted p size a.alignment asked heap (asked_as_needed p) own e in
      rw (e, e) (got_new some_block own1)
  xalloc_ex-IsReallocated p size heap (failure err) own e =
      let asked = if p == 0 then without_realloc wanted else wanted in
      let (real, own1) = laws.denied p size a.alignment asked heap err (asked_as_needed p) own e in
      let nofail : asked.nofail ≡ false =
        elim (p == 0) as (λ b. (if b then without_realloc wanted else wanted).nofail ≡ false) [
          | true ↦ refl
          | false ↦ refl
        ] in
      let given : pointer a heap (xalloc_ex a p size wanted 0 heap)
          ≡ (0, (a.alloc p size a.alignment asked heap).heap) =
        rw (e, real, nofail) (rw e refl) in
      rw given (kept_old own1)

  xrealloc-IsReallocated :
      (p size : ℕ) (heap : Heap) → 0 < size → Owns p heap → IsReallocated p (xrealloc a p size heap)
  unfolding xrealloc wanted
  xrealloc-IsReallocated p size heap pos own =
      let asked = if p == 0 then without_realloc wanted else wanted in
      let large : (size == 0) ≡ false = ==_ne (λ e. absurd (omega (arith, e))) in
      rw large (
        xalloc_ex-IsReallocated p size heap (a.alloc p size a.alignment asked heap).status own refl)

module _ {ℓ} {Heap Stream User : Type ℓ} (a : Allocator Heap) (sys : System.System Stream)
    (procedures : Procedures User) (Owns : ℕ → Heap → Type ℓ) (laws : IsReallocating a Owns) where
  -- the buffer of the result is the one block that is left, and an error leaves none
  pub data IsOwned : Option (Result Heap Stream User) → Type ℓ where
    no_result : IsOwned none
    owned :
        {res : Result Heap Stream User}
        → Owns res.ptr res.heap
        → (res.status ≡ success) ⊎ (res.ptr ≡ 0)
        → IsOwned (some res)

  data IsReserved (r : Reading Heap Stream User)
      : Option (Bool × Reading Heap Stream User) → Type ℓ where
    no_fuel : IsReserved r none
    reserved :
        {b : Bool} {r1 : Reading Heap Stream User} → Owns r1.p r1.heap → IsReserved r (some (b, r1))

  enlarge-lt :
      (fuel n blk size : ℕ)
      → (enlarge fuel n blk size ≡ none)
        ⊎ ((size' : ℕ) × (enlarge fuel n blk size ≡ some size') × (n < size'))
  unfolding enlarge
  enlarge-lt zero n blk size = inl refl
  enlarge-lt (suc fuel) n blk size = elim (Bool-cases (leb size n)) [
    | inl small ↦ rw small (enlarge-lt fuel n blk (add_size size blk))
    | inr large ↦ inr (size, rw large refl, ground arith)
  ]

  reserve-IsReserved :
      (fuel : ℕ) (r : Reading Heap Stream User)
      → Owns r.p r.heap
      → IsReserved r (reserve a sys procedures fuel r)
  unfolding reserve
  reserve-IsReserved fuel r own =
      elim (Bool-cases (r.p == 0 || leb r.state.file_size r.state.bytes_read)) [
        | inr enough ↦ rw enough (reserved own)
        | inl short ↦ elim (enlarge-lt fuel r.state.bytes_read r.state.blk_size r.state.file_size) [
          | inl none_left ↦ rw (short, none_left) no_fuel
          | inr (size, found, more) ↦
              rw (short, found)
                (by_answer size (xrealloc a r.p size r.heap)
                  (xrealloc-IsReallocated a Owns laws r.p size r.heap (omega arith) own))
        ]
      ]
    where
      by_answer :
          (size : ℕ) (answer : ℕ × Heap)
          → IsReallocated a Owns laws r.p answer
          → IsReserved r (
              let (p, heap) = answer in
              let grown = record r.state { file_size = size } in
              if p == 0
              then some (false, record r { state = grown; heap = heap })
              else some (true, record r { p = p; state = grown; heap = heap }))
      by_answer size answer (kept_old own1) = reserved own1
      by_answer size answer (got_new {q} ne own1) = rw (==_ne ne) (reserved own1)

  released-IsOwned :
      (e : Errno) (r : Reading Heap Stream User)
      → Owns r.p r.heap
      → IsOwned (some (released a sys procedures (failure e) r))
  unfolding released
  released-IsOwned e r own = owned (xfree-Owns a Owns laws r.p r.heap own) (inr refl)

  finish-IsOwned :
      (r : Reading Heap Stream User) → Owns r.p r.heap → IsOwned (some (finish a sys procedures r))
  unfolding finish
  finish-IsOwned r own = elim (Bool-cases (sys.ferror r.stream)) [
    | inl broken ↦ rw broken (released-IsOwned eio r own)
    | inr fine ↦ rw fine (owned own (inl refl))
  ]

  pub read_loop-IsOwned :
      (fuel : ℕ) (r : Reading Heap Stream User)
      → Owns r.p r.heap
      → IsOwned (read_loop a sys procedures fuel r)
  unfolding read_loop read_chunk
  read_loop-IsOwned zero r own = no_result
  read_loop-IsOwned (suc fuel) r own =
      elim (Bool-cases (not (sys.feof r.stream) && not (sys.ferror r.stream))) [
        | inr over ↦ rw over (finish-IsOwned r own)
        | inl more ↦ rw more (
            by_room (λ r1 own1. read_loop-IsOwned fuel r1 own1)
              (reserve a sys procedures (suc fuel) r) (reserve-IsReserved (suc fuel) r own))
      ]
    where
      by_room :
          ((r1 : Reading Heap Stream User)
            → Owns r1.p r1.heap
            → IsOwned (read_loop a sys procedures fuel r1))
          → (room : Option (Bool × Reading Heap Stream User)) → IsReserved r room
          → IsOwned (elim room [
            | none ↦ none
            | some (false, r1) ↦ some (released a sys procedures (failure enomem) r1)
            | some (true, r1) ↦
                let r2 = read_chunk a sys procedures r1 in
                let (negative, user) = procedures.chunk r2.state r2.user in
                let r3 = record r2 { user = user } in
                let rest = read_loop a sys procedures fuel r3 in
                if negative then some (released a sys procedures (failure ecanceled) r3) else rest
          ])
      by_room next none no_fuel = no_result
      by_room next (some (false, r1)) (reserved own1) = released-IsOwned enomem r1 own1
      by_room next (some (true, r1)) (reserved own1) =
          let r2 = read_chunk a sys procedures r1 in
          let negative = (procedures.chunk r2.state r2.user).0 in
          let r3 = record r2 { user = (procedures.chunk r2.state r2.user).1 } in
          elim (Bool-cases negative) [
            | inl canceled ↦ rw canceled (released-IsOwned ecanceled r3 own1)
            | inr go_on ↦ rw go_on (next r3 own1)
          ]
