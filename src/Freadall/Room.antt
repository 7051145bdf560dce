-- ===== src/Freadall/Room.antt =====
-- What a stream without errors and an ample allocator do, and that they make room for the next read.
use vsclib.Freadall.System
use vsclib.Freadall.Loop.{Procedures, Reading, enlarge, reserve}
use vsclib.Memory.Allocation.{
  Flags, Allocator, is_enotsup, pointer, xalloc_ex, xrealloc, without_realloc,
}
use vsclib.Prelude.Errno.{success}
use vsclib.Prelude.Words.{add_size}
use vsclib.Prelude.{
  ℕ, zero, suc, ◌+◌, ◌<◌, ◌^◌, List, length, take, drop, true, false, ◌||◌, ◌==◌, ==_ne, leb, ltb,
  Bool-cases, if◌then◌else◌, some, ◌≡◌, ◌≢◌, inl, inr, refl, arith,
}

-- the buffer is large enough at last
enlarge_enough :
    (fuel n blk size : ℕ)
    → 0 < blk
    → n + blk < 2 ^ 64
    → size < 2 ^ 64
    → n < size + fuel
    → (size' : ℕ) × (enlarge (suc fuel) n blk size ≡ some size') × (n < size') × (size' < 2 ^ 64)
unfolding enlarge
enlarge_enough zero n blk size pos fits small enough = (size, rw large refl, omega arith, small)
  where
    large : leb size n ≡ false
    large = ground arith
enlarge_enough (suc fuel) n blk size pos fits small enough = elim (Bool-cases (leb size n)) [
  | inr large ↦ (size, rw large refl, ground arith, small)
  | inl short ↦
      let sum : add_size size blk ≡ size + blk = ground arith in
      let (size', found, more, word) =
        enlarge_enough fuel n blk (add_size size blk) pos fits (ground arith) (ground arith) in
      (size', rw short found, more, word)
]

-- A stream without errors, with the bytes that are left in it. `fread` reads all that is asked for,
-- or what is left, and then finds the end.
pub record IsSource {ℓ} {Stream : Type ℓ} (sys : System.System Stream) (left : Stream → List ℕ)
    : Type ℓ where
  pub fine : (s : Stream) → sys.ferror s ≡ false
  pub bytes : (n : ℕ) (s : Stream) → (sys.fread n s).0 ≡ take n (left s)
  pub rest : (n : ℕ) (s : Stream) → left (sys.fread n s).1 ≡ drop n (left s)
  pub ends : (n : ℕ) (s : Stream) → sys.feof (sys.fread n s).1 ≡ ltb (length (left s)) n

-- an allocator that has always room
pub record IsAmple {ℓ} {Heap : Type ℓ} (a : Allocator Heap) : Type ℓ where
  pub grants :
      (p size alignment : ℕ) (flags : Flags) (heap : Heap)
      → (a.alloc p size alignment flags heap).status ≡ success
  pub blocks :
      (p size alignment : ℕ) (flags : Flags) (heap : Heap)
      → (a.alloc p size alignment flags heap).block ≢ 0

wanted : Flags
wanted = record { zeroed = false; nofail = false; realloc = true }

pub xrealloc-IsAmple {ℓ} :
    {Heap : Type ℓ} (a : Allocator Heap) (p size : ℕ) (heap : Heap)
    → IsAmple a
    → 0 < size
    → (xrealloc a p size heap).0 ≢ 0
unfolding wanted xrealloc xalloc_ex pointer is_enotsup
xrealloc-IsAmple a p size heap ample pos =
    let large : (size == 0) ≡ false = ==_ne (λ e. absurd (omega (arith, e))) in
    let asked = if p == 0 then without_realloc wanted else wanted in
    let given : xrealloc a p size heap
        ≡ (let reply = a.alloc p size a.alignment asked heap in (reply.block, reply.heap)) =
      rw (large, ample.grants p size a.alignment asked heap)
        (rw (ample.grants p size a.alignment asked heap) refl) in
    rw given (ample.blocks p size a.alignment asked heap)

module _ {ℓ} {Heap Stream User : Type ℓ} (a : Allocator Heap) (sys : System.System Stream)
    (procedures : Procedures User) (ample : IsAmple a) where
  -- a buffer with room behind what has been read
  pub record IsRoomy (r r1 : Reading Heap Stream User) : Type ℓ where
    pub p : r1.p ≢ 0
    pub contents : r1.contents ≡ r.contents
    pub stream : r1.stream ≡ r.stream
    pub bytes_read : r1.state.bytes_read ≡ r.state.bytes_read
    pub blk_size : r1.state.blk_size ≡ r.state.blk_size
    pub more : r.state.bytes_read < r1.state.file_size
    pub word : r1.state.file_size < 2 ^ 64

  pub reserve-IsRoomy :
      (fuel : ℕ) (r : Reading Heap Stream User)
      → 0 < r.state.blk_size
      → r.state.bytes_read + r.state.blk_size < 2 ^ 64
      → r.state.file_size < 2 ^ 64
      → r.state.bytes_read < fuel
      → (r1 : Reading Heap Stream User) × (reserve a sys procedures (suc fuel) r ≡ some (true, r1))
        × IsRoomy r r1
  unfolding reserve
  reserve-IsRoomy fuel r pos fits word enough =
      elim (Bool-cases (r.p == 0 || leb r.state.file_size r.state.bytes_read)) [
        | inr room ↦ (
          r,
          rw room refl,
          record {
            p = λ e. absurd (ground (arith, e));
            contents = refl;
            stream = refl;
            bytes_read = refl;
            blk_size = refl;
            more = ground arith;
            word = word;
          },
        )
        | inl short ↦
            let (size, found, more, word') =
              enlarge_enough fuel r.state.bytes_read r.state.blk_size r.state.file_size pos fits
                word (omega arith) in
            let some_block = xrealloc-IsAmple a r.p size r.heap ample (omega arith) in
            let (p, heap) = xrealloc a r.p size r.heap in
            let grown = record r.state { file_size = size } in
            (
              record r { p = p; state = grown; heap = heap },
              rw (short, found, ==_ne some_block) refl,
              record {
                p = some_block;
                contents = refl;
                stream = refl;
                bytes_read = refl;
                blk_size = refl;
                more = more;
                word = word';
              },
            )
      ]
