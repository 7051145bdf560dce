-- ===== src/Freadall/Loop.antt =====
-- The reading loop of `vsc_freadalla_ex`, on fuel. The buffer's bytes up to `bytes_read` are a list,
-- which `vsc_xrealloc` keeps. What runs out of fuel is `none`.
use vsclib.Freadall.System
use vsclib.Freadall.Sizes.{State}
use vsclib.Memory.Allocation.{Allocator, xfree, xrealloc}
use vsclib.Prelude.Errno.{Status, success, failure, enomem, ecanceled, eio}
use vsclib.Prelude.Words.{add_size, sub_size}
use vsclib.Prelude.{
  ℕ, zero, suc, List, [], ◌++◌, length, Bool, true, false, not, ◌&&◌, ◌||◌, ◌==◌, leb,
  if◌then◌else◌, Option, none, some,
}

-- `while(state.bytes_read >= state.file_size)`
unfoldable pub enlarge : ℕ → ℕ → ℕ → ℕ → Option ℕ
enlarge zero bytes_read blk_size file_size = none
enlarge (suc fuel) bytes_read blk_size file_size =
    let rest = enlarge fuel bytes_read blk_size (add_size file_size blk_size) in
    if leb file_size bytes_read then rest else some file_size

-- the two procedures: whether they return a negative number, and what they do to `user`
pub record Procedures {ℓ} (User : Type ℓ) : Type ℓ where
  pub init : State → User → Bool × State × User
  pub chunk : State → User → Bool × User

-- the loop's variables
pub record Reading {ℓ} (Heap Stream User : Type ℓ) : Type ℓ where
  pub p : ℕ
  pub state : State
  pub contents : List ℕ
  pub heap : Heap
  pub stream : Stream
  pub user : User

-- the buffer that the caller gets, or NULL
pub record Result {ℓ} (Heap Stream User : Type ℓ) : Type ℓ where
  pub status : Status
  pub ptr : ℕ
  pub size : ℕ
  pub contents : List ℕ
  pub heap : Heap
  pub stream : Stream
  pub user : User

module _ {ℓ} {Heap Stream User : Type ℓ} (a : Allocator Heap) (sys : System.System Stream)
    (procedures : Procedures User) where
  -- what is returned after `vsc_xfree`
  unfoldable pub released : Status → Reading Heap Stream User → Result Heap Stream User
  unfolding xfree
  released status r = record {
    status = status;
    ptr = 0;
    size = 0;
    contents = [];
    heap = xfree a r.p r.heap;
    stream = r.stream;
    user = r.user;
  }

  -- the buffer has room for `file_size`, or there is none
  unfoldable pub reserve : ℕ → Reading Heap Stream User → Option (Bool × Reading Heap Stream User)
  unfolding enlarge xrealloc
  reserve fuel r =
      if r.p == 0 || leb r.state.file_size r.state.bytes_read
      then elim (enlarge fuel r.state.bytes_read r.state.blk_size r.state.file_size) [
        | none ↦ none
        | some file_size ↦
            let (p, heap) = xrealloc a r.p file_size r.heap in
            let grown = record r.state { file_size = file_size } in
            if p == 0
            then some (false, record r { state = grown; heap = heap })
            else some (true, record r { p = p; state = grown; heap = heap })
      ]
      else some (true, r)

  -- one call of `fread`
  unfoldable pub read_chunk : Reading Heap Stream User → Reading Heap Stream User
  read_chunk r =
      let room = sub_size r.state.file_size r.state.bytes_read in
      let (bytes, stream) = sys.fread room r.stream in
      record r {
        state = record r.state { bytes_read = add_size r.state.bytes_read (length bytes) };
        contents = r.contents ++ bytes;
        stream = stream;
      }

  unfoldable pub finish : Reading Heap Stream User → Result Heap Stream User
  unfolding released
  finish r = if sys.ferror r.stream then released (failure eio) r else record {
    status = success;
    ptr = r.p;
    size = r.state.bytes_read;
    contents = r.contents;
    heap = r.heap;
    stream = r.stream;
    user = r.user;
  }

  unfoldable pub read_loop : ℕ → Reading Heap Stream User → Option (Result Heap Stream User)
  unfolding reserve read_chunk finish released
  read_loop zero r = none
  read_loop (suc fuel) r =
      if not (sys.feof r.stream) && not (sys.ferror r.stream)
      then elim (reserve (suc fuel) r) [
        | none ↦ none
        | some (false, r1) ↦ some (released (failure enomem) r1)
        | some (true, r1) ↦
            let r2 = read_chunk r1 in
            let (negative, user) = procedures.chunk r2.state r2.user in
            let r3 = record r2 { user = user } in
            let rest = read_loop fuel r3 in
            if negative then some (released (failure ecanceled) r3) else rest
      ]
      else some (finish r)
