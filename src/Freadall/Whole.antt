-- ===== src/Freadall/Whole.antt =====
-- `vsc_freadalla_ex` and `vsc_freadalla` of vsclib/freadall.c.
use vsclib.Freadall.System
use vsclib.Freadall.Loop.{Procedures, Result, read_loop}
use vsclib.Freadall.Sizes.{State, get_sizes}
use vsclib.Memory.Allocation.{Allocator}
use vsclib.Prelude.Errno.{Status, success, failure, Errno, einval, eperm, ebadf, espipe, ecanceled}
use vsclib.Prelude.Words.{add_size, sub_size}
use vsclib.Prelude.{ℕ, [], Bool, true, false, ltb, if◌then◌else◌, Option, some}

-- a stream that has no position
unfoldable pub not_seekable : Errno → Bool
not_seekable ebadf = true
not_seekable espipe = true
not_seekable _ = false

-- the size of the first buffer
unfoldable pub first_size : State → State
first_size state =
    if ltb 0 state.file_size
    then record state { file_size = add_size state.file_size 1 }
    else record state { file_size = state.blk_size }

module _ {ℓ} {Heap Stream User : Type ℓ} (a : Allocator Heap) (sys : System.System Stream)
    (procedures : Procedures User) where
  -- what is returned before there is a buffer
  unfoldable pub stopped : Status → Heap → Stream → User → Result Heap Stream User
  stopped status heap stream user = record {
    status = status;
    ptr = 0;
    size = 0;
    contents = [];
    heap = heap;
    stream = stream;
    user = user;
  }

  -- from the "init" callback on
  unfoldable pub read_sized : ℕ → State → Heap → Stream → User → Option (Result Heap Stream User)
  unfolding first_size stopped read_loop
  read_sized fuel found heap f user =
      let state = record (first_size found) { bytes_read = 0 } in
      let (negative, tweaked, user1) = procedures.init state user in
      if negative
      then some (stopped (failure ecanceled) heap f user1)
      else read_loop a sys procedures fuel (record {
        p = 0;
        state = record state { file_size = tweaked.file_size; blk_size = tweaked.blk_size };
        contents = [];
        heap = heap;
        stream = f;
        user = user1;
      })

  -- the position is restored, `position` bytes behind the start
  unfoldable pub restored :
      ℕ → ℕ → State → Heap → User → System.Value × Stream → Option (Result Heap Stream User)
  unfolding stopped read_sized
  restored fuel position state heap user (System.error e, f) =
      some (stopped (failure e) heap f user)
  restored fuel position state heap user (System.ok _, f) =
      let left = record state { file_size = sub_size state.file_size position } in
      let sized = if ltb 0 state.file_size then left else state in read_sized fuel sized heap f user

  -- what `get_sizes` found, with the saved position
  unfoldable pub sized_up :
      ℕ → System.Value → Heap → User → Status × State × Stream → Option (Result Heap Stream User)
  unfolding System.fseeko stopped read_sized restored
  sized_up fuel save heap user (failure e, state, f) = some (stopped (failure e) heap f user)
  sized_up fuel (System.error _) heap user (success, state, f) = read_sized fuel state heap f user
  sized_up fuel (System.ok position) heap user (success, state, f) =
      restored fuel position state heap user (System.fseeko sys f position System.seek_set)

  -- with what `vsc_ftello` says
  unfoldable pub read_from :
      ℕ → Heap → Stream → User → System.Value → Option (Result Heap Stream User)
  unfolding get_sizes not_seekable stopped sized_up
  read_from fuel heap f user (System.ok position) =
      sized_up fuel (System.ok position) heap user (get_sizes sys f)
  read_from fuel heap f user (System.error e) =
      if not_seekable e
      then sized_up fuel (System.error e) heap user (get_sizes sys f)
      else some (stopped (failure eperm) heap f user)

  -- `null_argument` says that a pointer is NULL.
  unfoldable pub freadalla_ex : ℕ → Bool → Heap → Stream → User → Option (Result Heap Stream User)
  unfolding System.ftello stopped read_from
  freadalla_ex fuel null_argument heap f user =
      if null_argument
      then some (stopped (failure einval) heap f user)
      else read_from fuel heap f user (System.ftello sys f)

-- the procedures that always allow to continue
unfoldable pub default_procedures {ℓ} : {User : Type ℓ} → Procedures User
default_procedures = record {
  init = λ state user. (false, state, user);
  chunk = λ state user. (false, user);
}

unfoldable pub freadalla {ℓ} :
    {Heap Stream User : Type ℓ}
    → Allocator Heap
    → System.System Stream
    → ℕ
    → Bool
    → Heap
    → Stream
    → User
    → Option (Result Heap Stream User)
unfolding default_procedures freadalla_ex
freadalla a sys fuel null_argument heap f user =
    freadalla_ex a sys default_procedures fuel null_argument heap f user
