-- ===== src/Freadall/Tests.antt =====
-- A file that is a list of bytes with a position, and a heap that counts its blocks.
use vsclib.Freadall.System
use vsclib.Freadall.Loop.{Procedures}
use vsclib.Freadall.Whole.{default_procedures}
use vsclib.Memory.Allocation.{Allocator}
use vsclib.Prelude.Errno.{success, ebadf}
use vsclib.Prelude.{ℕ, suc, ◌-◌, List, length, take, drop, Bool, false, ltb, if◌then◌else◌, ◌≢◌}

-- what is left, and whether the end was found
abbrev Tape : Type 0
Tape = List ℕ × Bool

abbrev fine_call : ℕ → System.Return
fine_call n = record { negative = false; value = n; errno = ebadf }

abbrev tape_stat : System.Stat
tape_stat = record { kind = System.regular; size = 9; blksize = 4 }

-- The file has 9 bytes according to its `struct stat`, and stands at byte 2.
abbrev tape : System.System Tape
tape = record {
  fileno = λ f. fine_call 3;
  ftello = λ f. fine_call 2;
  fseeko = λ f offset whence. (fine_call 0, (f.0, false));
  fstat = λ fd. (fine_call 0, tape_stat);
  ioctl_size64 = fine_call;
  ioctl_size = fine_call;
  ioctl_ioopt = fine_call;
  feof = λ f. f.1;
  ferror = λ f. false;
  fread = λ n f. (take n f.0, (drop n f.0, ltb (length f.0) n));
}

-- The heap counts its blocks, and every block stands at 64. Without the flag a block is not
-- reallocated but there is one more.
abbrev counting : Allocator ℕ
counting = record {
  alloc = λ ptr size alignment flags heap. record {
    status = success;
    block = 64;
    heap = if flags.realloc then heap else suc heap;
  };
  free = λ p heap. heap - 1;
  size = λ p heap. 0;
  memcpy = λ dst src n heap. heap;
  alignment = 8;
}

-- `p` is the one block, or there is none
data HasBlock : ℕ → ℕ → Type 0 where
  no_block : HasBlock 0 0
  one_block : {p : ℕ} → p ≢ 0 → HasBlock p 1

-- procedures that keep a number
abbrev still : Procedures ℕ
still = default_procedures
