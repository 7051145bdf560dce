-- ===== src/Freadall/Sizes.antt =====
-- What vsclib/freadall.c finds out about a file before it reads, on Linux.
use vsclib.Freadall.System
use vsclib.Prelude.Errno.{Status, success, failure, ebadf, eisdir, enotsup}
use vsclib.Prelude.Words.{mul_size}
use vsclib.Prelude.{ℕ, ◌==◌, if◌then◌else◌}

-- `VscFreadallState`
pub record State : Type 0 where
  pub file_size : ℕ
  pub blk_size : ℕ
  pub bytes_read : ℕ
  pub statbuf : System.Stat

abbrev pub default_state : State
default_state = record {
  file_size = 0;
  blk_size = 4096;
  bytes_read = 0;
  statbuf = record { kind = System.other; size = 0; blksize = 0 };
}

module _ {ℓ} {Stream : Type ℓ} (sys : System.System Stream) where
  unfoldable pub get_size_ioctl : ℕ → System.Value
  get_size_ioctl fd =
      let size64 = sys.ioctl_size64 fd in
      let size = sys.ioctl_size fd in
      if size64.negative
      then if size.negative then System.error size.errno else System.ok (mul_size size.value 512)
      else System.ok size64.value

  unfoldable pub get_blksize_ioctl : ℕ → System.Value
  get_blksize_ioctl fd =
      let blksize = sys.ioctl_ioopt fd in
      if blksize.negative
      then System.error blksize.errno
      else if blksize.value == 0
      then System.error enotsup
      else System.ok blksize.value

  unfoldable pub get_size_seektell : Stream → System.Value × Stream
  unfolding System.ftello System.fseeko
  get_size_seektell f =
      let (r, f1) = System.fseeko sys f 0 System.seek_end in
      elim r [ System.error e ↦ (System.error e, f1) | System.ok _ ↦ (System.ftello sys f1, f1) ]

  -- `size` keeps what it is where the call fails.
  unfoldable pub or_else : ℕ → System.Value → ℕ
  or_else size (System.error e) = size
  or_else size (System.ok n) = n

  unfoldable pub block_sizes : ℕ → State → Stream → State × Stream
  unfolding get_size_ioctl get_blksize_ioctl get_size_seektell or_else
  block_sizes fd state f =
      let blk = or_else state.blk_size (get_blksize_ioctl fd) in
      elim (get_size_ioctl fd) [
        | System.ok size ↦ (record state { file_size = size; blk_size = blk }, f)
        | System.error e ↦
            let (size, f1) = get_size_seektell f in
            (record state { file_size = or_else state.file_size size; blk_size = blk }, f1)
      ]

  -- of an open descriptor, with its `struct stat`
  unfoldable pub sizes_of : ℕ → System.Stat → Stream → Status × State × Stream
  unfolding block_sizes
  sizes_of fd statbuf f =
      let found = record default_state { statbuf = statbuf } in
      let state = record found { blk_size = statbuf.blksize } in
      elim statbuf.kind [
        | System.directory ↦ (failure eisdir, found, f)
        | System.regular ↦ (success, record state { file_size = statbuf.size }, f)
        | System.block_device ↦ let (sized, f1) = block_sizes fd state f in (success, sized, f1)
        | System.other ↦ (success, record state { file_size = 0 }, f)
      ]

  unfoldable pub get_sizes : Stream → Status × State × Stream
  unfolding System.fileno get_size_seektell or_else sizes_of
  get_sizes f = elim (System.fileno sys f) [
    | System.error ebadf ↦
        let (size, f1) = get_size_seektell f in
        (success, record default_state { file_size = or_else 0 size }, f1)
    | System.error e ↦ (failure e, default_state, f)
    | System.ok fd ↦
        let (r, statbuf) = sys.fstat fd in
        if r.negative
        then (failure r.errno, record default_state { statbuf = statbuf }, f)
        else sizes_of fd statbuf f
  ]
