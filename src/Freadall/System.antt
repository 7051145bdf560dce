-- ===== src/Freadall/System.antt =====
-- The calls of the system that vsclib/freadall.c uses, which are parameters, and the wrappers of
-- vsclib/stdio.c around them.
use vsclib.Prelude.Errno.{Errno}
use vsclib.Prelude.{ℕ, List, Bool, if◌then◌else◌}

-- an integer that a call returns, with the `errno` that it leaves
pub record Return : Type 0 where
  pub negative : Bool
  pub value : ℕ
  pub errno : Errno

pub data Whence : Type 0 where
  seek_set seek_end : Whence

-- `st_mode` by the tests `S_ISREG`, `S_ISDIR` and `S_ISBLK`
pub data Kind : Type 0 where
  regular directory block_device other : Kind

-- `struct stat`
pub record Stat : Type 0 where
  pub kind : Kind
  pub size : ℕ
  pub blksize : ℕ

pub record System {ℓ} (Stream : Type ℓ) : Type ℓ where
  pub fileno : Stream → Return
  pub ftello : Stream → Return
  pub fseeko : Stream → ℕ → Whence → Return × Stream
  -- the call's status, and what it writes
  pub fstat : ℕ → Return × Stat
  -- `BLKGETSIZE64`, `BLKGETSIZE` and `BLKIOOPT`, with what they write
  pub ioctl_size64 : ℕ → Return
  pub ioctl_size : ℕ → Return
  pub ioctl_ioopt : ℕ → Return
  pub feof : Stream → Bool
  pub ferror : Stream → Bool
  -- the bytes that are read
  pub fread : ℕ → Stream → List ℕ × Stream

-- an error value, or a number
pub data Value : Type 0 where
  error : Errno → Value
  ok : ℕ → Value

unfoldable pub checked : Return → Value
checked r = if r.negative then error r.errno else ok r.value

module _ {ℓ} {Stream : Type ℓ} (sys : System Stream) where
  -- `vsc_fileno`, `vsc_ftello` and `vsc_fseeko`
  unfoldable pub fileno : Stream → Value
  unfolding checked
  fileno f = checked (sys.fileno f)

  unfoldable pub ftello : Stream → Value
  unfolding checked
  ftello f = checked (sys.ftello f)

  unfoldable pub fseeko : Stream → ℕ → Whence → Value × Stream
  unfolding checked
  fseeko f offset whence = let (r, f1) = sys.fseeko f offset whence in (checked r, f1)
