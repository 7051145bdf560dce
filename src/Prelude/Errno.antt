-- ===== src/Prelude/Errno.antt =====
-- The error values that the functions return: `VSC_ERROR(x)` for the errno `x`, and `VSC_ERROR_EOF`.
-- A function that returns 0 or a negative error value returns a `Status`.

pub data Errno : Type 0 where
  einval erange enomem eperm enospc enotsup enoent eacces eio ecanceled eoverflow eof : Errno
  ebadf espipe eisdir : Errno

pub data Status : Type 0 where
  success : Status
  failure : Errno → Status
