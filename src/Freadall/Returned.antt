-- ===== src/Freadall/Returned.antt =====
-- That `vsc_freadalla_ex` loses no buffer.
use vsclib.Freadall.System
use vsclib.Prelude.Errno.{Errno}
