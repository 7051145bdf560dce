-- ===== src/Errors/Kinds.antt =====
-- What the error values of vsclib/include/vsclib/error.h are, and what `vsc_vfperror` prints of them.
use vsclib.Prelude.{ℕ, Bool, true, List, ◌++◌}

-- a stream that takes every text
abbrev pub appends : List ℕ → List ℕ → Bool × List ℕ
appends text s = (true, s ++ text)
