-- ===== src/Freadall/Ending.antt =====
-- That `vsc_freadalla` reads a regular file to its end.
use vsclib.Freadall.System
use vsclib.Freadall.Sizes.{State}
use vsclib.Prelude.Words.{sub_size}
use vsclib.Prelude.{ℕ, ltb, if◌then◌else◌}

-- the size that is left, which `first_size` then takes
left_over : ℕ → State → State
left_over position state =
    if ltb 0 state.file_size
    then record state { file_size = sub_size state.file_size position }
    else state
