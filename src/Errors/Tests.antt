-- ===== src/Errors/Tests.antt =====
-- Printing of error values to a stream that takes every text.
use vsclib.Errors.Kinds.{appends}
use vsclib.Errors.Printing.{isprint, message_of, vfperror}
use vsclib.Errors.Values.{error, mkerr, error_eof}
use vsclib.Prelude.Bytes.{codes}
use vsclib.Prelude.{ℕ, ◌+◌, List, [], ◌∷◌, ◌++◌, ◌≡◌, refl}

abbrev messages : ℕ → ℕ × List ℕ
messages n = (0, codes "E" ++ (0x30 + n) ∷ [])

program : Unit {0}
unfolding vfperror mkerr error error_eof message_of isprint
program = tt

end_of_file :
    vfperror appends messages 0 error_eof (codes "f") [] ≡ (0, codes "f: End of file" ++ 10 ∷ [])
unfolding program
end_of_file = refl

-- 0 is a value of the system
no_error : vfperror appends messages 0 0 (codes "f") [] ≡ (0, codes "f: E0" ++ 10 ∷ [])
unfolding program
no_error = refl

not_printed :
    vfperror appends messages 0 (mkerr 0 1 0xab) (codes "f") []
    ≡ (0, codes "f: Unknown error 0x200001ab" ++ 10 ∷ [])
unfolding program
not_printed = refl
