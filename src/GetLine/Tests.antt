-- ===== src/GetLine/Tests.antt =====
-- Reading lines at concrete inputs.
use vsclib.Prelude.{[], ◌∷◌, true, some, ◌≡◌, refl, arith}
use vsclib.GetLine.Reading.{Stream, at_end, byte, done, Heap, getdelima, getlinea}
use vsclib.GetLine.Lines.{stop, further, Read, getdelima-Read}

abbrev generous : Heap
generous = record { grants = λ n. true; junk = 0xcd }

abbrev two_lines : Stream
two_lines = byte b'a' (byte b'\n' (byte b'b' at_end))

-- a buffer of one byte grows to two, then to four
grows :
    getlinea generous (some (0 ∷ [])) two_lines
    ≡ done 2 (b'a' ∷ b'\n' ∷ 0 ∷ 0xcd ∷ []) (byte b'b' at_end)
unfolding getlinea
grows = refl

getdelima-Read_example :
    Read (getdelima generous (some (0 ∷ [])) b'\n' two_lines) (b'a' ∷ b'\n' ∷ []) (byte b'b' at_end)
getdelima-Read_example =
    getdelima-Read generous b'\n' (some (0 ∷ [])) (λ n. refl)
      (further (λ e. absurd (omega (arith, e))) stop) (omega arith) (omega arith) (omega arith)
