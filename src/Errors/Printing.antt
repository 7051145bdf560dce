-- ===== src/Errors/Printing.antt =====
-- `vsc_vfperror` of vsclib/error.c. The stream is any type with a `print` that says whether it took the
-- text; `strerror_r` gives what it returns and what it leaves in the buffer.
use Prim.Native.Nat.{bit_and}
use vsclib.Errors.Values.{
  neg_int, error, unerror, is_system, error_eof, error_stackoflow, error_stackuflow,
}
use vsclib.Prelude.Bytes.{codes}
use vsclib.Prelude.{
  ℕ, zero, suc, ◌+◌, ◌-◌, ◌/◌, ◌%◌, ◌^◌, Bool, not, ◌||◌, ◌==◌, ltb, leb, if◌then◌else◌, List, [],
  ◌∷◌, ◌++◌, Option, none, some,
}

unfoldable pub isprint : ℕ → Bool
isprint c = ltb ((c + 2 ^ 32 - 0x20) % 2 ^ 32) 0x5f

-- the messages of the `switch`
unfoldable pub message_of : ℕ → Option (List ℕ)
unfolding error_eof error_stackoflow error_stackuflow
message_of err =
    if err == 0
    then some (codes "Success")
    else if err == error_eof
    then some (codes "End of file")
    else if err == error_stackoflow
    then some (codes "Stack overflow")
    else if err == error_stackuflow
    then some (codes "Stack underflow")
    else none

-- `%08x`
unfoldable pub hex_digit : ℕ → ℕ
hex_digit n = if ltb n 10 then 0x30 + n else 0x57 + n

unfoldable pub hex_digits : ℕ → ℕ → List ℕ
unfolding hex_digit
hex_digits zero n = []
hex_digits (suc k) n = hex_digits k (n / 16) ++ hex_digit (n % 16) ∷ []

-- the byte of `-err` above `shift` bits
unfoldable pub letter : ℕ → ℕ → ℕ
letter err shift = bit_and (neg_int err / 2 ^ shift) 0xFF

unfoldable pub letters : ℕ → List ℕ
unfolding letter
letters err = letter err 24 ∷ letter err 16 ∷ letter err 8 ∷ letter err 0 ∷ []

unfoldable pub unknown : ℕ → List ℕ
unfolding isprint letter letters hex_digits
unknown err =
    if not (isprint (letter err 24))
      || not (isprint (letter err 16))
      || not (isprint (letter err 8))
      || not (isprint (letter err 0))
    then codes ": Unknown error 0x" ++ hex_digits 8 (neg_int err) ++ 10 ∷ []
    else codes ": Unknown error '" ++ letters err ++ codes "'" ++ 10 ∷ []

-- what follows the caller's text
unfoldable pub described : ℕ → Option (List ℕ) → List ℕ
unfolding unknown
described err none = unknown err
described err (some errmsg) = codes ": " ++ errmsg ++ 10 ∷ []

module _ {ℓ} {S : Type ℓ} (print : List ℕ → S → Bool × S) (strerror_r : ℕ → ℕ × List ℕ)
    (errno : ℕ) where
  -- `EIO` is 5
  unfoldable pub put_description : ℕ → Option (List ℕ) → S → ℕ × S
  unfolding described error
  put_description err errmsg s =
      let (ok, s') = print (described err errmsg) s in if ok then (0, s') else (error 5, s')

  unfoldable pub vfperror : ℕ → List ℕ → S → ℕ × S
  unfolding put_description is_system unerror error message_of
  vfperror err text s =
      let (ok, s') = print text s in
      let (r, errbuf) = strerror_r (unerror err) in
      if not ok
      then (error errno, s')
      else if is_system err
      then if leb (2 ^ 31) r then (error errno, s') else put_description err (some errbuf) s'
      else put_description err (message_of err) s'
