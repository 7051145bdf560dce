-- ===== src/Wav/Fill.antt =====
-- A buffer that is written from its front.
use vsclib.Io.Endian.{to_memory, put, write_uint}
use vsclib.Io.Transfer.{put-append, length-to_memory, length-put}
use vsclib.Prelude.{
  ℕ, ◌+◌, ◌≤◌, List, [], ◌∷◌, ◌++◌, length, length-append, append_nil, drop, ◌≡◌, sym, ap, ◌∙◌,
  arith,
}

-- the buffer of a header, with what has been written
pub record IsFilled (buf front : List ℕ) : Type 0 where
  pub rest : List ℕ
  pub split : buf ≡ front ++ rest
  pub size : length buf ≡ 44

pub write_uint-IsFilled :
    {buf front : List ℕ} (size p v : ℕ)
    → IsFilled buf front
    → length front ≡ p
    → p + size ≤ 44
    → IsFilled (write_uint size buf p v) (front ++ to_memory size v)
unfolding write_uint
write_uint-IsFilled {buf} {front} size p v filled at h =
    let bytes = to_memory size v in
    let len = length-to_memory size v in
    let total : length front + length filled.rest ≡ 44 =
      sym (length-append front filled.rest) ∙ ap length (sym filled.split) ∙ filled.size in
    let done : put buf p bytes ≡ (front ++ bytes) ++ drop (length bytes) filled.rest =
      rw (filled.split, sym at) (put-append front bytes filled.rest (omega arith)) in
    record {
      rest = drop (length bytes) filled.rest;
      split = done;
      size = length-put buf p bytes ∙ filled.size;
    }

pub whole : {buf front : List ℕ} → IsFilled buf front → length front ≡ 44 → buf ≡ front
whole {buf} {front} filled h =
    let total : length front + length filled.rest ≡ 44 =
      sym (length-append front filled.rest) ∙ ap length (sym filled.split) ∙ filled.size in
    filled.split ∙ no_rest filled.rest (omega arith)
  where
    no_rest : (rest : List ℕ) → length rest ≡ 0 → front ++ rest ≡ front
    no_rest [] e = append_nil front
    no_rest (x ∷ rest) e = absurd (omega arith)
