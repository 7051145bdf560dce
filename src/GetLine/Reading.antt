-- ===== src/GetLine/Reading.antt =====
-- The functions of vsclib/getline.c. A buffer is the list of its bytes, and `*n` its length.
use vsclib.Prelude.{
  ℕ, ◌+◌, ◌-◌, ◌*◌, ◌/◌, ◌^◌, List, [], ◌++◌, length, set, replicate, Bool, not, ltb, ◌==◌, ◌||◌,
  if◌then◌else◌, Option, none, some,
}
use vsclib.Prelude.Errno.{Errno, eof, enomem, eoverflow}

-- what `getc` still has to give: a byte, the end of the file, or an error from then on
pub data Stream : Type 0 where
  at_end : Stream
  broken : Stream
  byte : ℕ → Stream → Stream

-- the length or the error, the buffer, and what is left of the stream
pub data Result : Type 0 where
  done : ℕ → List ℕ → Stream → Result
  failed : Errno → List ℕ → Stream → Result

-- What the allocator grants by size, and the byte that stands in memory which it has not cleared.
pub record Heap : Type 0 where
  pub grants : ℕ → Bool
  pub junk : ℕ

-- `SSIZE_MAX / 2`
abbrev pub half_ssize_max : ℕ
half_ssize_max = (2 ^ 63 - 1) / 2

abbrev pub init_len : ℕ
init_len = 128

-- `vsc_xrealloc` to twice the size: of nothing, it frees the pointer and returns NULL
unfoldable pub doubled : Heap → List ℕ → Option (List ℕ)
doubled heap line =
    if length line * 2 == 0 || not (heap.grants (length line * 2))
    then none
    else some (line ++ replicate (length line) heap.junk)

-- The room for a byte and a NUL at `pos`: the buffer, or the error.
unfoldable pub make_room : Heap → List ℕ → ℕ → Errno × Option (List ℕ)
unfolding doubled
make_room heap line pos =
    if ltb (length line - pos) 2
    then if ltb half_ssize_max (length line) then (eoverflow, none) else (enomem, doubled heap line)
    else (enomem, some line)

-- the loop, at position `pos` of the buffer
unfoldable pub read_loop : Heap → ℕ → Stream → List ℕ → ℕ → Result
unfolding make_room
read_loop heap delim at_end line pos =
    if pos == 0 then failed eof line at_end else done pos (set line pos 0) at_end
read_loop heap delim broken line pos = failed eof line broken
read_loop heap delim (byte c rest) line pos =
    let room = make_room heap line pos in
    elim room.1 [
      | none ↦ failed room.0 line rest
      | some roomy ↦
          let written = set roomy pos c in
          let more = read_loop heap delim rest written (pos + 1) in
          if c == delim then done (pos + 1) (set written (pos + 1) 0) rest else more
    ]

-- `none` for a line pointer that is NULL
unfoldable pub getdelima : Heap → Option (List ℕ) → ℕ → Stream → Result
unfolding read_loop
getdelima heap none delim stream =
    if not (heap.grants init_len)
    then failed enomem [] stream
    else read_loop heap delim stream (replicate init_len heap.junk) 0
getdelima heap (some line) delim stream = read_loop heap delim stream line 0

unfoldable pub getlinea : Heap → Option (List ℕ) → Stream → Result
unfolding getdelima
getlinea heap line stream = getdelima heap line b'\n' stream
