-- ===== src/GetLine/Lines.antt =====
-- What `vsc_getdelima` reads where the allocator grants what it asks for.
use mathlib.Core.List.{append_assoc, append-nil}
use vsclib.Prelude.{
  ℕ, ◌+◌, ◌-◌, ◌*◌, ◌≤◌, ◌<◌, List, [], ◌∷◌, ◌++◌, length, length-append, length-set,
  length-replicate, get_or, get_or-set_self, get_or-set_ne, get_or-append_left, get_or-append_right,
  set, replicate, true, false, ltb, ◌==◌, Option, none, some, ◌≡◌, ◌≢◌, refl, sym, ap, ◌∙◌,
  Bool-cases, inl, inr, ==_ne, ==_iff, arith,
}
use vsclib.Prelude.Errno.{enomem}
use vsclib.GetLine.Reading.{
  Stream, at_end, byte, Result, done, Heap, half_ssize_max, init_len, doubled, make_room, read_loop,
  getdelima,
}

-- the next line of a stream, with its delimiter if it has one, and what is left behind it
pub data Line (delim : ℕ) : Stream → List ℕ → Stream → Type 0 where
  finish : Line delim at_end [] at_end
  stop : {rest : Stream} → Line delim (byte delim rest) (delim ∷ []) rest
  further :
      {c : ℕ} {s rest : Stream} {text : List ℕ}
      → c ≢ delim
      → Line delim s text rest
      → Line delim (byte c s) (c ∷ text) rest

-- The buffer begins with the text.
abbrev pub Begins : List ℕ → List ℕ → Type 0
Begins buf text = (i : ℕ) → i < length text → get_or buf i 0 ≡ get_or text i 0

-- The result is the text's length, with the text and a NUL inside the buffer.
pub record Read (result : Result) (text : List ℕ) (rest : Stream) : Type 0 where
  pub buffer : List ℕ
  pub returned : result ≡ done (length text) buffer rest
  pub begins : Begins buffer text
  pub ended : get_or buffer (length text) 0 ≡ 0
  pub inside : length text < length buffer

-- a buffer with room for a byte and a NUL
record Roomy (heap : Heap) (line : List ℕ) (pos : ℕ) : Type 0 where
  roomy : List ℕ
  made : make_room heap line pos ≡ (enomem, some roomy)
  room : pos + 1 < length roomy
  kept : (i : ℕ) → i < length line → get_or roomy i 0 ≡ get_or line i 0

abbrev GrantsAll : Heap → Type 0
GrantsAll heap = (n : ℕ) → heap.grants n ≡ true

make_room-Roomy :
    (heap : Heap) (line : List ℕ) (pos : ℕ)
    → GrantsAll heap
    → pos < length line
    → pos + 2 ≤ half_ssize_max
    → Roomy heap line pos
unfolding make_room doubled
make_room-Roomy heap line pos grants inside small = elim (Bool-cases (ltb (length line - pos) 2)) [
  | inr enough ↦ record {
    roomy = line;
    made = rw enough refl;
    room = ground arith;
    kept = λ i lt. refl;
  }
  | inl full ↦
      let bounded : ltb half_ssize_max (length line) ≡ false = ground arith in
      let some_size : (length line * 2 == 0) ≡ false = ==_ne (λ e. absurd (omega (arith, e))) in
      let len = length-append line (replicate (length line) heap.junk) in
      let fresh = length-replicate (length line) heap.junk in
      record {
        roomy = line ++ replicate (length line) heap.junk;
        made = rw (full, bounded, some_size, grants (length line * 2)) refl;
        room = ground arith;
        kept = λ i. get_or-append_left line (replicate (length line) heap.junk) i 0;
      }
]

-- One byte more is written.
set-Begins :
    (line roomy pre : List ℕ) (c : ℕ)
    → Begins line pre
    → length pre < length line
    → ((i : ℕ) → i < length line → get_or roomy i 0 ≡ get_or line i 0)
    → length pre < length roomy
    → Begins (set roomy (length pre) c) (pre ++ c ∷ [])
set-Begins line roomy pre c begins inside kept room i lt =
    let len = length-append pre (c ∷ []) in
    elim (Bool-cases (ltb i (length pre))) [
      | inl before ↦
          let lt' : i < length pre = ground arith in
          get_or-set_ne roomy (length pre) i c 0 (λ e. absurd (omega (arith, e)))
          ∙ kept i (omega arith)
          ∙ begins i lt'
          ∙ sym (get_or-append_left pre (c ∷ []) i 0 lt')
      | inr at ↦
          let here : i ≡ length pre = ground arith in
          let first : i - length pre ≡ 0 = omega arith in
          ap (λ k. get_or (set roomy (length pre) c) k 0) here
          ∙ get_or-set_self roomy (length pre) c 0 room
          ∙ sym (get_or-append_right pre (c ∷ []) i 0 (omega arith) ∙ rw first refl)
    ]

-- A NUL behind the text ends it.
ended-Read :
    (buf text : List ℕ) (rest : Stream)
    → Begins buf text
    → length text < length buf
    → Read (done (length text) (set buf (length text) 0) rest) text rest
ended-Read buf text rest begins inside = record {
  buffer = set buf (length text) 0;
  returned = refl;
  begins =
      λ i lt. get_or-set_ne buf (length text) i 0 0 (λ e. absurd (omega (arith, e))) ∙ begins i lt;
  ended = get_or-set_self buf (length text) 0 0 inside;
  inside = omega (arith, length-set buf (length text) 0);
}

read_loop-Read :
    (heap : Heap) (delim : ℕ) {s rest : Stream} {text : List ℕ} (line pre : List ℕ)
    → GrantsAll heap
    → Line delim s text rest
    → Begins line pre
    → length pre < length line
    → 0 < length pre + length text
    → length pre + length text + 2 ≤ half_ssize_max
    → Read (read_loop heap delim s line (length pre)) (pre ++ text) rest
unfolding read_loop
read_loop-Read heap delim line pre grants finish begins inside some_text small =
    let not_first : (length pre == 0) ≡ false = ==_ne (λ e. absurd (omega (arith, e))) in
    rw (not_first, append-nil pre) (ended-Read line pre at_end begins inside)
read_loop-Read heap delim {rest = rest} line pre grants stop begins inside some_text small =
    let r = make_room-Roomy heap line (length pre) grants inside (omega arith) in
    let begins' = set-Begins line r.roomy pre delim begins inside r.kept (omega (arith, r.room)) in
    let len : length pre + 1 ≡ length (pre ++ delim ∷ []) =
      omega (arith, length-append pre (delim ∷ [])) in
    let same : (delim == delim) ≡ true = (==_iff delim delim).1 refl in
    rw (read_loop, r.made, same, len)
      (ended-Read (set r.roomy (length pre) delim) (pre ++ delim ∷ []) rest begins'
        (omega (arith, r.room, length-set r.roomy (length pre) delim)))
read_loop-Read heap delim line pre grants (further {c} {s} {rest} {text} ne l) begins inside
      some_text small =
    let r = make_room-Roomy heap line (length pre) grants inside (omega arith) in
    let begins' = set-Begins line r.roomy pre c begins inside r.kept (omega (arith, r.room)) in
    let len : length pre + 1 ≡ length (pre ++ c ∷ []) = omega (arith, length-append pre (c ∷ [])) in
    let rest_read =
      read_loop-Read heap delim (set r.roomy (length pre) c) (pre ++ c ∷ []) grants l begins'
        (omega (arith, r.room, length-set r.roomy (length pre) c)) (omega arith) (omega arith) in
    rw (read_loop, r.made, ==_ne ne, len, sym (append_assoc pre (c ∷ []) text)) rest_read

-- the size of the buffer, and of the one that replaces a NULL
abbrev pub capacity : Option (List ℕ) → ℕ
capacity none = init_len
capacity (some line) = length line

-- Where the allocator grants every size, a line of the stream that is not empty is read whole:
-- vsc_getdelima returns its length and leaves it with a NUL inside the buffer, which may be NULL or of
-- any size but 0 at first, and the stream behind it, provided the line is shorter than SSIZE_MAX / 2
-- by two.
pub getdelima-Read :
    (heap : Heap) (delim : ℕ) {s rest : Stream} {text : List ℕ} (line : Option (List ℕ))
    → ((n : ℕ) → heap.grants n ≡ true)
    → Line delim s text rest
    → 0 < length text
    → length text + 2 ≤ half_ssize_max
    → 0 < capacity line
    → Read (getdelima heap line delim s) text rest
unfolding getdelima
getdelima-Read heap delim none grants l some_text small not_empty = rw (grants init_len) (
    read_loop-Read heap delim (replicate init_len heap.junk) [] grants l
      (λ i lt. absurd (omega (arith, lt))) (omega (arith, length-replicate init_len heap.junk))
      (omega arith) (omega arith))
getdelima-Read heap delim (some []) grants l some_text small not_empty = absurd (omega arith)
getdelima-Read heap delim (some (x ∷ line)) grants l some_text small not_empty =
    read_loop-Read heap delim (x ∷ line) [] grants l (λ i lt. absurd (omega (arith, lt)))
      (omega arith) (omega arith) (omega arith)
