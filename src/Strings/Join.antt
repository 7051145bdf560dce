-- ===== src/Strings/Join.antt =====
-- The functions of vsclib/stpcpy.c and vsclib/strjoin.c. A string is the list of its characters
-- before the NUL, and `none` for NULL; a buffer is the list of its bytes, written at a position.
use vsclib.Prelude.{
  ℕ, ◌+◌, ◌-◌, List, [], ◌∷◌, length, set, replicate, Bool, not, ltb, ◌==◌, if◌then◌else◌, Option,
  none, some,
}
use vsclib.Prelude.Words.{add_size, mul_size}

-- the portable loop: the buffer, and the position of the NUL
unfoldable pub stpcpy : List ℕ → ℕ → List ℕ → List ℕ × ℕ
stpcpy buf dst [] = (set buf dst 0, dst)
stpcpy buf dst (c ∷ src) = stpcpy (set buf dst c) (dst + 1) src

-- the sum of the lengths, or `none` where an element is NULL
unfoldable pub sum_lengths : ℕ → List (Option (List ℕ)) → Option ℕ
sum_lengths nreq [] = some nreq
sum_lengths nreq (none ∷ elems) = none
sum_lengths nreq (some e ∷ elems) = sum_lengths (add_size nreq (length e)) elems

-- `vsc_xcalloc` of characters, where `granted` says whether the allocator has the space
unfoldable pub calloc_chars : Bool → ℕ → Option (List ℕ)
calloc_chars granted nreq = if granted then some (replicate nreq 0) else none

-- The loop that copies, at element `i` of `n`. An element that is NULL has been refused before.
unfoldable pub join_loop : List ℕ → ℕ → ℕ → List ℕ → ℕ → List (Option (List ℕ)) → List ℕ
unfolding stpcpy
join_loop delim n i buf next [] = buf
join_loop delim n i buf next (none ∷ elems) = buf
join_loop delim n i buf next (some seg ∷ elems) =
    let copied = stpcpy buf next seg in
    let delimited = stpcpy copied.0 copied.1 delim in
    let last = join_loop delim n (i + 1) copied.0 copied.1 elems in
    let more = join_loop delim n (i + 1) delimited.0 delimited.1 elems in
    if not (i == n - 1) then more else last

unfoldable pub required : ℕ → ℕ → ℕ → ℕ
required sum n dlen = add_size (if ltb 0 n then add_size sum (mul_size (n - 1) dlen) else sum) 1

unfoldable pub strnjoina : Bool → Option (List ℕ) → List (Option (List ℕ)) → Option (List ℕ)
unfolding sum_lengths calloc_chars required join_loop
strnjoina granted none elems = none
strnjoina granted (some delim) elems = elim (sum_lengths 0 elems) [
  | none ↦ none
  | some sum ↦ elim (calloc_chars granted (required sum (length elems) (length delim))) [
    | none ↦ none
    | some val ↦ some (join_loop delim (length elems) 0 val 0 elems)
  ]
]

-- the first loop of `vsc_vstrjoina`: how many arguments stand before the NULL, and their lengths
unfoldable pub count_arguments : ℕ → ℕ → List (Option (List ℕ)) → ℕ × ℕ
count_arguments n nreq [] = (n, nreq)
count_arguments n nreq (none ∷ ap) = (n, nreq)
count_arguments n nreq (some e ∷ ap) = count_arguments (n + 1) (add_size nreq (length e)) ap

unfoldable pub vstrjoina : Bool → Option (List ℕ) → List (Option (List ℕ)) → Option (List ℕ)
unfolding count_arguments calloc_chars required join_loop
vstrjoina granted none ap = none
vstrjoina granted (some delim) ap =
    let counted = count_arguments 0 0 ap in
    elim (calloc_chars granted (required counted.1 counted.0 (length delim))) [
      | none ↦ none
      | some val ↦ some (join_loop delim counted.0 0 val 0 ap)
    ]
