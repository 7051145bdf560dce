-- ===== src/Strings/Joined.antt =====
-- What the joining functions return: the elements with the delimiter between them, and a NUL.
use mathlib.Core.List.{append_assoc, append-nil}
use vsclib.Prelude.{
  ℕ, zero, suc, ◌+◌, ◌-◌, ◌*◌, ◌%◌, ◌<◌, List, [], ◌∷◌, ◌++◌, map, length, length-append,
  length-map, set, replicate, Bool, true, false, ltb, ◌==◌, Option, none, some, ◌≡◌, refl, sym, ap,
  ◌∙◌, ==_ne, arith,
}
use vsclib.Prelude.Words.{size_mod, add_size}
use vsclib.Strings.Join.{
  stpcpy, sum_lengths, calloc_chars, join_loop, required, strnjoina, count_arguments, vstrjoina,
}

-- the elements with the delimiter between them
unfoldable pub join : List ℕ → List (List ℕ) → List ℕ
join delim [] = []
join delim (e ∷ []) = e
join delim (e ∷ e' ∷ es) = e ++ (delim ++ join delim (e' ∷ es))

set-append :
    (pre rest : List ℕ) (x v : ℕ) → set (pre ++ x ∷ rest) (length pre) v ≡ (pre ++ v ∷ rest)
set-append [] rest x v = refl
set-append (p ∷ pre) rest x v = ap (λ l. p ∷ l) (set-append pre rest x v)

-- Copying behind what is written, where zeros follow, leaves zeros behind the copy.
stpcpy_zeros :
    (pre s : List ℕ) (k : ℕ)
    → length s < k
    → stpcpy (pre ++ replicate k 0) (length pre) s
      ≡ ((pre ++ s) ++ replicate (k - length s) 0, length (pre ++ s))
unfolding stpcpy
stpcpy_zeros pre s zero h = absurd (omega arith)
stpcpy_zeros pre [] (suc k) h =
    let left : suc k - 0 ≡ suc k = omega arith in
    rw (set-append pre (replicate k 0) 0 0, append-nil pre, left) refl
stpcpy_zeros pre (c ∷ s) (suc k) h =
    let here : length pre + 1 ≡ length (pre ++ c ∷ []) =
      omega (arith, length-append pre (c ∷ [])) in
    let left : suc k - suc (length s) ≡ k - length s = omega arith in
    rw
      (
        set-append pre (replicate k 0) 0 c,
        here,
        sym (append_assoc pre (c ∷ []) (replicate k 0)),
        stpcpy_zeros (pre ++ c ∷ []) s k (omega arith),
        append_assoc pre (c ∷ []) s,
        left,
      )
      refl

-- elements of which none is NULL
abbrev present : List (List ℕ) → List (Option (List ℕ))
present es = map some es

join_loop_zeros :
    (delim : List ℕ) (n i : ℕ) (pre : List ℕ) (k : ℕ) (es : List (List ℕ))
    → i + length es ≡ n
    → length (join delim es) < k
    → join_loop delim n i (pre ++ replicate k 0) (length pre) (present es)
      ≡ ((pre ++ join delim es) ++ replicate (k - length (join delim es)) 0)
unfolding join_loop join
join_loop_zeros delim n i pre k [] count room =
    let left : k - 0 ≡ k = omega arith in rw (append-nil pre, left) refl
join_loop_zeros delim n i pre k (e ∷ []) count room =
    let last : (i == n - 1) ≡ true = ground arith in rw (last, stpcpy_zeros pre e k room) refl
join_loop_zeros delim n i pre k (e ∷ e' ∷ es) count room =
    let tail = join delim (e' ∷ es) in
    let len = length-append e (delim ++ tail) in
    let len' = length-append delim tail in
    let more : (i == n - 1) ≡ false = ==_ne (λ q. absurd (omega (arith, q))) in
    let left : k - length e - length delim - length tail ≡ k - length (e ++ (delim ++ tail)) =
      omega arith in
    let rest =
      join_loop_zeros delim n (i + 1) ((pre ++ e) ++ delim) (k - length e - length delim) (e' ∷ es)
        (omega arith) (omega arith) in
    rw
      (
        more,
        stpcpy_zeros pre e k (omega arith),
        stpcpy_zeros (pre ++ e) delim (k - length e) (omega arith),
      )
      (rest
        ∙ rw (left, append_assoc (pre ++ e) delim tail, append_assoc pre e (delim ++ tail)) refl)

-- the space that the text needs, without its NUL
total : ℕ → List (List ℕ) → ℕ
total sum [] = sum
total sum (e ∷ es) = total (sum + length e) es

total_add : (a b : ℕ) (es : List (List ℕ)) → total (a + b) es ≡ a + total b es
unfolding total
total_add a b [] = refl
total_add a b (e ∷ es) =
    let next : a + b + length e ≡ a + (b + length e) = omega arith in
    rw next (total_add a (b + length e) es)

sum_lengths-total :
    (sum : ℕ) (es : List (List ℕ))
    → total sum es < size_mod
    → sum_lengths sum (present es) ≡ some (total sum es)
unfolding sum_lengths total
sum_lengths-total sum [] h = refl
sum_lengths-total sum (e ∷ es) h =
    let grows = total_add (sum + length e) 0 es in
    let zero_more : sum + length e + 0 ≡ sum + length e = omega arith in
    let whole = ap (λ t. total t es) zero_more in
    let fits : (sum + length e) % size_mod ≡ sum + length e = omega arith in
    ap (λ t. sum_lengths t (present es)) fits ∙ sum_lengths-total (sum + length e) es h

count_arguments-total :
    (n sum : ℕ) (es : List (List ℕ))
    → total sum es < size_mod
    → count_arguments n sum (present es) ≡ (n + length es, total sum es)
unfolding count_arguments total
count_arguments-total n sum [] h = ap (λ m. (m, sum)) {x = n} {y = n + 0} (omega arith)
count_arguments-total n sum (e ∷ es) h =
    let grows = total_add (sum + length e) 0 es in
    let zero_more : sum + length e + 0 ≡ sum + length e = omega arith in
    let whole = ap (λ t. total t es) zero_more in
    let fits : (sum + length e) % size_mod ≡ sum + length e = omega arith in
    let count : n + suc (length es) ≡ n + 1 + length es = omega arith in
    ap (λ t. count_arguments (n + 1) t (present es)) fits
    ∙ count_arguments-total (n + 1) (sum + length e) es h
    ∙ ap (λ m. (m, total (sum + length e) es)) (sym count)

length-join :
    (delim e : List ℕ) (es : List (List ℕ))
    → length (join delim (e ∷ es)) ≡ total (length e) es + length es * length delim
unfolding join total
length-join delim e [] = omega arith
length-join delim e (e' ∷ es) =
    let parts = length-append e (delim ++ join delim (e' ∷ es)) in
    let tail = length-append delim (join delim (e' ∷ es)) in
    let rest = length-join delim e' es in
    let sums = total_add (length e) (length e') es in
    let times : suc (length es) * length delim ≡ length delim + length es * length delim =
      grind arith in
    omega arith

-- The size that is asked for is that of the text and its NUL.
required_exact :
    (delim : List ℕ) (es : List (List ℕ))
    → length (join delim es) + 1 < size_mod
    → required (total 0 es) (length es) (length delim) ≡ length (join delim es) + 1
unfolding required total join
required_exact delim [] h = refl
required_exact delim (e ∷ es) h =
    let size = length-join delim e es in
    let start : total (0 + length e) es ≡ total (length e) es =
      ap (λ t. total t es) {x = 0 + length e} {y = length e} (omega arith) in
    let gaps : suc (length es) - 1 ≡ length es = omega arith in
    let some_elems : ltb 0 (suc (length es)) ≡ true = ground arith in
    rw (some_elems, gaps, start, size) (omega arith)

total_fits :
    (delim : List ℕ) (es : List (List ℕ))
    → length (join delim es) + 1 < size_mod
    → total 0 es < size_mod
unfolding total
total_fits delim [] h = omega arith
total_fits delim (e ∷ es) h =
    let size = length-join delim e es in
    let start : total (0 + length e) es ≡ total (length e) es =
      ap (λ t. total t es) {x = 0 + length e} {y = length e} (omega arith) in
    omega arith

-- the loop on the zeroed buffer
join_loop_fills :
    (delim : List ℕ) (es : List (List ℕ))
    → join_loop delim (length es) 0 (replicate (length (join delim es) + 1) 0) 0 (present es)
      ≡ (join delim es ++ 0 ∷ [])
join_loop_fills delim es =
    let left : length (join delim es) + 1 - length (join delim es) ≡ 1 = omega arith in
    join_loop_zeros delim (length es) 0 [] (length (join delim es) + 1) es (omega arith)
      (omega arith)
    ∙ rw left refl

-- Where none of its arguments is NULL, the text fits in a size_t and the allocation succeeds,
-- vsc_strnjoina returns the elements with the delimiter between them and a NUL behind, in a buffer of
-- exactly that size.
strnjoina_joins :
    (delim : List ℕ) (es : List (List ℕ))
    → length (join delim es) + 1 < size_mod
    → strnjoina true (some delim) (map some es) ≡ some (join delim es ++ 0 ∷ [])
unfolding strnjoina calloc_chars
strnjoina_joins delim es h =
    rw
      (
        strnjoina,
        sum_lengths-total 0 es (total_fits delim es h),
        length-map es (λ e. some e),
        required_exact delim es h,
      )
      (ap (λ b. some b) (join_loop_fills delim es))

-- Where none of its arguments is NULL, the text fits in a size_t and the allocation succeeds,
-- vsc_vstrjoina returns its arguments with the delimiter between them and a NUL behind, in a buffer
-- of exactly that size.
vstrjoina_joins :
    (delim : List ℕ) (es : List (List ℕ))
    → length (join delim es) + 1 < size_mod
    → vstrjoina true (some delim) (map some es) ≡ some (join delim es ++ 0 ∷ [])
unfolding vstrjoina calloc_chars
vstrjoina_joins delim es h =
    let none_before : 0 + length es ≡ length es = omega arith in
    rw
      (
        vstrjoina,
        count_arguments-total 0 0 es (total_fits delim es h),
        none_before,
        required_exact delim es h,
      )
      (ap (λ b. some b) (join_loop_fills delim es))

sum_lengths-none :
    (sum : ℕ) (before : List (List ℕ)) (behind : List (Option (List ℕ)))
    → sum_lengths sum (map some before ++ none ∷ behind) ≡ none
unfolding sum_lengths
sum_lengths-none sum [] behind = refl
sum_lengths-none sum (e ∷ before) behind = sum_lengths-none (add_size sum (length e)) before behind

-- vsc_strnjoina returns NULL when an element is NULL, whatever the others are.
strnjoina-none :
    (delim : List ℕ) (before : List (List ℕ)) (behind : List (Option (List ℕ))) (granted : Bool)
    → strnjoina granted (some delim) (map some before ++ none ∷ behind) ≡ none
unfolding strnjoina
strnjoina-none delim before behind granted = rw (strnjoina, sum_lengths-none 0 before behind) refl

-- Where none of the arguments is NULL, the text fits in a size_t and the allocation succeeds,
-- vsc_strnjoina and vsc_vstrjoina return the elements with the delimiter between them and a NUL
-- behind, in a buffer of exactly that size; with a NULL among its elements vsc_strnjoina returns NULL.
pub both_join :
    (delim : List ℕ) (es : List (List ℕ)) (behind : List (Option (List ℕ))) (granted : Bool)
    → length (join delim es) + 1 < size_mod
    → (strnjoina true (some delim) (map some es) ≡ some (join delim es ++ 0 ∷ []))
      × (vstrjoina true (some delim) (map some es) ≡ some (join delim es ++ 0 ∷ []))
      × (strnjoina granted (some delim) (map some es ++ none ∷ behind) ≡ none)
both_join delim es behind granted h =
    (strnjoina_joins delim es h, vstrjoina_joins delim es h, strnjoina-none delim es behind granted)
