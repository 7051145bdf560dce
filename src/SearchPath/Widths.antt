-- ===== src/SearchPath/Widths.antt =====
-- The buffer is wide enough for every directory.
use vsclib.Delim.Loop.{cut}
use vsclib.Prelude.{
  ℕ, zero, suc, ◌≤◌, List, [], ◌∷◌, length, ltb, if◌then◌else◌, Option, none, some, arith,
}
use vsclib.SearchPath.Directories.{
  directories, behind, directories-cut, IsText, IsCut, last_part, one_part, cut-IsCut,
}
use vsclib.SearchPath.Search.{colon, longest}

-- No directory is longer than `n`.
pub data AllWithin (n : ℕ) : List (List ℕ) → Type 0 where
  none_longer : AllWithin n []
  one_within :
      {dir : List ℕ} {dirs : List (List ℕ)}
      → length dir ≤ n
      → AllWithin n dirs
      → AllWithin n (dir ∷ dirs)

longest-le : (rounds : ℕ) (path : List ℕ) (dlen : ℕ) → dlen ≤ longest rounds path dlen
unfolding longest
longest-le rounds [] dlen = omega arith
longest-le zero (c ∷ path) dlen = omega arith
longest-le (suc rounds) (c ∷ path) dlen =
    let wider =
      if ltb dlen (length (cut colon (c ∷ path)).0)
      then length (cut colon (c ∷ path)).0
      else dlen in
    let more : dlen ≤ wider = ground arith in
    by_rest wider more (cut colon (c ∷ path)).1 (λ rest. longest-le rounds rest wider)
  where
    by_rest :
        (wider : ℕ)
        → dlen ≤ wider
        → (rest : Option (List ℕ)) → ((rest' : List ℕ) → wider ≤ longest rounds rest' wider)
        → dlen ≤ (elim rest [ none ↦ wider | some rest' ↦ longest rounds rest' wider ])
    by_rest wider more none next = more
    by_rest wider more (some rest) next = omega (arith, next rest)

pub longest-AllWithin :
    (rounds : ℕ) (path : List ℕ) (dlen : ℕ)
    → IsText path
    → length path ≤ rounds
    → AllWithin (longest rounds path dlen) (directories path)
unfolding longest behind directories
longest-AllWithin rounds [] dlen t enough = none_longer
longest-AllWithin zero (c ∷ path) dlen t enough = absurd (omega arith)
longest-AllWithin (suc rounds) (c ∷ path) dlen t enough = rw (directories-cut c path) (
    by_cut (cut colon (c ∷ path)) (cut-IsCut colon (c ∷ path) t)
      (λ rest wider r less. longest-AllWithin rounds rest wider r less))
  where
    by_cut :
        (found : List ℕ × Option (List ℕ))
        → IsCut (length (c ∷ path)) found
        → ((rest : List ℕ) (wider : ℕ)
            → IsText rest
            → length rest ≤ rounds
            → AllWithin (longest rounds rest wider) (directories rest))
        → (let wider = if ltb dlen (length found.0) then length found.0 else dlen in
            AllWithin
              (elim found.1 [ none ↦ wider | some rest ↦ longest rounds rest wider ])
              (found.0 ∷ behind found.1))
    by_cut (dir, none) (last_part d) next = one_within (ground arith) none_longer
    by_cut (dir, some rest) (one_part d r less) next =
        let wider = if ltb dlen (length dir) then length dir else dlen in
        let more : length dir ≤ wider = ground arith in
        one_within (omega (arith, longest-le rounds rest wider)) (next rest wider r (omega arith))
