-- ===== src/SearchPath/Directories.antt =====
-- The directories of a path, by recursion on its characters, and the first of them in terms of
-- `memchr`.
use vsclib.Delim.Loop.{cut}
use vsclib.Prelude.{
  ℕ, suc, ◌<◌, List, [], ◌∷◌, length, ◌==◌, if◌then◌else◌, Bool-cases, Option, none, some, ◌≡◌, ◌≢◌,
  inl, inr, refl, arith,
}
use vsclib.SearchPath.Search.{colon}

unfoldable attach : ℕ → List (List ℕ) → List (List ℕ)
attach c [] = (c ∷ []) ∷ []
attach c (dir ∷ dirs) = (c ∷ dir) ∷ dirs

-- A colon ends a directory, and so does the end of the path behind a character.
unfoldable pub directories : List ℕ → List (List ℕ)
unfolding attach
directories [] = []
directories (c ∷ path) =
    let dirs = directories path in
    let more = attach c dirs in if c == colon then [] ∷ dirs else more

unfoldable pub behind : Option (List ℕ) → List (List ℕ)
unfolding directories
behind none = []
behind (some rest) = directories rest

pub directories-cut :
    (c : ℕ) (path : List ℕ)
    → directories (c ∷ path) ≡ (cut colon (c ∷ path)).0 ∷ behind (cut colon (c ∷ path)).1
unfolding directories attach behind cut
directories-cut c [] = elim (Bool-cases (c == colon)) [ inl e ↦ rw e refl | inr e ↦ rw e refl ]
directories-cut c (c' ∷ path) = elim (Bool-cases (c == colon)) [
  | inl e ↦ rw e refl
  | inr e ↦ rw (e, directories-cut c' path) refl
]

-- a string without NUL
pub data IsText : List ℕ → Type 0 where
  end_of_text : IsText []
  and_text : {c : ℕ} {s : List ℕ} → c ≢ 0 → IsText s → IsText (c ∷ s)

-- What `memchr` leaves is shorter, and both parts are text.
pub data IsCut (size : ℕ) : List ℕ × Option (List ℕ) → Type 0 where
  last_part : {dir : List ℕ} → IsText dir → IsCut size (dir, none)
  one_part :
      {dir rest : List ℕ}
      → IsText dir
      → IsText rest
      → length rest < size
      → IsCut size (dir, some rest)

pub cut-IsCut : (delim : ℕ) (s : List ℕ) → IsText s → IsCut (length s) (cut delim s)
unfolding cut
cut-IsCut delim [] t = last_part end_of_text
cut-IsCut delim (c ∷ s) (and_text ne t) = elim (Bool-cases (c == delim)) [
  | inl e ↦ rw e (one_part end_of_text t (omega arith))
  | inr e ↦ rw e (longer (cut delim s) (cut-IsCut delim s t))
]
  where
    longer :
        (found : List ℕ × Option (List ℕ))
        → IsCut (length s) found
        → IsCut (suc (length s)) (c ∷ found.0, found.1)
    longer found (last_part d) = last_part (and_text ne d)
    longer found (one_part d r less) = one_part (and_text ne d) r (omega arith)
