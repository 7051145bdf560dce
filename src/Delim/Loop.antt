-- ===== src/Delim/Loop.antt =====
-- The function of vsclib/for_each.c. The text from `begin` to `end` is a list; the procedure takes
-- and returns the user's state, and returns 0 to go on.
use vsclib.Prelude.{
  ℕ, zero, suc, List, [], ◌∷◌, length, Bool, false, not, ◌==◌, if◌then◌else◌, Option, none, some,
}

-- `memchr`: what stands before the delimiter, and behind it if there is one
unfoldable pub cut : ℕ → List ℕ → List ℕ × Option (List ℕ)
cut delim [] = ([], none)
cut delim (c ∷ s) =
    let rest = cut delim s in if c == delim then ([], some s) else (c ∷ rest.0, rest.1)

-- whether the text has a last character and it is the delimiter
unfoldable pub ends_in : ℕ → List ℕ → Bool
ends_in delim [] = false
ends_in delim (c ∷ []) = c == delim
ends_in delim (c ∷ c' ∷ s) = ends_in delim (c' ∷ s)

module _ {ℓ} {User : Type ℓ} (proc : List ℕ → User → ℕ × User) where
  -- behind the loop: "the special case of a trailing delimiter"
  unfoldable pub trailing_call : Bool → User → ℕ × User
  trailing_call trailing user = if trailing then proc [] user else (0, user)

  -- at most `rounds` rounds from `start`
  unfoldable pub delim_loop : ℕ → Bool → ℕ → List ℕ → User → ℕ × User
  unfolding cut trailing_call
  delim_loop delim trailing rounds [] user = trailing_call trailing user
  delim_loop delim trailing zero (c ∷ s) user = (0, user)
  delim_loop delim trailing (suc rounds) (c ∷ s) user =
      let found = cut delim (c ∷ s) in
      let called = proc found.0 user in
      if not (called.0 == 0) then called else elim found.1 [
        | none ↦ trailing_call trailing called.1
        | some rest ↦ delim_loop delim trailing rounds rest called.1
      ]

  unfoldable pub for_each_delim : ℕ → List ℕ → User → ℕ × User
  unfolding delim_loop ends_in
  for_each_delim delim text user = delim_loop delim (ends_in delim text) (length text) text user
