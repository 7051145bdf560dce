-- ===== src/Delim/Fields.antt =====
-- The procedure is called on the fields of the text, in order, until it returns something else than 0.
use vsclib.Prelude.{
  ℕ, zero, suc, ◌≤◌, ◌<◌, List, [], ◌∷◌, length, Bool, true, false, not, ◌==◌, if◌then◌else◌,
  Option, none, some, ◌≡◌, ◌≢◌, refl, sym, ap, Bool-cases, inl, inr, ==_iff, ==_ne, ℕ_discrete,
  arith,
}
use vsclib.Delim.Loop.{cut, ends_in, trailing_call, delim_loop, for_each_delim}

-- the text cut at every delimiter: always one more field than delimiters
split : ℕ → List ℕ → List (List ℕ)
split delim [] = [] ∷ []
split delim (c ∷ s) =
    let rest = split delim s in
    if c == delim
    then [] ∷ rest
    else elim rest [ [] ↦ (c ∷ []) ∷ [] | field ∷ fields ↦ (c ∷ field) ∷ fields ]

-- An empty text has no field.
unfoldable pub fields : ℕ → List ℕ → List (List ℕ)
unfolding split
fields delim [] = []
fields delim (c ∷ s) = split delim (c ∷ s)

-- a text, what stands before its first delimiter, and what stands behind
data Cut (delim : ℕ) : List ℕ → List ℕ → Option (List ℕ) → Type 0 where
  ended : Cut delim [] [] none
  here : {s : List ℕ} → Cut delim (delim ∷ s) [] (some s)
  later :
      {c : ℕ} {s field : List ℕ} {rest : Option (List ℕ)}
      → c ≢ delim
      → Cut delim s field rest
      → Cut delim (c ∷ s) (c ∷ field) rest

cut-Cut : (delim : ℕ) (s : List ℕ) → Cut delim s (cut delim s).0 (cut delim s).1
unfolding cut
cut-Cut delim [] = ended
cut-Cut delim (c ∷ s) = elim (ℕ_discrete c delim) [
  | yes e ↦ rw (e, (==_iff delim delim).1 refl) here
  | no ne ↦ rw (==_ne ne) (later ne (cut-Cut delim s))
]

split_last : {delim : ℕ} {s field : List ℕ} → Cut delim s field none → split delim s ≡ (field ∷ [])
unfolding split
split_last ended = refl
split_last (later ne k) = rw (==_ne ne, split_last k) refl

split_first :
    {delim : ℕ} {s field rest : List ℕ}
    → Cut delim s field (some rest)
    → split delim s ≡ (field ∷ split delim rest)
unfolding split
split_first {delim} here = rw ((==_iff delim delim).1 refl) refl
split_first (later ne k) = rw (==_ne ne, split_first k) refl

Cut-shorter :
    {delim : ℕ} {s field rest : List ℕ} → Cut delim s field (some rest) → length rest < length s
Cut-shorter here = omega arith
Cut-shorter (later ne k) = omega (arith, Cut-shorter k)

-- whether the last field is empty
abbrev ends : ℕ → List ℕ → Bool
ends delim [] = true
ends delim (c ∷ s) = ends_in delim (c ∷ s)

ends_last :
    {delim c : ℕ} {s field : List ℕ} → Cut delim (c ∷ s) field none → ends delim (c ∷ s) ≡ false
unfolding ends_in
ends_last {s = []} (later ne k) = ==_ne ne
ends_last {s = c' ∷ s} (later ne k) = ends_last k

ends_first :
    {delim : ℕ} {s field rest : List ℕ}
    → Cut delim s field (some rest)
    → ends delim s ≡ ends delim rest
unfolding ends_in
ends_first {delim} {rest = []} here = (==_iff delim delim).1 refl
ends_first {rest = c ∷ rest} here = refl
ends_first (later {s = []} ne k) = elim k [ ]
ends_first (later {s = c' ∷ s} ne k) = ends_first k

module _ {ℓ} {User : Type ℓ} (proc : List ℕ → User → ℕ × User) where
  -- the calls, one for each field, until one returns something else than 0
  unfoldable pub call_all : List (List ℕ) → User → ℕ × User
  call_all [] user = (0, user)
  call_all (field ∷ fields) user =
      let called = proc field user in
      let more = call_all fields called.1 in if not (called.0 == 0) then called else more

  call_all_one : (field : List ℕ) (user : User) → call_all (field ∷ []) user ≡ proc field user
  unfolding call_all
  call_all_one field user = elim (Bool-cases ((proc field user).0 == 0)) [
    | inl zero_returned ↦
        rw zero_returned (ap (λ r. (r, (proc field user).1)) (sym ((==_iff _ 0).0 zero_returned)))
    | inr stopped ↦ rw stopped refl
  ]

  abbrev Suffice : ℕ → ℕ → Type ℓ
  Suffice delim rounds =
      (s : List ℕ) (user : User)
      → length s ≤ rounds
      → delim_loop proc delim (ends delim s) rounds s user ≡ call_all (split delim s) user

  -- One round, where the rounds that are left suffice for what is left.
  round_calls :
      (delim rounds c : ℕ) (s : List ℕ) (user : User) (found : List ℕ × Option (List ℕ))
      → Suffice delim rounds
      → length s ≤ rounds
      → Cut delim (c ∷ s) found.0 found.1
      → (let called = proc found.0 user in
          if not (called.0 == 0) then called else elim found.1 [
            | none ↦ trailing_call proc (ends delim (c ∷ s)) called.1
            | some rest ↦ delim_loop proc delim (ends delim (c ∷ s)) rounds rest called.1
          ])
        ≡ call_all (split delim (c ∷ s)) user
  unfolding trailing_call call_all
  round_calls delim rounds c s user (field, none) left h k = rw (split_last k, ends_last k) refl
  round_calls delim rounds c s user (field, some rest) left h k =
      rw (split_first k, ends_first k)
        (ap (λ more. if not ((proc field user).0 == 0) then proc field user else more)
          (left rest (proc field user).1 (omega (arith, Cut-shorter k))))

  -- The rounds suffice, and what is left of the text is called field by field.
  delim_loop_fields : (delim rounds : ℕ) → Suffice delim rounds
  unfolding delim_loop trailing_call split
  delim_loop_fields delim rounds [] user h = sym (call_all_one [] user)
  delim_loop_fields delim zero (c ∷ s) user h = absurd (omega arith)
  delim_loop_fields delim (suc rounds) (c ∷ s) user h =
      round_calls delim rounds c s user (cut delim (c ∷ s)) (delim_loop_fields delim rounds)
        (omega arith) (cut-Cut delim (c ∷ s))

-- vsc_for_each_delim calls the procedure on the fields of the text in order, an empty one behind a
-- trailing delimiter included and none for an empty text, and returns at once what is not 0.
pub for_each_delim-fields {ℓ} :
    {User : Type ℓ} (proc : List ℕ → User → ℕ × User) (delim : ℕ) (text : List ℕ) (user : User)
    → for_each_delim proc delim text user ≡ call_all proc (fields delim text) user
unfolding for_each_delim fields call_all delim_loop trailing_call ends_in
for_each_delim-fields proc delim [] user = refl
for_each_delim-fields proc delim (c ∷ s) user =
    delim_loop_fields proc delim (length (c ∷ s)) (c ∷ s) user (omega arith)
