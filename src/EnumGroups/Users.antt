-- ===== src/EnumGroups/Users.antt =====
-- Which groups are the user's, and which of them are given to the procedure, in what order, without the
-- code of vsclib/enum_groups.c.
use mathlib.Core.List.{Memᴰ}
use mathlib.Core.List.Memᴰ.{head, tail}
use mathlib.Core.List.Memᴰ
use vsclib.EnumGroups.Loop.{Passwd, Group, same, has_member}
use vsclib.Prelude.{
  ℕ, List, [], ◌∷◌, true, false, ◌||◌, &&_both, ◌==◌, ==_iff, Bool-cases, ◌≡◌, ◌≢◌, ◌⊎◌, inl, inr,
  refl, sym, ap, ◌∙◌, subst, arith,
}

-- The group has the user's number, or the user's name is among its members.
abbrev pub IsUsers : Passwd → Group → Type 0
IsUsers passwd g = (g.gid ≡ passwd.gid) ⊎ Memᴰ passwd.name g.mem

-- The procedure is called with the groups that are the user's, in order, up to the first for which it
-- returns a number that is not 0; the answer is that number, or 0, and what the calls leave.
pub data Visits {ℓ} {User : Type ℓ} (passwd : Passwd) (proc : Group → User → ℕ × User)
    : List Group → User → ℕ × User → Type ℓ where
  ended : {user : User} → Visits passwd proc [] user (0, user)
  skipped :
      {g : Group} {gs : List Group} {user : User} {answer : ℕ × User}
      → ¬ IsUsers passwd g
      → Visits passwd proc gs user answer
      → Visits passwd proc (g ∷ gs) user answer
  stopped :
      {g : Group} {gs : List Group} {user user1 : User} {n : ℕ}
      → IsUsers passwd g
      → proc g user ≡ (n, user1)
      → n ≢ 0
      → Visits passwd proc (g ∷ gs) user (n, user1)
  went_on :
      {g : Group} {gs : List Group} {user user1 : User} {answer : ℕ × User}
      → IsUsers passwd g
      → proc g user ≡ (0, user1)
      → Visits passwd proc gs user1 answer
      → Visits passwd proc (g ∷ gs) user answer

same_lem : (xs ys : List ℕ) → same xs ys ≡ true → xs ≡ ys
unfolding same
same_lem [] [] e = refl
same_lem [] (y ∷ ys) e = absurd (ground (arith, e))
same_lem (x ∷ xs) [] e = absurd (ground (arith, e))
same_lem (x ∷ xs) (y ∷ ys) e =
    let (heads, tails) = &&_both (x == y) (same xs ys) e in
    ap (λ n. n ∷ xs) ((==_iff x y).0 heads) ∙ ap (λ l. y ∷ l) (same_lem xs ys tails)

same_refl : (xs : List ℕ) → same xs xs ≡ true
unfolding same
same_refl [] = refl
same_refl (x ∷ xs) =
    let self : (x == x) ≡ true = (==_iff x x).1 refl in rw (self, same_refl xs) refl

has_member-Memᴰ : (name : List ℕ) (mem : List (List ℕ)) → has_member name mem ≡ true → Memᴰ name mem
unfolding has_member
has_member-Memᴰ name [] e = absurd (ground (arith, e))
has_member-Memᴰ name (u ∷ mem) e = elim (Bool-cases (same name u)) [
  | inl here ↦ subst (λ l. Memᴰ name (l ∷ mem)) (same_lem name u here) (head refl)
  | inr other ↦
      let rest : has_member name mem ≡ true = sym (ap (λ b. b || has_member name mem) other) ∙ e in
      tail (has_member-Memᴰ name mem rest)
]

Memᴰ-has_member : (name : List ℕ) (mem : List (List ℕ)) → Memᴰ name mem → has_member name mem ≡ true
unfolding has_member
Memᴰ-has_member name [] m = absurd (Memᴰ.not-nil m)
Memᴰ-has_member name (u ∷ mem) m = elim (Bool-cases (same name u)) [
  | inl here ↦ rw here refl
  | inr other ↦ elim (Memᴰ.cases_cons m) [
    | inl e ↦
        let yes : same name u ≡ true = ap (same name) (sym e) ∙ same_refl name in
        absurd (ground (arith, other, yes))
    | inr rest ↦ rw (other, Memᴰ-has_member name mem rest) refl
  ]
]

-- The test of the loop tells the groups that are the user's.
pub IsUsers-test :
    (passwd : Passwd) (g : Group)
    → ((g.gid == passwd.gid || has_member passwd.name g.mem) ≡ true × IsUsers passwd g)
      ⊎ ((g.gid == passwd.gid || has_member passwd.name g.mem) ≡ false × (¬ IsUsers passwd g))
IsUsers-test passwd g = elim (Bool-cases (g.gid == passwd.gid)) [
  | inl primary ↦ inl (rw primary refl, inl ((==_iff g.gid passwd.gid).0 primary))
  | inr other ↦ elim (Bool-cases (has_member passwd.name g.mem)) [
    | inl listed ↦ inl (rw (other, listed) refl, inr (has_member-Memᴰ passwd.name g.mem listed))
    | inr missing ↦ inr (rw (other, missing) refl, neither other missing)
  ]
]
  where
    neither :
        (g.gid == passwd.gid) ≡ false → has_member passwd.name g.mem ≡ false → ¬ IsUsers passwd g
    neither other missing (inl primary) =
        absurd (ground (arith, other, (==_iff g.gid passwd.gid).1 primary))
    neither other missing (inr listed) =
        absurd (ground (arith, missing, Memᴰ-has_member passwd.name g.mem listed))
