-- ===== src/EnumGroups/Members.antt =====
-- That every group of the user is visited, whatever its size.
use native.Mathlib.Nat.{mul-le-mul_right}
use vsclib.EnumGroups.Loop.{
  Passwd, Group, Answer, no_more, too_small, found, code, Groups, Enumeration, stop, go_on, visit,
  done, handled, one_round, group_loop, enum_groupsa,
}
use vsclib.EnumGroups.Users.{Visits, ended, skipped, stopped, went_on, IsUsers-test}
use vsclib.Freadall.Room.{IsAmple, xrealloc-IsAmple}
use vsclib.Memory.Allocation.{Allocator, xrealloc}
use vsclib.Prelude.Words.{mul_size}
use vsclib.Prelude.{
  ℕ, zero, suc, ◌+◌, ◌*◌, ◌≤◌, ◌<◌, ◌^◌, pow2, pow2_pos, List, [], ◌∷◌, length, true, false, not,
  ◌||◌, ◌==◌, ==_ne, ==_iff, leb, Bool-cases, if◌then◌else◌, none, some, ◌≡◌, ◌≢◌, inl, inr, refl,
  sym, ap, ◌∙◌, subst, arith,
}

-- A database that is read from the front: a group that the buffer is too small for is kept.
pub record IsDatabase {ℓ} {Database : Type ℓ} (getgrent : ℕ → Database → Answer × Database)
    (groups : Database → List Group) (size : Group → ℕ) : Type ℓ where
  pub ends : (n : ℕ) (d : Database) → groups d ≡ [] → (getgrent n d).0 ≡ no_more
  pub keeps :
      (n : ℕ) (d : Database) (g : Group) (gs : List Group)
      → groups d ≡ g ∷ gs
      → n < size g
      → ((getgrent n d).0 ≡ too_small) × (groups (getgrent n d).1 ≡ g ∷ gs)
  pub gives :
      (n : ℕ) (d : Database) (g : Group) (gs : List Group)
      → groups d ≡ g ∷ gs
      → size g ≤ n
      → ((getgrent n d).0 ≡ found g) × (groups (getgrent n d).1 ≡ gs)

-- No group is larger than `n`.
pub data AllFit (size : Group → ℕ) (n : ℕ) : List Group → Type 0 where
  all_fit : AllFit size n []
  one_fits : {g : Group} {gs : List Group} → size g ≤ n → AllFit size n gs → AllFit size n (g ∷ gs)

-- A buffer that a group does not fit in can be doubled, if it does after `j` doublings.
doubling :
    (b j n : ℕ)
    → b < n
    → n ≤ b * pow2 j
    → b * pow2 j < 2 ^ 64
    → (j' : ℕ) × (j ≡ suc j') × (mul_size b 2 ≡ b * 2) × (b * 2 * pow2 j' ≡ b * pow2 j)
doubling b zero n short fits word = absurd (omega arith)
doubling b (suc j) n short fits word =
    let swap : pow2 j * (b * 2) ≡ b * pow2 (suc j) = grind arith in
    let more : 1 * (b * 2) ≤ pow2 j * (b * 2) = mul-le-mul_right (b * 2) (pow2_pos j) in
    (j, refl, omega arith, grind arith)

module _ {ℓ} {Heap Database User : Type ℓ} (a : Allocator Heap)
    (getgrent : ℕ → Database → Answer × Database) (proc : Group → User → ℕ × User)
    (passwd : Passwd) where
  -- A call of `visit` is a call of the procedure for a group that is the user's, or none.
  visit-Visits :
      (g : Group) (gs : List Group) (user : User) (answer : ℕ × User)
      → (visit a getgrent proc passwd g user).0 ≡ 0
      → Visits passwd proc gs (visit a getgrent proc passwd g user).1 answer
      → Visits passwd proc (g ∷ gs) user answer
  unfolding visit
  visit-Visits g gs user answer zeroed rest = elim (IsUsers-test passwd g) [
    | inl (test, own) ↦
        let called : visit a getgrent proc passwd g user ≡ proc g user = rw test refl in
        let zeroed1 : (proc g user).0 ≡ 0 = sym (ap (λ c. c.0) called) ∙ zeroed in
        went_on own (ap (λ n. (n, (proc g user).1)) zeroed1)
          (subst (λ c. Visits passwd proc gs c.1 answer) called rest)
    | inr (test, other) ↦
        let none : visit a getgrent proc passwd g user ≡ (0, user) = rw test refl in
        skipped other (subst (λ c. Visits passwd proc gs c.1 answer) none rest)
  ]

  visit-stopped :
      (g : Group) (gs : List Group) (user : User)
      → (visit a getgrent proc passwd g user).0 ≢ 0
      → Visits passwd proc (g ∷ gs) user (visit a getgrent proc passwd g user)
  unfolding visit
  visit-stopped g gs user ne = elim (IsUsers-test passwd g) [
    | inl (test, own) ↦
        let called : visit a getgrent proc passwd g user ≡ proc g user = rw test refl in
        let halt : (proc g user).0 ≢ 0 = subst (λ c. c.0 ≢ 0) called ne in
        subst (λ c. Visits passwd proc (g ∷ gs) user c) (sym called) (stopped own refl halt)
    | inr (test, other) ↦
        let none : visit a getgrent proc passwd g user ≡ (0, user) = rw test refl in
        absurd (ne (ap (λ c. c.0) none))
  ]

  module _ (ample : IsAmple a) (groups : Database → List Group) (size : Group → ℕ)
      (database : IsDatabase getgrent groups size) where
    -- the variables after the buffer has been seen to
    prepared : Enumeration Heap Database User → Enumeration Heap Database User
    prepared r =
        let (p, heap) =
          if r.buf == 0 || r.erange then xrealloc a r.buf r.buflen r.heap else (r.buf, r.heap) in
        record r { buf = p; heap = heap; database = (getgrent r.buflen r.database).1 }

    one_round-handled :
        (r : Enumeration Heap Database User)
        → 0 < r.buflen
        → one_round a getgrent proc passwd r
          ≡ handled a getgrent proc passwd (prepared r) (getgrent r.buflen r.database).0
    unfolding one_round prepared
    one_round-handled r pos = elim (Bool-cases (r.buf == 0 || r.erange)) [
      | inl short ↦
          let some_block = xrealloc-IsAmple a r.buf r.buflen r.heap ample pos in
          rw (short, ==_ne some_block) refl
      | inr enough ↦
          let some_block : (r.buf == 0) ≡ false = ground (arith, enough) in
          rw (enough, some_block) refl
    ]

    loop_stop :
        (fuel : ℕ) (r : Enumeration Heap Database User) (res : Groups Heap Database User)
        → one_round a getgrent proc passwd r ≡ stop res
        → group_loop a getgrent proc passwd (suc fuel) r ≡ some res
    unfolding group_loop
    loop_stop fuel r res e = rw (group_loop, e) refl

    loop_go :
        (fuel : ℕ) (r r1 : Enumeration Heap Database User)
        → one_round a getgrent proc passwd r ≡ go_on r1
        → group_loop a getgrent proc passwd (suc fuel) r ≡ group_loop a getgrent proc passwd fuel r1
    unfolding group_loop
    loop_go fuel r r1 e = rw (group_loop, e) refl

    -- The group fits, or the buffer is doubled.
    one_round_found :
        (r : Enumeration Heap Database User) (g : Group) (gs : List Group)
        → 0 < r.buflen
        → groups r.database ≡ g ∷ gs
        → size g ≤ r.buflen
        → one_round a getgrent proc passwd r ≡ (
            let (n, user) = visit a getgrent proc passwd g r.user in
            let visited = record (prepared r) { erange = false; user = user } in
            if not (n == 0)
            then stop (done a getgrent proc passwd (code n) visited)
            else go_on visited)
    unfolding handled prepared
    one_round_found r g gs pos left fits =
        one_round-handled r pos
        ∙ ap (handled a getgrent proc passwd (prepared r))
            ((database.gives r.buflen r.database g gs left fits).0)

    one_round_doubled :
        (r : Enumeration Heap Database User) (g : Group) (gs : List Group)
        → 0 < r.buflen
        → groups r.database ≡ g ∷ gs
        → r.buflen < size g
        → one_round a getgrent proc passwd r
          ≡ go_on (record (prepared r) { buflen = mul_size r.buflen 2; erange = true })
    unfolding handled prepared
    one_round_doubled r g gs pos left short =
        one_round-handled r pos
        ∙ ap (handled a getgrent proc passwd (prepared r))
            ((database.keeps r.buflen r.database g gs left short).0)

    group_loop-Visits :
        (fuel j : ℕ) (r : Enumeration Heap Database User) (gs : List Group)
        → groups r.database ≡ gs
        → 0 < r.buflen
        → r.buflen * pow2 j < 2 ^ 64
        → AllFit size (r.buflen * pow2 j) gs
        → length gs + j < fuel
        → (res : Groups Heap Database User) × (n : ℕ) × (group_loop a getgrent proc passwd fuel r
            ≡ some res)
          × (res.ret ≡ code n)
          × Visits passwd proc gs r.user (n, res.user)
    unfolding done handled prepared
    group_loop-Visits zero j r gs left pos word fit enough = absurd (omega arith)
    group_loop-Visits (suc fuel) j r [] left pos word fit enough =
        let halt =
          one_round-handled r pos
          ∙ ap (handled a getgrent proc passwd (prepared r))
              (database.ends r.buflen r.database left) in
        (done a getgrent proc passwd (code 0) (prepared r), 0, loop_stop fuel r _ halt, refl, ended)
    group_loop-Visits (suc fuel) j r (g ∷ gs) left pos word (one_fits fits fit) enough =
        elim (Bool-cases (leb (size g) r.buflen)) [
          | inl now ↦
              let here = one_round_found r g gs pos left (ground arith) in
              let called = visit a getgrent proc passwd g r.user in
              let visited = record (prepared r) { erange = false; user = called.1 } in
              elim (Bool-cases (called.0 == 0)) [
                | inl more ↦
                    let go : one_round a getgrent proc passwd r ≡ go_on visited =
                      here ∙ rw more refl in
                    let (res, n, e, ret, seen) =
                      group_loop-Visits fuel j visited gs
                        ((database.gives r.buflen r.database g gs left (ground arith)).1) pos word
                        fit (omega arith) in
                    (
                      res,
                      n,
                      loop_go fuel r visited go ∙ e,
                      ret,
                      visit-Visits g gs r.user (n, res.user) ((==_iff called.0 0).0 more) seen,
                    )
                | inr over ↦
                    let last = done a getgrent proc passwd (code called.0) visited in
                    let halt : one_round a getgrent proc passwd r ≡ stop last =
                      here ∙ rw over refl in
                    let some_code : called.0 ≢ 0 = λ e. absurd (ground (arith, over, e)) in
                    (
                      last,
                      called.0,
                      loop_stop fuel r last halt,
                      refl,
                      visit-stopped g gs r.user some_code,
                    )
              ]
          | inr later ↦
              let (j', less, doubled, same_bound) =
                doubling r.buflen j (size g) (ground arith) fits word in
              let r1 = record (prepared r) { buflen = mul_size r.buflen 2; erange = true } in
              let again = one_round_doubled r g gs pos left (ground arith) in
              let bound : mul_size r.buflen 2 * pow2 j' ≡ r.buflen * pow2 j =
                ap (λ n. n * pow2 j') doubled ∙ same_bound in
              let (res, n, e, ret, seen) =
                group_loop-Visits fuel j' r1 (g ∷ gs)
                  ((database.keeps r.buflen r.database g gs left (ground arith)).1)
                  (omega (arith, doubled)) (omega (arith, bound))
                  (subst (λ n. AllFit size n (g ∷ gs)) (sym bound) (one_fits fits fit))
                  (omega (arith, less)) in
              (res, n, loop_go fuel r r1 again ∙ e, ret, seen)
        ]

    -- Where the database is read from its front, the allocator has always room, and every group fits in
    -- 2048 bytes after `j` doublings, vsc_enum_groupsa calls the procedure with the groups that have the
    -- user's number or have the user's name among their members, and with no other, in order, up to the
    -- first for which it returns a number that is not 0, and returns that number, or 0; a round for each
    -- group, one for each doubling and one more are enough.
    pub enum_groupsa-Visits :
        (fuel j : ℕ) (heap : Heap) (d : Database) (user : User)
        → 2048 * pow2 j < 2 ^ 64
        → AllFit size (2048 * pow2 j) (groups d)
        → length (groups d) + j < fuel
        → (res : Groups Heap Database User) × (n : ℕ) × (enum_groupsa a getgrent proc passwd fuel
              none heap d user
            ≡ some res)
          × (res.ret ≡ code n)
          × Visits passwd proc (groups d) user (n, res.user)
    unfolding enum_groupsa
    enum_groupsa-Visits fuel j heap d user word fit enough =
        group_loop-Visits fuel j _ (groups d) refl (omega arith) word fit enough
