-- ===== src/Nullify/Tests.antt =====
-- A table of descriptors in which 3 is the only one that `open` gives out.
use vsclib.Freadall.System.{Return, ok}
use vsclib.Nullify.Descriptors.{Calls, fnullify}
use vsclib.Nullify.Nullified.{IsPosix, IsNullified, fnullify-IsNullified}
use vsclib.Prelude.Errno.{ebadf}
use vsclib.Prelude.{
  ℕ, Bool, true, false, ◌==◌, ==_ne, ==_iff, if◌then◌else◌, Option, none, some, ◌≡◌, ◌≢◌, refl,
}

abbrev Table : Type 0
Table = ℕ → Option ℕ

abbrev put : ℕ → Option ℕ → Table → Table
put fd v w e = if e == fd then v else w e

abbrev returns : Bool → ℕ → Return
returns negative value = record { negative = negative; value = value; errno = ebadf }

-- The null device is the file 9.
abbrev open_as : Option ℕ → Table → Return × Table
open_as none w = (returns false 3, put 3 (some 9) w)
open_as (some k) w = (returns true 3, w)

-- A stream is its number.
abbrev table : Calls ℕ Table
table = record {
  fileno = λ f w. returns false f;
  open_devnull = λ w. open_as (w 3) w;
  dup2 = λ old new w. (returns false new, put new (w old) w);
  close = λ fd w. (returns false fd, put fd none w);
}

put_self : (fd : ℕ) (v : Option ℕ) (w : Table) → put fd v w fd ≡ v
put_self fd v w = rw ((==_iff fd fd).1 refl) refl

put_other : (fd : ℕ) (v : Option ℕ) (w : Table) (e : ℕ) → e ≢ fd → put fd v w e ≡ w e
put_other fd v w e other = rw (==_ne other) refl

as_fresh :
    (o : Option ℕ) (w : Table)
    → w 3 ≡ o
    → (open_as o w).0.negative ≡ false
    → w ((open_as o w).0.value) ≡ none
as_fresh none w e h = e
as_fresh (some k) w e h = cc h

as_file :
    (o : Option ℕ) (w : Table)
    → (open_as o w).0.negative ≡ false
    → (open_as o w).1 ((open_as o w).0.value) ≡ some 9
as_file none w h = refl
as_file (some k) w h = cc h

as_others : (o : Option ℕ) (w : Table) (e : ℕ) → e ≢ (open_as o w).0.value → (open_as o w).1 e ≡ w e
as_others none w e other = put_other 3 (some 9) w e other
as_others (some k) w e other = refl

as_failed :
    (o : Option ℕ) (w : Table) → (open_as o w).0.negative ≡ true → (e : ℕ) → (open_as o w).1 e ≡ w e
as_failed none w h e = cc h
as_failed (some k) w h e = refl

table-IsPosix : IsPosix table (λ w. w) 9
table-IsPosix = record {
  open_fresh = λ w h. as_fresh (w 3) w refl h;
  open_file = λ w h. as_file (w 3) w h;
  open_others = λ w h e other. as_others (w 3) w e other;
  open_failed = λ w h e. as_failed (w 3) w h e;
  dup2_file = λ old new w h. put_self new (w old) w;
  dup2_others = λ old new w h e other. put_other new (w old) w e other;
  dup2_failed = λ old new w h. cc h;
  close_file = λ fd w. put_self fd none w;
  close_others = λ fd w e other. put_other fd none w e other;
}

-- Descriptor 1 is in use.
abbrev one : Table
one = put 1 (some 5) (λ e. none)

both_open :
    ((fnullify table false 1 one).0 ≡ ok 1)
    × ((fnullify table false 1 one).1 1 ≡ some 9)
    × ((fnullify table false 1 one).1 3 ≡ some 9)
unfolding fnullify
both_open = (refl, refl, refl)

fnullify-IsNullified_example : IsNullified table (λ w. w) 9 1 one (fnullify table false 1 one)
fnullify-IsNullified_example =
    fnullify-IsNullified table (λ w. w) 9 false 1 one table-IsPosix (λ e. cc e)
