-- ===== src/EnumGroups/Loop.antt =====
-- `vsc_enum_groupsa` of vsclib/enum_groups.c, where the system has getgrent_r. The group database and
-- the procedure are parameters; the loop is on fuel.
use vsclib.Memory.Allocation.{Allocator, xfree, xrealloc}
use vsclib.Prelude.Errno.{Errno, enomem}
use vsclib.Prelude.Words.{mul_size}
use vsclib.Prelude.{
  ℕ, zero, suc, List, [], ◌∷◌, Bool, true, false, not, ◌&&◌, ◌||◌, ◌==◌, if◌then◌else◌, Option,
  none, some,
}

-- `struct passwd` and `struct group`
pub record Passwd : Type 0 where
  pub name : List ℕ
  pub gid : ℕ

pub record Group : Type 0 where
  pub gid : ℕ
  pub mem : List (List ℕ)

-- what `getgrent_r` returns: ENOENT, ERANGE, another error, or 0 with the group
pub data Answer : Type 0 where
  no_more too_small : Answer
  broken : Errno → Answer
  found : Group → Answer

-- `strcmp(a, b) == 0`
unfoldable pub same : List ℕ → List ℕ → Bool
same [] [] = true
same (x ∷ xs) (y ∷ ys) = x == y && same xs ys
same _ _ = false

unfoldable pub has_member : List ℕ → List (List ℕ) → Bool
unfolding same
has_member name [] = false
has_member name (u ∷ mem) = same name u || has_member name mem

-- what the procedure returned, or an error
pub data Return : Type 0 where
  code : ℕ → Return
  error : Errno → Return

pub record Groups {ℓ} (Heap Database User : Type ℓ) : Type ℓ where
  pub ret : Return
  pub heap : Heap
  pub database : Database
  pub user : User

-- the loop's variables; `erange` says that `rc` is ERANGE
pub record Enumeration {ℓ} (Heap Database User : Type ℓ) : Type ℓ where
  pub buf : ℕ
  pub buflen : ℕ
  pub erange : Bool
  pub heap : Heap
  pub database : Database
  pub user : User

pub data Step {ℓ} (Heap Database User : Type ℓ) : Type ℓ where
  stop : Groups Heap Database User → Step Heap Database User
  go_on : Enumeration Heap Database User → Step Heap Database User

module _ {ℓ} {Heap Database User : Type ℓ} (a : Allocator Heap)
    (getgrent : ℕ → Database → Answer × Database) (proc : Group → User → ℕ × User)
    (passwd : Passwd) where
  -- the call of the procedure, where the group is one of the user's
  unfoldable pub visit : Group → User → ℕ × User
  unfolding has_member
  visit g user =
      if g.gid == passwd.gid || has_member passwd.name g.mem then proc g user else (0, user)

  -- from the label `done` on
  unfoldable pub done : Return → Enumeration Heap Database User → Groups Heap Database User
  unfolding xfree
  done ret r = record {
    ret = ret;
    heap = xfree a r.buf r.heap;
    database = r.database;
    user = r.user;
  }

  -- with what `getgrent_r` returns
  unfoldable pub handled : Enumeration Heap Database User → Answer → Step Heap Database User
  unfolding visit done
  handled r no_more = stop (done (code 0) r)
  handled r too_small = go_on (record r { buflen = mul_size r.buflen 2; erange = true })
  handled r (broken e) = stop (done (error e) r)
  handled r (found g) =
      let (n, user) = visit g r.user in
      let visited = record r { erange = false; user = user } in
      if not (n == 0) then stop (done (code n) visited) else go_on visited

  -- one round
  unfoldable pub one_round : Enumeration Heap Database User → Step Heap Database User
  unfolding xrealloc handled
  one_round r =
      let (p, heap) =
        if r.buf == 0 || r.erange then xrealloc a r.buf r.buflen r.heap else (r.buf, r.heap) in
      let (answer, database) = getgrent r.buflen r.database in
      if p == 0
      then stop (done (error enomem) (record r { heap = heap }))
      else handled (record r { buf = p; heap = heap; database = database }) answer

  unfoldable pub group_loop :
      ℕ → Enumeration Heap Database User → Option (Groups Heap Database User)
  unfolding one_round
  group_loop zero r = none
  group_loop (suc fuel) r = elim (one_round r) [
    | stop res ↦ some res
    | go_on r1 ↦ group_loop fuel r1
  ]

  -- `setgrent` is the error that it leaves, if it leaves one.
  unfoldable pub enum_groupsa :
      ℕ → Option Errno → Heap → Database → User → Option (Groups Heap Database User)
  unfolding group_loop
  enum_groupsa fuel (some e) heap database user =
      some (record { ret = error e; heap = heap; database = database; user = user })
  enum_groupsa fuel none heap database user = group_loop fuel (record {
    buf = 0;
    buflen = 2048;
    erange = false;
    heap = heap;
    database = database;
    user = user;
  })
