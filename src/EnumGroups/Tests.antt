-- ===== src/EnumGroups/Tests.antt =====
-- Groups of 3000 bytes, which the first buffer is too small for.
use vsclib.EnumGroups.Loop.{
  Passwd, Group, Answer, no_more, too_small, found, code, Groups, enum_groupsa,
}
use vsclib.EnumGroups.Members.{IsDatabase, all_fit, one_fits, enum_groupsa-Visits}
use vsclib.EnumGroups.Users.{Visits}
use vsclib.Freadall.Room.{IsAmple}
use vsclib.Memory.Allocation.{Allocator}
use vsclib.Prelude.Bytes.{codes}
use vsclib.Prelude.Errno.{success}
use vsclib.Prelude.{
  ℕ, ◌+◌, ◌≤◌, ◌<◌, List, [], ◌∷◌, ltb, if◌then◌else◌, true, false, none, some, ◌≡◌, refl, arith,
}

unfoldable next : ℕ → List Group → Answer × List Group
next n [] = (no_more, [])
next n (g ∷ gs) = if ltb n 3000 then (too_small, g ∷ gs) else (found g, gs)

abbrev large : Group → ℕ
large g = 3000

next-IsDatabase : IsDatabase next (λ d. d) large
unfolding next
next-IsDatabase = record { ends = ends; keeps = keeps; gives = gives }
  where
    ends : (n : ℕ) (d : List Group) → d ≡ [] → (next n d).0 ≡ no_more
    ends n d e = rw e refl

    keeps :
        (n : ℕ) (d : List Group) (g : Group) (gs : List Group)
        → d ≡ g ∷ gs
        → n < 3000
        → ((next n d).0 ≡ too_small) × ((next n d).1 ≡ g ∷ gs)
    keeps n d g gs e short =
        let small : ltb n 3000 ≡ true = ground arith in rw (e, small) (refl, refl)

    gives :
        (n : ℕ) (d : List Group) (g : Group) (gs : List Group)
        → d ≡ g ∷ gs
        → 3000 ≤ n
        → ((next n d).0 ≡ found g) × ((next n d).1 ≡ gs)
    gives n d g gs e fits =
        let enough : ltb n 3000 ≡ false = ground arith in rw (e, enough) (refl, refl)

abbrev heap : Allocator ℕ
heap = record {
  alloc = λ ptr size alignment flags n. record { status = success; block = 64; heap = n };
  free = λ p n. n;
  size = λ p n. 0;
  memcpy = λ dst src size n. n;
  alignment = 8;
}

heap-IsAmple : IsAmple heap
heap-IsAmple = record {
  grants = λ p size alignment flags n. refl;
  blocks = λ p size alignment flags n e. absurd (omega (arith, e));
}

-- The procedure counts the groups.
abbrev count : Group → ℕ → ℕ × ℕ
count g n = (0, n + 1)

abbrev user : Passwd
user = record { name = codes "ann"; gid = 100 }

abbrev all_groups : List Group
all_groups =
    record { gid = 100; mem = [] }
    ∷ record { gid = 7; mem = codes "bob" ∷ [] }
    ∷ record { gid = 8; mem = codes "bob" ∷ codes "ann" ∷ [] }
    ∷ []

enum_groupsa-Visits_example :
    (res : Groups ℕ (List Group) ℕ) × (n : ℕ) × (enum_groupsa heap next count user 5 none 0
        all_groups 0
      ≡ some res)
    × (res.ret ≡ code n)
    × Visits user count all_groups 0 (n, res.user)
enum_groupsa-Visits_example =
    enum_groupsa-Visits heap next count user heap-IsAmple (λ d. d) large next-IsDatabase 5 1 0
      all_groups 0 (omega arith)
      (one_fits (omega arith) (one_fits (omega arith) (one_fits (omega arith) all_fit)))
      (omega arith)
