-- ===== src/Delim/Tests.antt =====
-- Fields of concrete texts.
use vsclib.Prelude.Bytes.{codes}
use vsclib.Prelude.{ℕ, List, [], ◌∷◌, ◌++◌, length, ◌==◌, if◌then◌else◌, ◌≡◌, refl}
use vsclib.Delim.Fields.{fields, call_all, for_each_delim-fields}
use vsclib.Delim.Loop.{for_each_delim}

-- collects the fields, and stops with 7 at an empty one behind two others
abbrev collect : List ℕ → List (List ℕ) → ℕ × List (List ℕ)
collect field seen =
    (if length field == 0 then (if length seen == 2 then 7 else 0) else 0, seen ++ field ∷ [])

trailing : for_each_delim collect b',' (codes "a,") [] ≡ (0, codes "a" ∷ [] ∷ [])
unfolding for_each_delim
trailing = refl

stops : for_each_delim collect b',' (codes "a,b,,c") [] ≡ (7, codes "a" ∷ codes "b" ∷ [] ∷ [])
unfolding for_each_delim
stops = refl

for_each_delim-fields_example :
    for_each_delim collect b',' (codes "a,b,,c") []
    ≡ call_all collect (fields b',' (codes "a,b,,c")) []
for_each_delim-fields_example = for_each_delim-fields collect b',' (codes "a,b,,c") []
