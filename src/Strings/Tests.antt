-- ===== src/Strings/Tests.antt =====
-- Joining at concrete inputs.
use vsclib.Prelude.Bytes.{codes}
use vsclib.Prelude.Words.{size_mod}
use vsclib.Prelude.{
  List, [], ◌∷◌, ◌++◌, length, map, none, some, true, ◌+◌, ◌<◌, ◌≡◌, refl, ℕ, arith,
}
use vsclib.Strings.Join.{strnjoina, vstrjoina}
use vsclib.Strings.Joined.{join, both_join}

abbrev words : List (List ℕ)
words = codes "ab" ∷ [] ∷ codes "c" ∷ []

joined : strnjoina true (some (codes ", ")) (map some words) ≡ some (codes "ab, , c" ++ 0 ∷ [])
unfolding strnjoina
joined = refl

stops_at_null :
    vstrjoina true (some []) (some (codes "x") ∷ none ∷ some (codes "y") ∷ [])
    ≡ some (codes "x" ++ 0 ∷ [])
unfolding vstrjoina
stops_at_null = refl

words_fit : length (join (codes ", ") words) + 1 < size_mod
unfolding join
words_fit = omega arith

both_join_example :
    (strnjoina true (some (codes ", ")) (map some words) ≡ some (join (codes ", ") words ++ 0 ∷ []))
    × (vstrjoina true (some (codes ", ")) (map some words)
        ≡ some (join (codes ", ") words ++ 0 ∷ []))
    × (strnjoina true (some (codes ", ")) (map some words ++ none ∷ some (codes "y") ∷ []) ≡ none)
both_join_example = both_join (codes ", ") words (some (codes "y") ∷ []) true words_fit
