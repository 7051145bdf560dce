-- ===== src/SearchPath/Searched.antt =====
-- `vsc_searchpatha` finds the first directory that has the file, and its fall-back never searches.
use vsclib.Delim.Loop.{cut}
use vsclib.Prelude.Errno.{Status, success, failure, Errno, einval, enoent}
use vsclib.Prelude.{
  ℕ, zero, suc, ◌+◌, ◌≤◌, List, [], ◌∷◌, ◌++◌, length, length-append, length-replicate, replicate,
  Bool, true, ==_ne, Option, none, some, ◌≡◌, ◌⊎◌, inl, inr, refl, sym, ap, subst, ℕ_discrete,
  arith,
}
use vsclib.SearchPath.Buffers.{length-write_path, text-write_path}
use vsclib.SearchPath.Directories.{
  directories, behind, directories-cut, IsText, IsCut, last_part, one_part, cut-IsCut,
}
use vsclib.SearchPath.Widths.{AllWithin, one_within, longest-AllWithin}
use vsclib.SearchPath.Search.{
  System, statfile, colon, slash, longest, Result, failed, write_path, text, search, search_in,
  fall_back, searchpatha,
}

-- How a search in directories ends: they are tried in order, and the first that has an executable
-- file gives its path and its length.
pub data IsSearched (sys : System) (f : List ℕ) : List (List ℕ) → Result → Type 0 where
  exhausted : IsSearched sys f [] (failed enoent)
  passed_by :
      {dir : List ℕ} {dirs : List (List ℕ)} {res : Result} {e : Errno}
      → statfile sys (dir ++ slash ∷ f) ≡ failure e
      → IsSearched sys f dirs res
      → IsSearched sys f (dir ∷ dirs) res
  found_in :
      {dir : List ℕ} {dirs : List (List ℕ)} {buf : List ℕ} {len : ℕ}
      → statfile sys (dir ++ slash ∷ f) ≡ success
      → text buf ≡ dir ++ slash ∷ f
      → len ≡ length (dir ++ slash ∷ f)
      → IsSearched sys f (dir ∷ dirs) (record { status = success; s = some buf; len = len })

module _ (sys : System) (f : List ℕ) (f_text : IsText f) where
  -- what `search` does when `st` is what `statfile` says of the path in `buf`
  abbrev after : ℕ → List ℕ → Option (List ℕ) → List ℕ → Status → Result
  after rounds dir rest buf success = record {
    status = success;
    s = some buf;
    len = length dir + (length f + 1);
  }
  after rounds dir none buf (failure e) = failed enoent
  after rounds dir (some rest) buf (failure e) = search sys f (length f + 1) rounds rest buf

  after-IsSearched :
      (rounds : ℕ) (dir : List ℕ) (rest : Option (List ℕ)) (buf : List ℕ) (st : Status)
      → statfile sys (dir ++ slash ∷ f) ≡ st
      → text buf ≡ dir ++ slash ∷ f
      → IsSearched sys f (behind rest) (elim rest [
        | none ↦ failed enoent
        | some path ↦ search sys f (length f + 1) rounds path buf
      ])
      → IsSearched sys f (dir ∷ behind rest) (after rounds dir rest buf st)
  after-IsSearched rounds dir rest buf success e written next =
      let size : length dir + (length f + 1) ≡ length (dir ++ slash ∷ f) =
        omega (arith, length-append dir (slash ∷ f)) in
      found_in e written size
  after-IsSearched rounds dir none buf (failure err) e written next = passed_by e next
  after-IsSearched rounds dir (some rest) buf (failure err) e written next = passed_by e next

  search-after :
      (rounds c : ℕ) (path buf : List ℕ)
      → (let found = cut colon (c ∷ path) in
          let buf1 = write_path buf found.0 f in
          search sys f (length f + 1) (suc rounds) (c ∷ path) buf
          ≡ after rounds found.0 found.1 buf1 (statfile sys (text buf1)))
  unfolding search
  search-after rounds c path buf =
      let found = cut colon (c ∷ path) in
      let buf1 = write_path buf found.0 f in
      by_status (statfile sys (text buf1)) found.1 buf1 found.0
    where
      by_status :
          (st : Status) (rest : Option (List ℕ)) (buf1 dir : List ℕ)
          → (elim st [
            | success ↦ record {
              status = success;
              s = some buf1;
              len = length dir + (length f + 1);
            }
            | failure e ↦ elim rest [
              | none ↦ failed enoent
              | some rest' ↦ search sys f (length f + 1) rounds rest' buf1
            ]
          ])
            ≡ after rounds dir rest buf1 st
      by_status success rest buf1 dir = refl
      by_status (failure e) none buf1 dir = refl
      by_status (failure e) (some rest) buf1 dir = refl

  no_directory :
      (rounds : ℕ) (buf : List ℕ)
      → IsSearched sys f (directories []) (search sys f (length f + 1) rounds [] buf)
  unfolding directories search
  no_directory rounds buf = exhausted

  nothing_behind : IsSearched sys f (behind none) (failed enoent)
  unfolding behind
  nothing_behind = exhausted

  something_behind :
      (rounds : ℕ) (rest buf : List ℕ)
      → IsSearched sys f (directories rest) (search sys f (length f + 1) rounds rest buf)
      → IsSearched sys f (behind (some rest)) (search sys f (length f + 1) rounds rest buf)
  unfolding behind
  something_behind rounds rest buf h = h

  within_behind :
      (n : ℕ) (rest : List ℕ) → AllWithin n (behind (some rest)) → AllWithin n (directories rest)
  unfolding behind
  within_behind n rest h = h

  search-IsSearched :
      (rounds n : ℕ) (path buf : List ℕ)
      → IsText path
      → length path ≤ rounds
      → AllWithin n (directories path)
      → n + length f + 2 ≤ length buf
      → IsSearched sys f (directories path) (search sys f (length f + 1) rounds path buf)
  search-IsSearched rounds n [] buf t enough within fits = no_directory rounds buf
  search-IsSearched zero n (c ∷ path) buf t enough within fits = absurd (omega arith)
  search-IsSearched (suc rounds) n (c ∷ path) buf t enough within fits =
      rw (directories-cut c path, search-after rounds c path buf)
        (by_cut (cut colon (c ∷ path)) (cut-IsCut colon (c ∷ path) t)
          (subst (AllWithin n) (directories-cut c path) within)
          (λ rest buf1 r less later size. search-IsSearched rounds n rest buf1 r less later size))
    where
      by_cut :
          (found : List ℕ × Option (List ℕ))
          → IsCut (length (c ∷ path)) found
          → AllWithin n (found.0 ∷ behind found.1)
          → ((rest buf1 : List ℕ)
              → IsText rest
              → length rest ≤ rounds
              → AllWithin n (directories rest)
              → n + length f + 2 ≤ length buf1
              → IsSearched sys f (directories rest) (search sys f (length f + 1) rounds rest buf1))
          → (let buf1 = write_path buf found.0 f in
              IsSearched sys f
                (found.0 ∷ behind found.1)
                (after rounds found.0 found.1 buf1 (statfile sys (text buf1))))
      by_cut (dir, none) (last_part d) (one_within le later) next =
          let written = text-write_path buf dir f d f_text (omega arith) in
          after-IsSearched rounds dir none (write_path buf dir f) _
            (ap (statfile sys) (sym written)) written nothing_behind
      by_cut (dir, some rest) (one_part d r less) (one_within le later) next =
          let written = text-write_path buf dir f d f_text (omega arith) in
          let size = length-write_path buf dir f in
          after-IsSearched rounds dir (some rest) (write_path buf dir f) _
            (ap (statfile sys) (sym written)) written
            (something_behind rounds rest (write_path buf dir f) (
              next rest (write_path buf dir f) r (omega arith) (within_behind n rest later)
                (omega arith)))

  search_in-IsSearched :
      (path : List ℕ)
      → IsText path
      → IsSearched sys f (directories path) (search_in sys true f path)
  unfolding search_in
  search_in-IsSearched path t =
      let n = longest (length path) path 0 in
      let room = n + ((length f + 1) + 1) in
      let size : length (replicate {A = ℕ} room 0) ≡ room = length-replicate room 0 in
      search-IsSearched (length path) n path (replicate room 0) t (omega arith)
        (longest-AllWithin (length path) path 0 t (omega arith)) (omega arith)

  -- Where PATH is set and not empty and the buffer is granted, vsc_searchpatha tries the directories of
  -- PATH in order, and gives the path and the length of the first that has the file as an executable,
  -- or ENOENT.
  pub searchpatha-IsSearched :
      (c : ℕ) (path : List ℕ)
      → sys.path ≡ some (c ∷ path)
      → IsText (c ∷ path)
      → IsSearched sys f (directories (c ∷ path)) (searchpatha sys true f)
  unfolding searchpatha
  searchpatha-IsSearched c path e t =
      let started : searchpatha sys true f ≡ search_in sys true f (c ∷ path) = rw e refl in
      subst (IsSearched sys f (directories (c ∷ path))) (sym started)
        (search_in-IsSearched (c ∷ path) t)

-- Where confstr returns the number that it returned before, as it does when it succeeds,
-- vsc_searchpatha gives EINVAL for a PATH that is not set or empty.
pub searchpatha-fall_back :
    (sys : System) (granted : Bool) (f : List ℕ)
    → (sys.path ≡ none) ⊎ (sys.path ≡ some [])
    → (sys.confstr sys.confstr_size).0 ≡ sys.confstr_size
    → searchpatha sys granted f ≡ failed einval
unfolding searchpatha fall_back
searchpatha-fall_back sys granted f unset same = elim (ℕ_discrete sys.confstr_size 0) [
  | yes zero_size ↦ elim unset [ inl e ↦ rw (e, zero_size) refl | inr e ↦ rw (e, zero_size) refl ]
  | no some_size ↦ elim unset [
    | inl e ↦ rw (e, same, ==_ne some_size) refl
    | inr e ↦ rw (e, same, ==_ne some_size) refl
  ]
]
