-- ===== src/SearchPath/Search.antt =====
-- `statfile` and `vsc_searchpatha` of vsclib/searchpath.c. What the system says is a parameter; a
-- string is the list of its characters before the NUL.
use vsclib.Delim.Loop.{cut}
use vsclib.Io.Endian.{put}
use vsclib.Prelude.Errno.{Status, success, failure, Errno, einval, enoent, eacces, enomem}
use vsclib.Prelude.{
  ℕ, zero, suc, ◌+◌, List, [], ◌∷◌, ◌++◌, length, replicate, Bool, not, ◌&&◌, ◌==◌, ltb,
  if◌then◌else◌, Option, none, some,
}

-- `struct stat`: whether the file is regular, the bits `S_IXOTH`, `S_IXGRP` and `S_IXUSR`, its owners
pub record Stat : Type 0 where
  pub regular : Bool
  pub others : Bool
  pub group : Bool
  pub owner : Bool
  pub gid : ℕ
  pub uid : ℕ

pub data Answer : Type 0 where
  no_stat : Errno → Answer
  has_stat : Stat → Answer

pub record System : Type 0 where
  -- `getenv("PATH")`
  pub path : Option (List ℕ)
  -- `confstr(_CS_PATH, NULL, 0)`
  pub confstr_size : ℕ
  -- `confstr(_CS_PATH, _path, n)`: what it returns, and what it writes
  pub confstr : ℕ → ℕ × List ℕ
  pub stat : List ℕ → Answer
  pub uid : ℕ
  pub gid : ℕ

unfoldable pub statfile : System → List ℕ → Status
statfile sys p = elim (sys.stat p) [
  | no_stat e ↦ failure e
  | has_stat statbuf ↦
      if not statbuf.regular
      then failure eacces
      else if statbuf.others
      then success
      else if statbuf.group && statbuf.gid == sys.gid
      then success
      else if statbuf.owner && statbuf.uid == sys.uid
      then success
      else failure eacces
]

abbrev pub colon : ℕ
colon = 58

abbrev pub slash : ℕ
slash = 47

-- "Get the max buffer size."
unfoldable pub longest : ℕ → List ℕ → ℕ → ℕ
unfolding cut
longest rounds [] dlen = dlen
longest zero (c ∷ path) dlen = dlen
longest (suc rounds) (c ∷ path) dlen =
    let found = cut colon (c ∷ path) in
    let dist = length found.0 in
    let wider = if ltb dlen dist then dist else dlen in
    elim found.1 [ none ↦ wider | some rest ↦ longest rounds rest wider ]

-- the error or 0, the buffer in `*s`, and `*len`
pub record Result : Type 0 where
  pub status : Status
  pub s : Option (List ℕ)
  pub len : ℕ

unfoldable pub failed : Errno → Result
failed e = record { status = failure e; s = none; len = 0 }

-- `strncpy(buf, o, dist)`, the slash, and `vsc_strcpy(buf + dist + 1, f)`
unfoldable pub write_path : List ℕ → List ℕ → List ℕ → List ℕ
unfolding put
write_path buf dir f =
    let buf1 = put buf 0 dir in
    let buf2 = put buf1 (length dir) (slash ∷ []) in put buf2 (length dir + 1) (f ++ 0 ∷ [])

-- the string in a buffer
unfoldable pub text : List ℕ → List ℕ
unfolding cut
text buf = (cut 0 buf).0

unfoldable pub search : System → List ℕ → ℕ → ℕ → List ℕ → List ℕ → Result
unfolding cut statfile failed write_path text
search sys f flen rounds [] buf = failed enoent
search sys f flen zero (c ∷ path) buf = failed enoent
search sys f flen (suc rounds) (c ∷ path) buf =
    let found = cut colon (c ∷ path) in
    let buf1 = write_path buf found.0 f in
    elim (statfile sys (text buf1)) [
      | success ↦ record { status = success; s = some buf1; len = length found.0 + flen }
      | failure e ↦ elim found.1 [
        | none ↦ failed enoent
        | some rest ↦ search sys f flen rounds rest buf1
      ]
    ]

-- with the directories; `granted` says that the buffer is
unfoldable pub search_in : System → Bool → List ℕ → List ℕ → Result
unfolding longest failed search
search_in sys granted f path =
    let flen = length f + 1 in
    let dlen = longest (length path) path 0 + (flen + 1) in
    if granted then search sys f flen (length path) path (replicate dlen 0) else failed enomem

-- "If empty, fall back to _CS_PATH."
unfoldable pub fall_back : System → Bool → List ℕ → Result
unfolding failed search_in
fall_back sys granted f =
    let (n, path) = sys.confstr sys.confstr_size in
    if sys.confstr_size == 0
    then failed einval
    else if not (n == 0)
    then failed einval
    else search_in sys granted f path

unfoldable pub searchpatha : System → Bool → List ℕ → Result
unfolding search_in fall_back
searchpatha sys granted f = elim sys.path [
  | none ↦ fall_back sys granted f
  | some [] ↦ fall_back sys granted f
  | some (c ∷ path) ↦ search_in sys granted f (c ∷ path)
]
