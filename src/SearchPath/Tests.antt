-- ===== src/SearchPath/Tests.antt =====
-- A system with two directories in PATH, and one without PATH.
use vsclib.Prelude.Bytes.{codes}
use vsclib.Prelude.Errno.{enoent, einval}
use vsclib.Prelude.{length, true, false, ◌==◌, if◌then◌else◌, none, some, ◌≡◌, inl, refl, arith}
use vsclib.SearchPath.Directories.{directories, IsText, end_of_text, and_text}
use vsclib.SearchPath.Search.{no_stat, has_stat, System, failed, searchpatha}
use vsclib.SearchPath.Searched.{IsSearched, searchpatha-IsSearched, searchpatha-fall_back}

-- Every file whose path has three characters is one that the group 100 may execute.
abbrev files : System
files = record {
  path = some (codes "a:b");
  confstr_size = 14;
  confstr = λ n. (n, codes "/bin:/usr/bin");
  stat = λ p.
      if length p == 3
      then has_stat (record {
        regular = true;
        others = false;
        group = true;
        owner = false;
        gid = 100;
        uid = 0;
      })
      else no_stat enoent;
  uid = 1000;
  gid = 100;
}

x_IsText : IsText (codes "x")
x_IsText = and_text (λ e. absurd (omega (arith, e))) end_of_text

path_IsText : IsText (codes "a:b")
path_IsText =
    and_text (λ e. absurd (omega (arith, e)))
      (and_text (λ e. absurd (omega (arith, e)))
        (and_text (λ e. absurd (omega (arith, e))) end_of_text))

searchpatha-IsSearched_example :
    IsSearched files (codes "x") (directories (codes "a:b")) (searchpatha files true (codes "x"))
searchpatha-IsSearched_example =
    searchpatha-IsSearched files (codes "x") x_IsText 97 (codes ":b") refl path_IsText

abbrev bare : System
bare = record files { path = none }

searchpatha-fall_back_example : searchpatha bare true (codes "x") ≡ failed einval
searchpatha-fall_back_example = searchpatha-fall_back bare true (codes "x") (inl refl) refl
