-- ===== src/SearchPath/Buffers.antt =====
-- The buffer holds the path that is tried.
use vsclib.Delim.Loop.{cut}
use vsclib.Io.Endian.{put}
use vsclib.Io.Transfer.{length-put, put-append}
use vsclib.Prelude.{
  ℕ, ◌+◌, ◌-◌, ◌≤◌, List, [], ◌∷◌, ◌++◌, length, length-append, append_assoc, length-drop, drop,
  ==_ne, ◌≡◌, refl, sym, ap, ◌∙◌, arith,
}
use vsclib.SearchPath.Directories.{IsText, end_of_text, and_text}
use vsclib.SearchPath.Search.{slash, write_path, text}

text_front : (s rest : List ℕ) → IsText s → text (s ++ 0 ∷ rest) ≡ s
unfolding text cut
text_front [] rest end_of_text = refl
text_front (c ∷ s) rest (and_text ne t) =
    rw (text, ==_ne ne) (ap (λ l. c ∷ l) (text_front s rest t))

-- Characters that are put where the buffer holds `front` stand behind it.
put_behind :
    (buf front bytes rest : List ℕ) (p : ℕ)
    → buf ≡ front ++ rest
    → length front ≡ p
    → length bytes ≤ length rest
    → put buf p bytes ≡ (front ++ bytes) ++ drop (length bytes) rest
put_behind buf front bytes rest p e at fits = rw (e, sym at) (put-append front bytes rest fits)

pub length-write_path : (buf dir f : List ℕ) → length (write_path buf dir f) ≡ length buf
unfolding write_path
length-write_path buf dir f =
    length-put (put (put buf 0 dir) (length dir) (slash ∷ [])) (length dir + 1) (f ++ 0 ∷ [])
    ∙ length-put (put buf 0 dir) (length dir) (slash ∷ [])
    ∙ length-put buf 0 dir

pub text-write_path :
    (buf dir f : List ℕ)
    → IsText dir
    → IsText f
    → length dir + length f + 2 ≤ length buf
    → text (write_path buf dir f) ≡ dir ++ slash ∷ f
unfolding write_path
text-write_path buf dir f d t fits =
    let rest1 = drop (length dir) buf in
    let size1 : length rest1 ≡ length buf - length dir = length-drop (length dir) buf in
    let first = put_behind buf [] dir buf 0 refl refl (omega arith) in
    let rest2 = drop 1 rest1 in
    let size2 : length rest2 ≡ length rest1 - 1 = length-drop 1 rest1 in
    let second =
      put_behind (put buf 0 dir) dir (slash ∷ []) rest1 (length dir) first refl (omega arith) in
    let len2 : length (dir ++ slash ∷ []) ≡ length dir + 1 = length-append dir (slash ∷ []) in
    let len3 : length (f ++ 0 ∷ []) ≡ length f + 1 = length-append f (0 ∷ []) in
    let rest3 = drop (length (f ++ 0 ∷ [])) rest2 in
    let third =
      put_behind (put (put buf 0 dir) (length dir) (slash ∷ [])) (dir ++ slash ∷ []) (f ++ 0 ∷ [])
        rest2 (length dir + 1) second len2 (omega arith) in
    let whole : ((dir ++ slash ∷ []) ++ (f ++ 0 ∷ [])) ++ rest3 ≡ (dir ++ slash ∷ f) ++ 0 ∷ rest3 =
      ap (λ l. l ++ rest3)
        (append_assoc dir (slash ∷ []) (f ++ 0 ∷ []) ∙ sym (append_assoc dir (slash ∷ f) (0 ∷ [])))
      ∙ append_assoc (dir ++ slash ∷ f) (0 ∷ []) rest3 in
    ap text (third ∙ whole) ∙ text_front (dir ++ slash ∷ f) rest3 (joined dir d)
  where
    joined : (dir : List ℕ) → IsText dir → IsText (dir ++ slash ∷ f)
    joined [] end_of_text = and_text (λ e. absurd (omega (arith, e))) t
    joined (c ∷ dir) (and_text ne d) = and_text ne (joined dir d)
