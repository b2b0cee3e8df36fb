-- ===== src/Storage/Lookup.antt =====
-- storage/db.rs: the searches of names with LIKE.
use synapt.Prelude.{
  ℕ, ◌+◌, Bool, ◌&&◌, ◌||◌, List, [], ◌∷◌, ◌++◌, take, filter_by, is_empty, Text, codes, text_eq,
  text_lt, ℤ, pos, negsuc, leb, ◌==◌, if◌then◌else◌,
}
use synapt.Prelude.Sort.{sort_by}
use synapt.Storage.Rows.{FileRow, AppRow, Db}

-- LIKE of SQLite ignores the case of the letters of ASCII.
abbrev pub ascii_lower : ℕ → ℕ
ascii_lower c = if leb b'A' c && leb c b'Z' then c + 32 else c

-- Whether the rest of the pattern fits some rest of the text.
unfoldable pub any_suffix : (Text → Bool) → Text → Bool
any_suffix fits [] = fits []
any_suffix fits (c ∷ text) = fits (c ∷ text) || any_suffix fits text

-- What one character of a pattern asks of the text.
abbrev pub like_step : ℕ → (Text → Bool) → Text → Bool
like_step p fits [] = p == b'%' && fits []
like_step p fits (c ∷ text) =
    if p == b'%'
    then any_suffix fits (c ∷ text)
    else (p == b'_' || ascii_lower p == ascii_lower c) && fits text

unfoldable pub like : Text → Text → Bool
unfolding any_suffix
like [] text = is_empty text
like (p ∷ pattern) text = like_step p (like pattern) text

-- A negative limit is none.
abbrev pub limited : {A : Type 0} → ℤ → List A → List A
limited (pos n) rows = take n rows
limited (negsuc n) rows = rows

abbrev pub substring : Text → Text
substring query = codes "%" ++ query ++ codes "%"

unfoldable pub search_files_by_name : Db → Text → ℤ → List FileRow
unfolding like
search_files_by_name db query limit =
    limited limit (filter_by (λ r. like (substring query) r.name) db.files)

unfoldable pub search_dirs_by_name : Db → Text → ℤ → List FileRow
unfolding like
search_dirs_by_name db query limit = limited limit (
    sort_by (λ a b. text_lt a.name b.name)
      (filter_by (λ r. text_eq r.file_type (codes "dir") && like (substring query) r.name)
        db.files))

unfoldable pub search_apps_by_name : Db → Text → List AppRow
unfolding like
search_apps_by_name db query = take 20 (
    sort_by (λ a b. text_lt a.name b.name)
      (filter_by (λ r. like (substring query) r.name) db.applications))
