-- ===== src/Storage/Catalog/Files.antt =====
-- The indexed files as a map from paths to rows.
use synapt.Prelude.{
  ◌≡◌, refl, ap, ◌∙◌, inl, inr, Bool, true, false, ◌||◌, Option, none, some, List, [], ◌∷◌, ◌++◌,
  Text, text_eq, text_eq_iff, if◌then◌else◌, Bool-cases, arith,
}
use synapt.Storage.Rows.{FileRow, Db, has_key, write_rows, upsert, delete, select}
use synapt.Storage.Catalog.{upsert_files, delete_files_by_path}

-- The row of a path.
unfoldable pub find_file : Db → Text → Option FileRow
unfolding select
find_file db path = select (λ r. text_eq r.path path) db.files

abbrev at : Text → FileRow → Bool
at path r = text_eq r.path path

select-write_rows :
    (row : FileRow) (j : Text) (rows : List FileRow)
    → has_key (at row.path) rows ≡ true
    → select (at j) (write_rows (at row.path) (λ r. row) rows)
      ≡ (if text_eq row.path j then some row else select (at j) rows)
unfolding has_key select write_rows
select-write_rows row j [] h = cc
select-write_rows row j (r ∷ rows) h = ground (
  arith,
  select-write_rows row j rows,
  select-other row j rows,
  text_eq_iff r.path row.path,
  text_eq_iff r.path j,
  text_eq_iff row.path j,
)
  where
    select-other :
        (row : FileRow) (j : Text) (rows : List FileRow)
        → has_key (at row.path) rows ≡ false
        → text_eq row.path j ≡ false
        → select (at j) (write_rows (at row.path) (λ r. row) rows) ≡ select (at j) rows
    select-other row j [] h k = refl
    select-other row j (r ∷ rows) h k = ground (arith, select-other row j rows)

select-append :
    (row : FileRow) (j : Text) (rows : List FileRow)
    → has_key (at row.path) rows ≡ false
    → select (at j) (rows ++ row ∷ [])
      ≡ (if text_eq row.path j then some row else select (at j) rows)
unfolding has_key select
select-append row j [] h = ground arith
select-append row j (r ∷ rows) h = ground (
  arith,
  select-append row j rows,
  text_eq_iff r.path row.path,
  text_eq_iff r.path j,
  text_eq_iff row.path j,
)

select-upsert :
    (row : FileRow) (j : Text) (rows : List FileRow)
    → select (at j) (upsert (at row.path) row rows)
      ≡ (if text_eq row.path j then some row else select (at j) rows)
unfolding upsert
select-upsert row j rows = elim (Bool-cases (has_key (at row.path) rows)) [
  | inl e ↦ rw e (select-write_rows row j rows e)
  | inr e ↦ rw e (select-append row j rows e)
]

-- The last of the rows for a path, or what was there before.
abbrev pub last_for : Text → List FileRow → Option FileRow → Option FileRow
last_for path [] old = old
last_for path (r ∷ rows) old = last_for path rows (if text_eq r.path path then some r else old)

-- After `upsert_files` each path has the last row given for it, and a path for which none was given
-- keeps the row that it had.
pub find-upsert_files :
    (db : Db) (rows : List FileRow) (path : Text)
    → find_file (upsert_files db rows) path ≡ last_for path rows (find_file db path)
unfolding upsert_files find_file
find-upsert_files db [] path = refl
find-upsert_files db (row ∷ rows) path =
    find-upsert_files (record db { files = upsert (at row.path) row db.files }) rows path
    ∙ ap (last_for path rows) (select-upsert row path db.files)

-- Whether a path is among those given.
abbrev pub listed : Text → List Text → Bool
listed path [] = false
listed path (p ∷ paths) = text_eq p path || listed path paths

select-delete :
    (p j : Text) (rows : List FileRow)
    → select (at j) (delete (at p) rows) ≡ (if text_eq p j then none else select (at j) rows)
unfolding select delete
select-delete p j [] = ground arith
select-delete p j (r ∷ rows) =
    ground
      (arith, select-delete p j rows, text_eq_iff r.path p, text_eq_iff r.path j, text_eq_iff p j)

-- After `delete_files_by_path` no path given has a row, and every other path keeps its row.
pub find-delete_files_by_path :
    (db : Db) (paths : List Text) (path : Text)
    → find_file (delete_files_by_path db paths) path
      ≡ (if listed path paths then none else find_file db path)
unfolding delete_files_by_path find_file
find-delete_files_by_path db [] path = refl
find-delete_files_by_path db (p ∷ paths) path = ground (
  arith,
  find-delete_files_by_path (record db { files = delete (at p) db.files }) paths path,
  select-delete p path db.files,
)
