-- ===== src/Storage/Catalog.antt =====
-- storage/db.rs: indexed files, directories and applications.
pub mod Files
use synapt.Prelude.{
  ℕ, ◌+◌, Option, none, some, List, [], ◌∷◌, ◌++◌, map, length, filter_by, Text, codes, text_eq,
  text_lt, ℤ, pos, if◌then◌else◌,
}
use synapt.Prelude.Sort.{sort_by}
use synapt.Storage.Rows.{
  FileRow, AppRow, IndexedDirRow, Db, has_key, write_rows, upsert, delete, select,
}

unfoldable pub upsert_files : Db → List FileRow → Db
unfolding upsert
upsert_files db [] = db
upsert_files db (row ∷ rows) =
    upsert_files (record db { files = upsert (λ r. text_eq r.path row.path) row db.files }) rows

unfoldable pub delete_files_by_path : Db → List Text → Db
unfolding delete
delete_files_by_path db [] = db
delete_files_by_path db (path ∷ paths) =
    delete_files_by_path (record db { files = delete (λ r. text_eq r.path path) db.files }) paths

unfoldable pub get_all_file_paths : Db → List Text
get_all_file_paths db = map (λ r. r.path) db.files

unfoldable pub get_all_files_for_index : Db → List FileRow
get_all_files_for_index db = sort_by (λ a b. text_lt a.name b.name) db.files

unfoldable pub count_files : Db → ℕ
count_files db = length db.files

unfoldable pub count_dirs : Db → ℕ
count_dirs db = length (filter_by (λ r. text_eq r.file_type (codes "dir")) db.files)

unfoldable pub get_indexed_dirs : Db → List IndexedDirRow
get_indexed_dirs db = sort_by (λ a b. text_lt a.path b.path) db.indexed_dirs

-- `INSERT OR IGNORE`, with the defaults of the other columns
unfoldable pub add_indexed_dir : Db → Text → Db
unfolding has_key
add_indexed_dir db path =
    if has_key (λ r. text_eq r.path path) db.indexed_dirs then db else record db {
      indexed_dirs =
          db.indexed_dirs ++ record { path = path; file_count = pos 0; last_indexed = none } ∷ [];
    }

unfoldable pub remove_indexed_dir : Db → Text → Db
unfolding delete
remove_indexed_dir db path = record db {
  indexed_dirs = delete (λ r. text_eq r.path path) db.indexed_dirs;
}

-- `now` is `unixepoch()`.
unfoldable pub update_indexed_dir_count : ℤ → Db → Text → ℤ → Db
unfolding write_rows
update_indexed_dir_count now db path count = record db {
  indexed_dirs =
      write_rows (λ r. text_eq r.path path)
        (λ r. record r { file_count = count; last_indexed = some now }) db.indexed_dirs;
}

-- `INSERT OR REPLACE`: the row with the source path goes, and the new one has the next id.
unfoldable pub upsert_app : Db → AppRow → Db
unfolding delete
upsert_app db row = record db {
  applications =
      delete (λ r. text_eq r.source_path row.source_path) db.applications
      ++ record row { id = db.next_app } ∷ [];
  next_app = db.next_app + 1;
}

unfoldable pub get_all_apps : Db → List AppRow
get_all_apps db = sort_by (λ a b. text_lt a.name b.name) db.applications

unfoldable pub clear_apps : Db → Db
clear_apps db = record db { applications = [] }

unfoldable pub app_exec_by_source_path : Db → Text → Option Text
unfolding select
app_exec_by_source_path db source_path =
    elim (select (λ r. text_eq r.source_path source_path) db.applications) [
      | none ↦ none
      | some r ↦ some r.exec
    ]
