-- ===== src/Servo/LoadControlTable.antt =====
-- `LoadControlTable` of load_control_table.cpp: the control table in the home directory, or else the one of the package
-- whose MD5 sum is asked for. A file is the same whenever it is read.
pub mod Selection
use hsrb_drivers.Prelude.{
  ℕ, Bool, true, false, not, ◌&&◌, Option, none, some, List, [], ◌∷◌, ◌++◌, if◌then◌else◌, codes,
  same_bytes,
}
use hsrb_drivers.Servo.ControlTable.{
  ErrorCode, success, ControlTable, Libraries, load, calculate_md5_sum,
}

-- The files: `boost::filesystem::exists`, the text of a file that can be opened, and the paths that a
-- `directory_iterator` gives.
pub record Files : Type 0 where
  pub exists : List ℕ → Bool
  pub read : List ℕ → Option (List ℕ)
  pub entries : List ℕ → List (List ℕ)

abbrev pub is_success : ErrorCode → Bool
is_success success = true
is_success _ = false

abbrev pub csv_of : List ℕ → List ℕ
csv_of path = path ++ codes "/control_table.csv"

abbrev pub home_csv : List ℕ → List ℕ
home_csv home_path = home_path ++ codes "/.control_table/control_table.csv"

abbrev pub tables_of : List ℕ → List ℕ
tables_of package_path = package_path ++ codes "/control_tables"

module _ (libraries : Libraries) (files : Files) (hw_hash selected : List ℕ) where
  open libraries use {Coefficient}
  open files use {exists, read, entries}

  -- The result, the table, and `selected_path_out`, which was `selected`; `none` is an exception that leaves `Load`.
  abbrev pub Result : Type 0
  Result = Option (Bool × ControlTable Coefficient × List ℕ)

  abbrev pub at_home : List ℕ → Option (ErrorCode × ControlTable Coefficient) → Result
  at_home csv none = none
  at_home csv (some (error, table)) =
      if is_success error && same_bytes hw_hash table.md5sum
      then some (true, table, csv)
      else some (false, table, selected)

  abbrev pub chosen : List ℕ → Option (ErrorCode × ControlTable Coefficient) → Result
  chosen csv none = none
  chosen csv (some (error, table)) =
      if is_success error then some (true, table, csv) else some (false, table, selected)

  -- The body of the loop over the directories, with the rest of the loop.
  abbrev pub try_directory :
      List ℕ → (ControlTable Coefficient → Result) → ControlTable Coefficient → Result
  try_directory csv rest table =
      let summed = calculate_md5_sum libraries (read csv) table in
      if not (exists csv)
      then rest table
      else if is_success summed.0 && same_bytes hw_hash summed.1.md5sum
      then chosen csv (load libraries (read csv) summed.1)
      else rest summed.1

  unfoldable pub search : List (List ℕ) → ControlTable Coefficient → Result
  unfolding calculate_md5_sum load
  search [] table = some (false, table, selected)
  search (path ∷ paths) table = try_directory (csv_of path) (search paths) table

  unfoldable pub load_control_table : List ℕ → List ℕ → ControlTable Coefficient → Result
  unfolding search load
  load_control_table home_path package_path table =
      if exists (home_csv home_path)
      then at_home (home_csv home_path) (load libraries (read (home_csv home_path)) table)
      else if not (exists (tables_of package_path))
      then some (false, table, selected)
      else search (entries (tables_of package_path)) table
