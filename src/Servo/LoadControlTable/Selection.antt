-- ===== src/Servo/LoadControlTable/Selection.antt =====
-- Which control table `LoadControlTable` selects.
use hsrb_drivers.Prelude.{
  ℕ, ◌≡◌, refl, sym, ap, ◌∙◌, Bool, true, false, ◌&&◌, Option, none, some, List, [], ◌∷◌, inl, inr,
  Bool-cases, Option-cases, drop, same_bytes, same_bytes_self, same_bytes→eq, if◌then◌else◌, arith,
}
use mathlib.Core.Path.{subst}
use hsrb_drivers.Servo.ControlTable.{
  ErrorCode, success, file_open_error, column_size_error, already_recorded, bad_type, ControlTable,
  Libraries, load, calculate_md5_sum, process_lines,
}
use hsrb_drivers.Servo.LoadControlTable.{
  Files, Result, is_success, csv_of, home_csv, tables_of, at_home, chosen, try_directory, search,
  load_control_table,
}

is_success→eq : (e : ErrorCode) → is_success e ≡ true → e ≡ success
is_success→eq success h = refl
is_success→eq file_open_error h = absurd (cc)
is_success→eq column_size_error h = absurd (cc)
is_success→eq already_recorded h = absurd (cc)
is_success→eq bad_type h = absurd (cc)

module _ (libraries : Libraries) (files : Files) (hw_hash selected : List ℕ) where
  open libraries use {Coefficient, md5, lines}

  -- The table of a file with the sum that is asked for, which was loaded behind the entries of `table`.
  pub record IsLoaded (csv : List ℕ) (table after : ControlTable Coefficient) : Type 0 where
    pub message : List ℕ
    pub before : ControlTable Coefficient
    pub is_read : files.read csv ≡ some message
    pub sum : md5 message ≡ hw_hash
    pub entries : before.descriptors ≡ table.descriptors
    pub is_loaded : load libraries (some message) before ≡ some (success, after)

  chosen_if :
      (b : Bool) (table after : ControlTable Coefficient) (csv path : List ℕ)
      → Path
          (Option (Bool × ControlTable Coefficient × List ℕ))
          (if b then some (true, table, csv) else some (false, table, selected))
          (some (true, after, path))
      → (b ≡ true) × (table ≡ after) × (csv ≡ path)
  chosen_if true table after csv path e = (refl, cc, cc)
  chosen_if false table after csv path e = absurd (ground (arith, e))

  load-md5sum :
      (message : List ℕ) (error : ErrorCode) (table after : ControlTable Coefficient)
      → load libraries (some message) table ≡ some (error, after)
      → after.md5sum ≡ md5 message
  unfolding load
  load-md5sum message error table after e =
      elim (Option-cases (process_lines libraries (drop 1 (lines message)) table.descriptors 0)) [
        | inl out ↦ absurd (ground (arith, out))
        | inr ((error, d), r) ↦
            let same : after ≡ record { md5sum = md5 message; descriptors = d } =
              ground (arith, r) in
            ap (λ t. t.md5sum) same
      ]

  at_home-IsLoaded :
      (csv message : List ℕ) (table after : ControlTable Coefficient) (path : List ℕ)
      → files.read csv ≡ some message
      → at_home libraries files hw_hash selected csv (load libraries (some message) table)
        ≡ some (true, after, path)
      → (csv ≡ path) × IsLoaded path table after
  at_home-IsLoaded csv message table after path r e =
      elim (Option-cases (load libraries (some message) table)) [
        | inl out ↦ absurd (ground (arith, out))
        | inr ((error, t), l) ↦
            let (b, same, place) =
              chosen_if (is_success error && same_bytes hw_hash t.md5sum) t after csv path
                (rw l at e) in
            let ok : error ≡ success = is_success→eq error (ground (arith, b)) in
            let sum : hw_hash ≡ t.md5sum = same_bytes→eq hw_hash t.md5sum (ground (arith, b)) in
            (
              place,
              record {
                message = message;
                before = table;
                is_read = ap files.read (sym place) ∙ r;
                sum = sym (load-md5sum message error table t l) ∙ sym sum;
                entries = refl;
                is_loaded = l ∙ ap some (ap (λ c. (c, t)) ok ∙ ap (λ a. (success, a)) same);
              },
            )
      ]

  chosen-IsLoaded :
      (csv message : List ℕ) (table after : ControlTable Coefficient) (path : List ℕ)
      → files.read csv ≡ some message
      → md5 message ≡ hw_hash
      → chosen libraries files hw_hash selected csv (load libraries (some message) table)
        ≡ some (true, after, path)
      → (csv ≡ path) × IsLoaded path table after
  chosen-IsLoaded csv message table after path r h e =
      elim (Option-cases (load libraries (some message) table)) [
        | inl out ↦ absurd (ground (arith, out))
        | inr ((error, t), l) ↦
            let (b, same, place) = chosen_if (is_success error) t after csv path (rw l at e) in
            let ok : error ≡ success = is_success→eq error b in
            (
              place,
              record {
                message = message;
                before = table;
                is_read = ap files.read (sym place) ∙ r;
                sum = h;
                entries = refl;
                is_loaded = l ∙ ap some (ap (λ c. (c, t)) ok ∙ ap (λ a. (success, a)) same);
              },
            )
      ]

  -- A directory whose file has the sum that is asked for.
  pub record IsMatch (directory : List ℕ) : Type 0 where
    pub text : List ℕ
    pub file_exists : files.exists (csv_of directory) ≡ true
    pub has_text : files.read (csv_of directory) ≡ some text
    pub has_sum : md5 text ≡ hw_hash

  -- The first of the directories that is a match.
  pub data IsFirstMatch : List (List ℕ) → List ℕ → Type 0 where
    this :
        (directory : List ℕ) (directories : List (List ℕ))
        → IsMatch directory
        → IsFirstMatch (directory ∷ directories) directory
    later :
        (directory found : List ℕ) (directories : List (List ℕ))
        → ¬ (IsMatch directory)
        → IsFirstMatch directories found
        → IsFirstMatch (directory ∷ directories) found

  -- The result of a search in directories that was a success.
  abbrev IsFound :
      List (List ℕ) → ControlTable Coefficient → ControlTable Coefficient → List ℕ → Type 0
  IsFound directories table after path =
      (found : List ℕ) × (csv_of found ≡ path)
      × IsFirstMatch directories found
      × IsLoaded path table after

  skipped :
      (directory : List ℕ) (directories : List (List ℕ))
      (table table' after : ControlTable Coefficient) (path : List ℕ)
      → ¬ (IsMatch directory)
      → table'.descriptors ≡ table.descriptors
      → IsFound directories table' after path
      → IsFound (directory ∷ directories) table after path
  skipped directory directories table table' after path unlike same (found, place, first, l) = (
    found,
    place,
    later directory found directories unlike first,
    record {
      message = l.message;
      before = l.before;
      is_read = l.is_read;
      sum = l.sum;
      entries = l.entries ∙ same;
      is_loaded = l.is_loaded;
    },
  )

  module _ (csv : List ℕ)
      (rest : ControlTable Coefficient → Result libraries files hw_hash selected)
      (table : ControlTable Coefficient) where
    abbrev attempt : Result libraries files hw_hash selected
    attempt = try_directory libraries files hw_hash selected csv rest table

    no_file : files.exists csv ≡ false → attempt ≡ rest table
    no_file gone = rw gone refl

    no_text : files.exists csv ≡ true → files.read csv ≡ none → attempt ≡ rest table
    unfolding calculate_md5_sum
    no_text there closed = rw (there, closed) refl

    other_sum :
        (text : List ℕ)
        → files.exists csv ≡ true
        → files.read csv ≡ some text
        → same_bytes hw_hash (md5 text) ≡ false
        → attempt ≡ rest (record table { md5sum = md5 text })
    unfolding calculate_md5_sum
    other_sum text there r other = rw (there, r, other) refl

    right_sum :
        (text : List ℕ)
        → files.exists csv ≡ true
        → files.read csv ≡ some text
        → same_bytes hw_hash (md5 text) ≡ true
        → attempt
          ≡ chosen libraries files hw_hash selected csv
              (load libraries (some text) (record table { md5sum = md5 text }))
    unfolding calculate_md5_sum
    right_sum text there r same = rw (there, r, same) refl

  search-IsFound :
      (directories : List (List ℕ)) (table after : ControlTable Coefficient) (path : List ℕ)
      → search libraries files hw_hash selected directories table ≡ some (true, after, path)
      → IsFound directories table after path
  unfolding search
  search-IsFound [] table after path e = absurd (ground (arith, e))
  search-IsFound (directory ∷ directories) table after path e =
      let csv : List ℕ = csv_of directory in
      let rest : ControlTable Coefficient → Result libraries files hw_hash selected =
        search libraries files hw_hash selected directories in
      elim (Bool-cases (files.exists csv)) [
        | inr gone ↦
            skipped directory directories table table after path
              (λ m. absurd (ground (arith, gone, m.file_exists))) refl
              (search-IsFound directories table after path (sym (no_file csv rest table gone) ∙ e))
        | inl there ↦ elim (Option-cases (files.read csv)) [
          | inl closed ↦
              skipped directory directories table table after path
                (λ m. absurd (ground (arith, closed, m.has_text))) refl
                (search-IsFound directories table after path
                  (sym (no_text csv rest table there closed) ∙ e))
          | inr (text, r) ↦ elim (Bool-cases (same_bytes hw_hash (md5 text))) [
            | inr other ↦
                skipped directory directories table (record table { md5sum = md5 text }) after path
                  (λ m. absurd (not_match text m.text r m.has_text other m.has_sum)) refl
                  (search-IsFound directories (record table { md5sum = md5 text }) after path
                    (sym (other_sum csv rest table text there r other) ∙ e))
            | inl same ↦
                let sum : md5 text ≡ hw_hash = sym (same_bytes→eq hw_hash (md5 text) same) in
                let (place, l) =
                  chosen-IsLoaded csv text (record table { md5sum = md5 text }) after path r sum
                    (sym (right_sum csv rest table text there r same) ∙ e) in
                (
                  directory,
                  place,
                  this directory directories
                      (record { text = text; file_exists = there; has_text = r; has_sum = sum }),
                  l_of table (md5 text) after path l,
                )
          ]
        ]
      ]
    where
      not_match :
          (text other : List ℕ) {csv : List ℕ}
          → files.read csv ≡ some text
          → files.read csv ≡ some other
          → same_bytes hw_hash (md5 text) ≡ false
          → md5 other ≡ hw_hash
          → ⊥
      not_match text other r q n h =
          let same : text ≡ other = cc in
          let yes : same_bytes hw_hash (md5 text) ≡ true =
            ap (λ d. same_bytes hw_hash d) (ap md5 same ∙ h) ∙ same_bytes_self hw_hash in
          ground (arith, yes, n)

      l_of :
          (table : ControlTable Coefficient) (sum : List ℕ) (after : ControlTable Coefficient)
          (path : List ℕ)
          → IsLoaded path (record table { md5sum = sum }) after
          → IsLoaded path table after
      l_of table sum after path l = record {
        message = l.message;
        before = l.before;
        is_read = l.is_read;
        sum = l.sum;
        entries = l.entries;
        is_loaded = l.is_loaded;
      }

  -- Where a table that is selected stands.
  pub data IsPlace (home_path package_path : List ℕ) : List ℕ → Type 0 where
    in_home :
        files.exists (home_csv home_path) ≡ true
        → IsPlace home_path package_path (home_csv home_path)
    in_package :
        (directory : List ℕ)
        → files.exists (home_csv home_path) ≡ false
        → IsFirstMatch (files.entries (tables_of package_path)) directory
        → IsPlace home_path package_path (csv_of directory)

  home_csv-IsPlace :
      (home_path package_path path : List ℕ) (text : Option (List ℕ))
      (table after : ControlTable Coefficient)
      → files.read (home_csv home_path) ≡ text
      → files.exists (home_csv home_path) ≡ true
      → at_home libraries files hw_hash selected (home_csv home_path) (load libraries text table)
        ≡ some (true, after, path)
      → IsPlace home_path package_path path × IsLoaded path table after
  unfolding load
  home_csv-IsPlace home_path package_path path none table after r there e =
      absurd (ground (arith, e))
  home_csv-IsPlace home_path package_path path (some text) table after r there e =
      let (place, l) = at_home-IsLoaded (home_csv home_path) text table after path r e in
      (subst (IsPlace home_path package_path) place (in_home there), l)

  -- If `LoadControlTable` succeeds, the file at the path that it gives has the MD5 sum that is asked for, and has been
  -- loaded with success behind the entries that the table had. It is the file in the home directory if there is one,
  -- and else that of the first directory of the package whose file has this sum.
  pub load_control_table-IsLoaded :
      (home_path package_path path : List ℕ) (table after : ControlTable Coefficient)
      → load_control_table libraries files hw_hash selected home_path package_path table
        ≡ some (true, after, path)
      → IsPlace home_path package_path path × IsLoaded path table after
  unfolding load_control_table
  load_control_table-IsLoaded home_path package_path path table after e =
      elim (Bool-cases (files.exists (home_csv home_path))) [
        | inl there ↦
            home_csv-IsPlace home_path package_path path (files.read (home_csv home_path)) table
              after refl there (rw there at e)
        | inr gone ↦ elim (Bool-cases (files.exists (tables_of package_path))) [
          | inr none_there ↦ absurd (ground (arith, (rw (gone, none_there) at e)))
          | inl tables ↦
              let (directory, place, first, l) =
                search-IsFound (files.entries (tables_of package_path)) table after path
                  (rw (gone, tables) at e) in
              (subst (IsPlace home_path package_path) place (in_package directory gone first), l)
        ]
      ]
