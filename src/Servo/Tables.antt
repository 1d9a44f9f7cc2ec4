-- ===== src/Servo/Tables.antt =====
-- A run of the loading of a control table.
use hsrb_drivers.Prelude.{
  ℕ, ◌-◌, ◌≡◌, refl, some, List, [], ◌∷◌, ◌==◌, if◌then◌else◌, length, All, codes, true, not,
  same_bytes, ◌&&◌,
}
use hsrb_drivers.Servo.ControlTable.{
  success, uint8, int16, size_of, find, make_descriptor, ControlTable, refer_item_descriptor,
  Libraries, process_line, process_lines, load, calculate_md5_sum,
}
use hsrb_drivers.Servo.LoadControlTable.{Files, csv_of, home_csv, search, load_control_table}
use hsrb_drivers.Servo.LoadControlTable.Selection.{IsPlace, IsLoaded, load_control_table-IsLoaded}
use hsrb_drivers.Servo.ControlTable.Layout.{IsLaidOut, load-IsTable}

-- A stand-in for the tokenizer and for `std::getline`.
abbrev in_front : ℕ → List (List ℕ) → List (List ℕ)
in_front x [] = (x ∷ []) ∷ []
in_front x (first ∷ rest) = (x ∷ first) ∷ rest

abbrev split : ℕ → List ℕ → List (List ℕ)
split separator [] = [] ∷ []
split separator (x ∷ xs) =
    let rest = split separator xs in if x == separator then [] ∷ rest else in_front x rest

abbrev plain : Libraries
plain = record {
  Coefficient = ℕ;
  one = 1;
  lexical_cast = λ text. some (length text);
  tokenize = λ line. some (split b',' line);
  lines = split b'|';
  md5 = λ message. [];
}

abbrev file : List ℕ
file = codes "name|0,uint8_t,id,,,1,r,,,,,|1,int16_t,angle,,,10,rw,,,,,"

abbrev empty : ControlTable ℕ
empty = record { md5sum = []; descriptors = [] }

abbrev table : ControlTable ℕ
table = record {
  md5sum = [];
  descriptors =
      (
        codes "id",
        record {
          type = uint8;
          initial_address = 0;
          final_address = 1;
          attribute = codes "r";
          coefficient_mks = 1;
          num_bytes = 1;
        },
      )
      ∷ (
        codes "angle",
        record {
          type = int16;
          initial_address = 1;
          final_address = 3;
          attribute = codes "rw";
          coefficient_mks = 2;
          num_bytes = 2;
        },
      )
      ∷ [];
}

load_run : load plain (some file) empty ≡ some (success, table)
unfolding load process_lines process_line find make_descriptor size_of
load_run = refl

load-IsTable_example :
    (last_address : ℕ) × IsLaidOut 0 table.descriptors last_address
    × (length table.descriptors ≡ length (split b'|' file) - 1)
    × All (λ e. refer_item_descriptor e.0 table ≡ some e.1) table.descriptors
    × (table.md5sum ≡ [])
load-IsTable_example = load-IsTable plain file empty table refl load_run

-- Two directories, the first of them without a table, and nothing in the home directory.
abbrev installed : Files
installed = record {
  exists = λ path.
      not (same_bytes path (home_csv (codes "/home/hsr")))
      && not (same_bytes path (csv_of (codes "v1")));
  read = λ path. some file;
  entries = λ path. codes "v1" ∷ codes "v2" ∷ [];
}

selects_second :
    load_control_table plain installed [] [] (codes "/home/hsr") (codes "/opt/hsr") empty
    ≡ some (true, table, codes "v2/control_table.csv")
unfolding load_control_table search calculate_md5_sum load process_lines process_line find
    make_descriptor size_of
selects_second = refl

load_control_table-IsLoaded_example :
    IsPlace plain installed [] []
      (codes "/home/hsr")
      (codes "/opt/hsr")
      (codes "v2/control_table.csv")
    × IsLoaded plain installed [] [] (codes "v2/control_table.csv") empty table
load_control_table-IsLoaded_example =
    load_control_table-IsLoaded plain installed [] [] (codes "/home/hsr") (codes "/opt/hsr")
      (codes "v2/control_table.csv") empty table selects_second
