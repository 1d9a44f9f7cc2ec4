-- ===== src/Servo/ControlTable.antt =====
-- `ControlTable` of control_table.cpp, and the addresses of `ControlTableItemDescriptor`: the CSV file is read line by
-- line. The files, the MD5 sum, the tokenizer and the parser of numbers are given by what they return.
pub mod Layout
use hsrb_drivers.Prelude.{
  ℕ, ◌+◌, ◌%◌, ◌^◌, Bool, true, false, not, Option, none, some, List, [], ◌∷◌, ◌++◌, ◌==◌,
  if◌then◌else◌, length, get_or, drop, codes, same_bytes,
}

pub data ErrorCode : Type 0 where
  success file_open_error column_size_error already_recorded bad_type : ErrorCode

pub data ValueType : Type 0 where
  uint8 int8 uint16 int16 uint32 int32 uint64 int64 float double : ValueType

unfoldable pub size_of : ValueType → ℕ
size_of uint8 = 1
size_of int8 = 1
size_of uint16 = 2
size_of int16 = 2
size_of uint32 = 4
size_of int32 = 4
size_of float = 4
size_of uint64 = 8
size_of int64 = 8
size_of double = 8

-- The names of the types in the file.
abbrev type_names : List (List ℕ × ValueType)
type_names =
    (codes "uint8_t", uint8)
    ∷ (codes "int8_t", int8)
    ∷ (codes "uint16_t", uint16)
    ∷ (codes "int16_t", int16)
    ∷ (codes "uint32_t", uint32)
    ∷ (codes "int32_t", int32)
    ∷ (codes "uint64_t", uint64)
    ∷ (codes "int64_t", int64)
    ∷ (codes "float", float)
    ∷ (codes "double", double)
    ∷ []

unfoldable pub find {ℓ} : {A : Type ℓ} → List ℕ → List (List ℕ × A) → Option A
find name [] = none
find name ((n, a) ∷ rest) = if same_bytes n name then some a else find name rest

-- `ControlTableItemDescriptor`
pub record Descriptor (Coefficient : Type 0) : Type 0 where
  pub type : ValueType
  pub initial_address : ℕ
  pub final_address : ℕ
  pub attribute : List ℕ
  pub coefficient_mks : Coefficient
  pub num_bytes : ℕ

unfoldable pub make_descriptor :
    {Coefficient : Type 0} → ValueType → ℕ → List ℕ → Coefficient → Descriptor Coefficient
unfolding size_of
make_descriptor type initial_address attribute coefficient_mks = record {
  type = type;
  initial_address = initial_address;
  final_address = (initial_address + size_of type) % 2 ^ 16;
  attribute = attribute;
  coefficient_mks = coefficient_mks;
  num_bytes = size_of type;
}

abbrev pub Descriptors : Type 0 → Type 0
Descriptors Coefficient = List (List ℕ × Descriptor Coefficient)

pub record ControlTable (Coefficient : Type 0) : Type 0 where
  pub md5sum : List ℕ
  pub descriptors : Descriptors Coefficient

-- `ReferItemDescriptor`
unfoldable pub refer_item_descriptor :
    {Coefficient : Type 0} → List ℕ → ControlTable Coefficient → Option (Descriptor Coefficient)
unfolding find
refer_item_descriptor entry table = find entry table.descriptors

-- What the code uses of other libraries: `boost::lexical_cast<double>` (`none` is `bad_lexical_cast`), the columns of
-- a line (`none` is the exception of a malformed escape, which leaves `Load`), the lines of a file, and its MD5 sum.
pub record Libraries : Type 1 where
  pub Coefficient : Type 0
  pub one : Coefficient
  pub lexical_cast : List ℕ → Option Coefficient
  pub tokenize : List ℕ → Option (List (List ℕ))
  pub lines : List ℕ → List (List ℕ)
  pub md5 : List ℕ → List ℕ

module _ (libraries : Libraries) where
  open libraries use {Coefficient, one, lexical_cast, tokenize, lines, md5}

  abbrev pub coefficient : Option Coefficient → Coefficient
  coefficient none = one
  coefficient (some c) = c

  -- The columns of a line: the type, the name, the coefficient and the attribute are the columns 1, 2, 5 and 6.
  abbrev record_entry :
      List (List ℕ) → Descriptors Coefficient → ℕ → ErrorCode × Descriptors Coefficient × ℕ
  record_entry columns descriptors last_address =
      let name = get_or columns 2 [] in
      let coeff_mks = coefficient (lexical_cast (get_or columns 5 [])) in
      if not (length columns == 12)
      then (column_size_error, descriptors, last_address)
      else (elim (find name descriptors) [
        | some _ ↦ (already_recorded, descriptors, last_address)
        | none ↦ elim (find (get_or columns 1 []) type_names) [
          | none ↦ (bad_type, descriptors, last_address)
          | some type ↦ (
            success,
            descriptors
                ++ (name, make_descriptor type last_address (get_or columns 6 []) coeff_mks) ∷ [],
            (last_address + size_of type) % 2 ^ 16,
          )
        ]
      ])

  -- `ProcessLine`, with the address behind the last entry, a `uint16_t`.
  unfoldable pub process_line :
      List ℕ → Descriptors Coefficient → ℕ → Option (ErrorCode × Descriptors Coefficient × ℕ)
  unfolding find make_descriptor size_of
  process_line line descriptors last_address = elim (tokenize line) [
    | none ↦ none
    | some columns ↦ some (record_entry columns descriptors last_address)
  ]

  abbrev pub go_on :
      Option (ErrorCode × Descriptors Coefficient × ℕ)
      → (Descriptors Coefficient → ℕ → Option (ErrorCode × Descriptors Coefficient))
      → Option (ErrorCode × Descriptors Coefficient)
  go_on none more = none
  go_on (some (success, descriptors, last_address)) more = more descriptors last_address
  go_on (some (error, descriptors, last_address)) more = some (error, descriptors)

  -- The loop of `Load`, which ends with the first error.
  unfoldable pub process_lines :
      List (List ℕ) → Descriptors Coefficient → ℕ → Option (ErrorCode × Descriptors Coefficient)
  unfolding process_line
  process_lines [] descriptors last_address = some (success, descriptors)
  process_lines (line ∷ rest) descriptors last_address =
      go_on (process_line line descriptors last_address) (process_lines rest)

  abbrev loaded :
      List ℕ
      → Option (ErrorCode × Descriptors Coefficient)
      → Option (ErrorCode × ControlTable Coefficient)
  loaded sum none = none
  loaded sum (some (error, descriptors)) =
      some (error, record { md5sum = sum; descriptors = descriptors })

  -- `Load` of a file, which may fail to open; the first line is a comment.
  unfoldable pub load :
      Option (List ℕ) → ControlTable Coefficient → Option (ErrorCode × ControlTable Coefficient)
  unfolding process_lines
  load none table = some (file_open_error, table)
  load (some message) table =
      loaded (md5 message) (process_lines (drop 1 (lines message)) table.descriptors 0)

  -- `CalculateMd5Sum` of a file.
  unfoldable pub calculate_md5_sum :
      Option (List ℕ) → ControlTable Coefficient → ErrorCode × ControlTable Coefficient
  calculate_md5_sum none table = (file_open_error, table)
  calculate_md5_sum (some message) table = (success, record table { md5sum = md5 message })
