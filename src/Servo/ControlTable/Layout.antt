-- ===== src/Servo/ControlTable/Layout.antt =====
-- The entries of a table that is loaded: one for each line, one behind the other, each found by its name.
use hsrb_drivers.Prelude.{
  ℕ, ◌+◌, ◌-◌, ◌%◌, ◌^◌, ◌≡◌, refl, sym, ap, ◌∙◌, inl, inr, Option, none, some, List, [], ◌∷◌, ◌++◌,
  All, length, length-append, length-drop, get_or, drop, arith, Bool-cases, Option-cases,
  same_bytes, same_bytes_self, ◌==◌,
}
use hsrb_drivers.Servo.ControlTable.{
  ErrorCode, success, ValueType, size_of, type_names, find, Descriptor, make_descriptor,
  Descriptors, ControlTable, refer_item_descriptor, Libraries, coefficient, record_entry, go_on,
  file_open_error, column_size_error, already_recorded, bad_type, process_line, process_lines, load,
}

-- Entries from one address to another, each behind the one before it.
pub data IsLaidOut {Coefficient : Type 0} : ℕ → Descriptors Coefficient → ℕ → Type 0 where
  nothing : (a : ℕ) → IsLaidOut a [] a
  entry :
      (a b : ℕ) (name : List ℕ) (d : Descriptor Coefficient) (rest : Descriptors Coefficient)
      → d.initial_address ≡ a
      → d.num_bytes ≡ size_of d.type
      → d.final_address ≡ (a + d.num_bytes) % 2 ^ 16
      → IsLaidOut d.final_address rest b
      → IsLaidOut a ((name, d) ∷ rest) b

-- Each entry is the one that its name finds.
abbrev pub Finds :
    {Coefficient : Type 0} → Descriptors Coefficient → Descriptors Coefficient → Type 0
Finds table entries = All (λ e. find e.0 table ≡ some e.1) entries

module _ {Coefficient : Type 0} where
  IsLaidOut-append :
      (a b : ℕ) (entries : Descriptors Coefficient) (name attribute : List ℕ) (type : ValueType)
      (c : Coefficient)
      → IsLaidOut a entries b
      → IsLaidOut a
          (entries ++ (name, make_descriptor type b attribute c) ∷ [])
          ((b + size_of type) % 2 ^ 16)
  unfolding make_descriptor
  IsLaidOut-append a b [] name attribute type c (nothing _) =
      entry a _ name _ [] refl refl refl (nothing _)
  IsLaidOut-append a b ((n, d) ∷ rest) name attribute type c (entry _ _ _ _ _ i s f l) =
      entry a _ n d _ i s f (IsLaidOut-append d.final_address b rest name attribute type c l)

  find-append :
      (name : List ℕ) (d : Descriptor Coefficient) (entries more : Descriptors Coefficient)
      → find name entries ≡ some d
      → find name (entries ++ more) ≡ some d
  unfolding find
  find-append name d [] more e = absurd (ground arith)
  find-append name d ((n, x) ∷ entries) more e = elim (Bool-cases (same_bytes n name)) [
    | inl h ↦ rw h (rw h at e)
    | inr h ↦ rw h (find-append name d entries more (rw h at e))
  ]

  find-new :
      (name : List ℕ) (d : Descriptor Coefficient) (entries : Descriptors Coefficient)
      → find name entries ≡ none
      → find name (entries ++ (name, d) ∷ []) ≡ some d
  unfolding find
  find-new name d [] e = rw (same_bytes_self name) refl
  find-new name d ((n, x) ∷ entries) e = elim (Bool-cases (same_bytes n name)) [
    | inl h ↦ absurd (ground (arith, h))
    | inr h ↦ rw h (find-new name d entries (rw h at e))
  ]

  Finds-append :
      (table more entries : Descriptors Coefficient) (name : List ℕ) (d : Descriptor Coefficient)
      → Finds table entries
      → find name (table ++ more) ≡ some d
      → Finds (table ++ more) (entries ++ (name, d) ∷ [])
  Finds-append table more [] name d f e = (e, tt)
  Finds-append table more ((n, x) ∷ entries) name d (g, f) e =
      (find-append n x table more g, Finds-append table more entries name d f e)

  -- A table with its entries laid out from address 0, to the address `last_address`.
  pub record IsTable (entries : Descriptors Coefficient) (last_address : ℕ) : Type 0 where
    pub laid : IsLaidOut 0 entries last_address
    pub found : Finds entries entries

module _ (libraries : Libraries) where
  open libraries use {Coefficient, one, lexical_cast, tokenize, lines, md5}

  -- What a line that is recorded leaves.
  record IsRecorded (before after : Descriptors Coefficient) (last_address' : ℕ) : Type 0 where
    table : IsTable after last_address'
    one_more : length after ≡ length before + 1

  record_entry-IsRecorded :
      (columns : List (List ℕ)) (entries after : Descriptors Coefficient)
      (last_address last_address' : ℕ)
      → IsTable entries last_address
      → record_entry libraries columns entries last_address ≡ (success, after, last_address')
      → IsRecorded entries after last_address'
  record_entry-IsRecorded columns entries after last_address last_address' w e =
      let name = get_or columns 2 [] in
      elim (Bool-cases (length columns == 12)) [
        | inr h ↦ absurd (ground (arith, h))
        | inl h ↦ elim (Option-cases (find name entries)) [
          | inr (d, f) ↦ absurd (ground (arith, h, f))
          | inl new ↦ elim (Option-cases (find (get_or columns 1 []) type_names)) [
            | inl out ↦ absurd (ground (arith, h, new, out))
            | inr (type, f) ↦
                let c = coefficient libraries (lexical_cast (get_or columns 5 [])) in
                let d = make_descriptor type last_address (get_or columns 6 []) c in
                let grown : after ≡ entries ++ (name, d) ∷ [] = ground (arith, h, new, f) in
                let moved : last_address' ≡ (last_address + size_of type) % 2 ^ 16 =
                  ground (arith, h, new, f) in
                rw (grown, moved)
                  (record {
                    table = record {
                      laid =
                          IsLaidOut-append 0 last_address entries name (get_or columns 6 []) type c
                            w.laid;
                      found =
                          Finds-append entries ((name, d) ∷ []) entries name d w.found
                            (find-new name d entries new);
                    };
                    one_more = length-append entries ((name, d) ∷ []);
                  })
          ]
        ]
      ]

  go_on_success :
      (r : Option (ErrorCode × Descriptors Coefficient × ℕ))
      (more : Descriptors Coefficient → ℕ → Option (ErrorCode × Descriptors Coefficient))
      (after : Descriptors Coefficient)
      → go_on libraries r more ≡ some (success, after)
      → (d : Descriptors Coefficient) × (a : ℕ) × (r ≡ some (success, d, a))
        × (more d a ≡ some (success, after))
  go_on_success none more after e = absurd (ground arith)
  go_on_success (some (success, d, a)) more after e = (d, a, refl, e)
  go_on_success (some (file_open_error, d, a)) more after e = absurd (ground arith)
  go_on_success (some (column_size_error, d, a)) more after e = absurd (ground arith)
  go_on_success (some (already_recorded, d, a)) more after e = absurd (ground arith)
  go_on_success (some (bad_type, d, a)) more after e = absurd (ground arith)

  process_line-IsRecorded :
      (line : List ℕ) (entries after : Descriptors Coefficient) (last_address last_address' : ℕ)
      → IsTable entries last_address
      → process_line libraries line entries last_address ≡ some (success, after, last_address')
      → IsRecorded entries after last_address'
  unfolding process_line
  process_line-IsRecorded line entries after last_address last_address' w e =
      elim (Option-cases (tokenize line)) [
        | inl out ↦ absurd (ground (arith, out))
        | inr (columns, t) ↦
            let recorded : some (record_entry libraries columns entries last_address)
                ≡ some (success, after, last_address') =
              rw (t, process_line) at e in
            record_entry-IsRecorded columns entries after last_address last_address' w cc
      ]

  process_lines-IsRecorded :
      (rest : List (List ℕ)) (entries after : Descriptors Coefficient) (last_address : ℕ)
      → IsTable entries last_address
      → process_lines libraries rest entries last_address ≡ some (success, after)
      → (last_address' : ℕ) × IsTable after last_address'
        × (length after ≡ length entries + length rest)
  unfolding process_lines
  process_lines-IsRecorded [] entries after last_address w e =
      let same : entries ≡ after = ground arith in
      (last_address, rw same at w, ap length (sym same) ∙ (omega arith))
  process_lines-IsRecorded (line ∷ rest) entries after last_address w e =
      let (d, a, r, more) =
        go_on_success (process_line libraries line entries last_address)
          (process_lines libraries rest) after e in
      let one = process_line-IsRecorded line entries d last_address a w r in
      let (b, table, long) = process_lines-IsRecorded rest d after a one.table more in
      (b, table, omega (arith, long, one.one_more))

  -- If a table without entries is loaded with success, it has an entry for each line of the file behind the first; they
  -- are laid out one behind the other from address 0, modulo 2^16, each with the size of its type; and the name of each
  -- entry refers to its descriptor, so no name occurs twice.
  pub load-IsTable :
      (message : List ℕ) (table after : ControlTable Coefficient)
      → table.descriptors ≡ []
      → load libraries (some message) table ≡ some (success, after)
      → (last_address : ℕ) × IsLaidOut 0 after.descriptors last_address
        × (length after.descriptors ≡ length (lines message) - 1)
        × All (λ e. refer_item_descriptor e.0 after ≡ some e.1) after.descriptors
        × (after.md5sum ≡ md5 message)
  unfolding load refer_item_descriptor
  load-IsTable message table after none_yet e =
      let begun : IsTable table.descriptors 0 =
        rw none_yet (record { laid = nothing 0; found = tt }) in
      elim (Option-cases (process_lines libraries (drop 1 (lines message)) table.descriptors 0)) [
        | inl out ↦ absurd (ground (arith, out))
        | inr ((error, d), r) ↦
            let ok : error ≡ success = ground (arith, r) in
            let same : after ≡ record { md5sum = md5 message; descriptors = d } =
              ground (arith, r) in
            let (b, w, long) =
              process_lines-IsRecorded (drop 1 (lines message)) table.descriptors d 0 begun
                (r ∙ ap (λ c. some (c, d)) ok) in
            let count : length d ≡ length (lines message) - 1 =
              omega (arith, long, ap length none_yet, length-drop 1 (lines message)) in
            rw same (b, w.laid, count, w.found, refl)
      ]
