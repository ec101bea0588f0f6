-- ===== src/Wire/Fields.antt =====
-- A header whose fields are written one after another.
use mathlib.Core.List.{append_assoc}
use hzl_silicon_switch_lab.Base.{
  ℕ, ◌+◌, ◌≡◌, refl, ap, ◌∙◌, sym, List, [], ◌∷◌, ◌++◌, length, length-append, replicate,
  replicate-add, length-replicate,
}
use hzl_silicon_switch_lab.Wire.{write_field}
use hzl_silicon_switch_lab.Wire.Layout.{be_bytes, length-be_bytes, write-be_bytes}

-- The sizes and the values of the fields.
abbrev pub Fields : Type 0
Fields = List (ℕ × ℕ)

abbrev pub fields_size : Fields → ℕ
fields_size [] = 0
fields_size ((size, value) ∷ fields) = size + fields_size fields

abbrev pub fields_image : Fields → List ℕ
fields_image [] = []
fields_image ((size, value) ∷ fields) = be_bytes size value ++ fields_image fields

-- Each field is written where the one before it ends.
abbrev pub write_fields : Fields → List ℕ → ℕ → List ℕ
write_fields [] bytes offset = bytes
write_fields ((size, value) ∷ fields) bytes offset =
    write_fields fields (write_field size value bytes offset) (offset + size)

write_field-be_bytes :
    (size value : ℕ) (pre old post : List ℕ) (offset : ℕ)
    → length pre ≡ offset
    → length old ≡ size
    → write_field size value (pre ++ (old ++ post)) offset ≡ pre ++ (be_bytes size value ++ post)
unfolding write_field
write_field-be_bytes size value pre old post offset at len =
    rw (write-be_bytes size value pre old post offset at len) refl

-- Written over zeros, the fields are there one after another.
pub write_fields-image :
    (fields : Fields) (pre post : List ℕ) (offset : ℕ)
    → length pre ≡ offset
    → write_fields fields (pre ++ (replicate (fields_size fields) 0 ++ post)) offset
      ≡ pre ++ (fields_image fields ++ post)
write_fields-image [] pre post offset at = refl
write_fields-image ((size, value) ∷ fields) pre post offset at =
    let zeros : List ℕ = replicate size 0 in
    let rest : List ℕ = replicate (fields_size fields) 0 in
    let bytes = be_bytes size value in
    let ends : length (pre ++ bytes) ≡ offset + size =
      length-append pre bytes ∙ rw (at, length-be_bytes size value) refl in
    rw
      (
        replicate-add {A = ℕ} size (fields_size fields) 0,
        append_assoc zeros rest post,
        write_field-be_bytes size value pre zeros (rest ++ post) offset at
            (length-replicate size 0),
        ← append_assoc pre bytes (rest ++ post),
      )
      (write_fields-image fields (pre ++ bytes) post (offset + size) ends
        ∙ append_assoc pre bytes (fields_image fields ++ post)
        ∙ ap (λ t. pre ++ t) (sym (append_assoc bytes (fields_image fields) post)))
