-- ===== src/Export/Tests.antt =====
-- Runs of the CSV export at concrete inputs, and an instance of its theorem.
use polyquantlab.Common.{◌≡◌, refl, [], ◌∷◌, map, none, some}
use polyquantlab.Export.Csv.{
  text_cell, null_cell, printed_cell, Row, kind_of, needs_quotes, double_quotes, csv_escape,
  add_keys, columns_of, infer_columns, fields_of, to_csv,
}
use polyquantlab.Export.Reader.{read, rows_of, read_csv}
use polyquantlab.Export.RoundTrip.{read_csv-to_csv}

-- `{ a: "x,\"", b: 1 }` and `{ c: null }`
abbrev first : Row
first = (97 ∷ [], text_cell (120 ∷ 44 ∷ 34 ∷ [])) ∷ (98 ∷ [], printed_cell (49 ∷ [])) ∷ []

abbrev second : Row
second = (99 ∷ [], null_cell) ∷ []

escaped : csv_escape (120 ∷ 44 ∷ 34 ∷ []) ≡ 34 ∷ 120 ∷ 44 ∷ 34 ∷ 34 ∷ 34 ∷ []
unfolding csv_escape needs_quotes kind_of double_quotes
escaped = refl

inferred : infer_columns (first ∷ second ∷ []) ≡ (97 ∷ []) ∷ (98 ∷ []) ∷ (99 ∷ []) ∷ []
unfolding infer_columns columns_of add_keys
inferred = refl

-- `a\rb` as a bare field is no text of the grammar; quoted it is read as it is.
return_bare : read_csv (97 ∷ 13 ∷ 98 ∷ 10 ∷ []) ≡ none
unfolding read_csv read rows_of kind_of
return_bare = refl

return_quoted :
    read_csv (34 ∷ 97 ∷ 13 ∷ 98 ∷ 34 ∷ 13 ∷ 10 ∷ []) ≡ some (((97 ∷ 13 ∷ 98 ∷ []) ∷ []) ∷ [])
unfolding read_csv read rows_of kind_of
return_quoted = refl

read_csv-to_csv_example :
    read_csv (to_csv (first ∷ second ∷ []) none)
    ≡ some (
        ((97 ∷ []) ∷ (98 ∷ []) ∷ (99 ∷ []) ∷ [])
        ∷ map (fields_of ((97 ∷ []) ∷ (98 ∷ []) ∷ (99 ∷ []) ∷ [])) (first ∷ second ∷ []))
unfolding infer_columns columns_of add_keys
read_csv-to_csv_example =
    read_csv-to_csv first (second ∷ []) none (97 ∷ []) ((98 ∷ []) ∷ (99 ∷ []) ∷ []) refl
