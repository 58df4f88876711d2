-- ===== src/Export/Csv.antt =====
-- The CSV writer of web/components/ExportButtons.tsx: `csvEscape`, `stringifyCell`, `inferColumns`
-- and `toCsv`. A text is a list of UTF-16 code units.
use polyquantlab.Common.{
  ℕ, ◌==◌, Bool, true, false, ◌&&◌, List, [], ◌∷◌, ◌++◌, map, Option, none, some, take, any,
  if◌then◌else◌,
}

abbrev pub Text : Type 0
Text = List ℕ

pub data Kind : Type 0 where
  comma quote line_feed return ordinary : Kind

unfoldable pub kind_of : ℕ → Kind
kind_of c =
    if c == 44
    then comma
    else if c == 34
    then quote
    else if c == 10
    then line_feed
    else if c == 13
    then return
    else ordinary

abbrev pub is_special : Kind → Bool
is_special ordinary = false
is_special _ = true

-- `/[",\n\r]/.test(s)`
unfoldable pub needs_quotes : Text → Bool
needs_quotes s = any (λ c. is_special (kind_of c)) s

abbrev pub twice_if : Kind → ℕ → Text → Text
twice_if quote c s = c ∷ c ∷ s
twice_if _ c s = c ∷ s

-- `s.replace(/"/g, '""')`
unfoldable pub double_quotes : Text → Text
double_quotes [] = []
double_quotes (c ∷ s) = twice_if (kind_of c) c (double_quotes s)

abbrev pub escape_if : Bool → Text → Text
escape_if true s = 34 ∷ (double_quotes s ++ (34 ∷ []))
escape_if false s = s

-- `csvEscape`
unfoldable pub csv_escape : Text → Text
csv_escape s = escape_if (needs_quotes s) s

-- A value of a row: `null`, a text, a number or Boolean with its printed text, or an object with its
-- JSON, if it has one.
pub data Cell : Type 0 where
  null_cell : Cell
  text_cell printed_cell : Text → Cell
  object_cell : Option Text → Cell

abbrev pub stringify_cell : Cell → Text
stringify_cell null_cell = []
stringify_cell (text_cell s) = s
stringify_cell (printed_cell s) = s
stringify_cell (object_cell none) = []
stringify_cell (object_cell (some s)) = s

abbrev pub same_text : Text → Text → Bool
same_text [] [] = true
same_text (c ∷ s) (d ∷ t) = (c == d) && same_text s t
same_text _ _ = false

-- A row, its keys in their order.
abbrev pub Row : Type 0
Row = List (Text × Cell)

abbrev cell_if : Bool → Cell → Cell → Cell
cell_if true v rest = v
cell_if false v rest = rest

-- `row[c]`
unfoldable pub cell_at : Row → Text → Cell
cell_at [] c = null_cell
cell_at ((k, v) ∷ row) c = cell_if (same_text k c) v (cell_at row c)

abbrev unseen : Bool → Text → List Text → List Text
unseen true k order = order
unseen false k order = order ++ (k ∷ [])

unfoldable pub add_keys : Row → List Text → List Text
add_keys [] order = order
add_keys ((k, v) ∷ row) order = add_keys row (unseen (any (λ o. same_text o k) order) k order)

unfoldable pub columns_of : List Row → List Text → List Text
columns_of [] order = order
columns_of (row ∷ rows) order = columns_of rows (add_keys row order)

-- `inferColumns`
unfoldable pub infer_columns : List Row → List Text
infer_columns rows = columns_of (take 50 rows) []

-- `texts.join(sep)`
abbrev pub join_with : ℕ → List Text → Text
join_with sep [] = []
join_with sep (t ∷ []) = t
join_with sep (t ∷ u ∷ ts) = t ++ (sep ∷ join_with sep (u ∷ ts))

abbrev pub row_text : List Text → Text
row_text fields = join_with 44 (map csv_escape fields)

abbrev pub fields_of : List Text → Row → List Text
fields_of cols row = map (λ c. stringify_cell (cell_at row c)) cols

abbrev pub columns_or : Option (List Text) → List Row → List Text
columns_or none rows = infer_columns rows
columns_or (some cols) rows = cols

-- The text for some columns and rows.
abbrev pub csv_for : List Text → List Row → Text
csv_for cols rows =
    row_text cols
    ++ (10 ∷ (join_with 10 (map (λ row. row_text (fields_of cols row)) rows) ++ (10 ∷ [])))

-- `toCsv`
unfoldable pub to_csv : List Row → Option (List Text) → Text
to_csv [] columns = []
to_csv (r ∷ rows) columns = csv_for (columns_or columns (r ∷ rows)) (r ∷ rows)
