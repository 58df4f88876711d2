-- ===== src/Export/RoundTrip.antt =====
-- The reader gets back what the export wrote.
use polyquantlab.Common.{
  ℕ, ◌≡◌, refl, ap, ◌∙◌, Bool, true, false, ◌||◌, List, [], ◌∷◌, ◌++◌, map, Option, some,
}
use mathlib.Core.List.{append-nil, append_assoc}
use polyquantlab.Export.Csv.{
  Text, Kind, comma, quote, line_feed, return, ordinary, kind_of, is_special, needs_quotes,
  twice_if, double_quotes, escape_if, csv_escape, join_with, row_text, Row, fields_of, columns_or,
  to_csv, csv_for, stringify_cell, cell_at,
}
use polyquantlab.Export.Reader.{
  Mode, fresh, bare, quoted, closed, returned, broken, Reading, reading, next, read, rows_of,
  read_csv,
}

read-append : (s : Reading) (xs ys : Text) → read s (xs ++ ys) ≡ read (read s xs) ys
unfolding read
read-append s [] ys = refl
read-append s (x ∷ xs) ys = read-append (next s (kind_of x) x) xs ys

or_false : (a b : Bool) → (a || b) ≡ false → (a ≡ false) × (b ≡ false)
or_false true b e = cc
or_false false b e = (refl, e)

ordinary_kind : (k : Kind) → is_special k ≡ false → k ≡ ordinary
ordinary_kind ordinary e = refl
ordinary_kind _ e = cc

-- A text without special characters is read into a bare field as it is.
read-bare :
    (s f : Text) (r : List Text) (t : List (List Text))
    → needs_quotes s ≡ false
    → read (reading bare f r t) s ≡ reading bare (f ++ s) r t
unfolding read needs_quotes
read-bare [] f r t e = rw (append-nil f) refl
read-bare (c ∷ s) f r t e =
    let (d, e') = or_false (is_special (kind_of c)) (needs_quotes s) e in
    rw (ordinary_kind (kind_of c) d, read-bare s (f ++ (c ∷ [])) r t e', append_assoc f (c ∷ []) s)
      refl

read-twice :
    (k : Kind) (c : ℕ) (s f : Text) (r : List Text) (t : List (List Text))
    → kind_of c ≡ k
    → read (reading quoted f r t) (twice_if k c s) ≡ read (reading quoted (f ++ (c ∷ [])) r t) s
unfolding read
read-twice quote c s f r t e = rw (read, e) refl
read-twice comma c s f r t e = rw (read, e) refl
read-twice line_feed c s f r t e = rw (read, e) refl
read-twice return c s f r t e = rw (read, e) refl
read-twice ordinary c s f r t e = rw (read, e) refl

-- A text with its quotes doubled is read into a quoted field.
read-double_quotes :
    (s f : Text) (r : List Text) (t : List (List Text))
    → read (reading quoted f r t) (double_quotes s) ≡ reading quoted (f ++ s) r t
unfolding double_quotes
read-double_quotes [] f r t = unfold read in rw (append-nil f) refl
read-double_quotes (c ∷ s) f r t =
    read-twice (kind_of c) c (double_quotes s) f r t refl
    ∙ read-double_quotes s (f ++ (c ∷ [])) r t
    ∙ ap (λ g. reading quoted g r t) (append_assoc f (c ∷ []) s)

-- The modes in which a field may end.
data MayEnd : Mode → Type 0 where
  at_fresh : MayEnd fresh
  at_bare : MayEnd bare
  at_closed : MayEnd closed

abbrev Holds : Text → List Text → List (List Text) → Reading → Type 0
Holds s r t q = (m : Mode) × MayEnd m × (q ≡ reading m s r t)

bare_field :
    (s : Text) (r : List Text) (t : List (List Text))
    → needs_quotes s ≡ false
    → Holds s r t (read (reading fresh [] r t) s)
unfolding read needs_quotes
bare_field [] r t e = (fresh, at_fresh, refl)
bare_field (c ∷ s) r t e =
    let (d, e') = or_false (is_special (kind_of c)) (needs_quotes s) e in
    (bare, at_bare, rw (ordinary_kind (kind_of c) d) (read-bare s (c ∷ []) r t e'))

field_if :
    (b : Bool) (s : Text) (r : List Text) (t : List (List Text))
    → needs_quotes s ≡ b
    → Holds s r t (read (reading fresh [] r t) (escape_if b s))
unfolding read kind_of
field_if true s r t e = (
  closed,
  at_closed,
  read-append (reading quoted [] r t) (double_quotes s) (34 ∷ [])
      ∙ ap (λ q. read q (34 ∷ [])) (read-double_quotes s [] r t),
)
field_if false s r t e = bare_field s r t e

end_field :
    (s rest : Text) (r : List Text) (t : List (List Text)) (q : Reading)
    → Holds s r t q
    → read q (44 ∷ rest) ≡ read (reading fresh [] (r ++ (s ∷ [])) t) rest
unfolding read kind_of
end_field s rest r t q (quoted, x, e) = elim x [ ]
end_field s rest r t q (returned, x, e) = elim x [ ]
end_field s rest r t q (broken, x, e) = elim x [ ]
end_field s rest r t q (fresh, at_fresh, e) = rw (e) refl
end_field s rest r t q (bare, at_bare, e) = rw (e) refl
end_field s rest r t q (closed, at_closed, e) = rw (e) refl

end_row :
    (s rest : Text) (r : List Text) (t : List (List Text)) (q : Reading)
    → Holds s r t q
    → read q (10 ∷ rest) ≡ read (reading fresh [] [] (t ++ ((r ++ (s ∷ [])) ∷ []))) rest
unfolding read kind_of
end_row s rest r t q (quoted, x, e) = elim x [ ]
end_row s rest r t q (returned, x, e) = elim x [ ]
end_row s rest r t q (broken, x, e) = elim x [ ]
end_row s rest r t q (fresh, at_fresh, e) = rw (e) refl
end_row s rest r t q (bare, at_bare, e) = rw (e) refl
end_row s rest r t q (closed, at_closed, e) = rw (e) refl

read-csv_escape :
    (s : Text) (r : List Text) (t : List (List Text))
    → Holds s r t (read (reading fresh [] r t) (csv_escape s))
unfolding csv_escape
read-csv_escape s r t = field_if (needs_quotes s) s r t refl

read-row_text :
    (f : Text) (fs : List Text) (rest : Text) (r : List Text) (t : List (List Text))
    → read (reading fresh [] r t) (row_text (f ∷ fs) ++ (10 ∷ rest))
      ≡ read (reading fresh [] [] (t ++ ((r ++ (f ∷ fs)) ∷ []))) rest
read-row_text f [] rest r t =
    read-append (reading fresh [] r t) (csv_escape f) (10 ∷ rest)
    ∙ end_row f rest r t _ (read-csv_escape f r t)
read-row_text f (g ∷ fs) rest r t =
    ap (read (reading fresh [] r t))
      (append_assoc (csv_escape f) (44 ∷ row_text (g ∷ fs)) (10 ∷ rest))
    ∙ read-append (reading fresh [] r t) (csv_escape f) (44 ∷ (row_text (g ∷ fs) ++ (10 ∷ rest)))
    ∙ end_field f (row_text (g ∷ fs) ++ (10 ∷ rest)) r t _ (read-csv_escape f r t)
    ∙ read-row_text g fs rest (r ++ (f ∷ [])) t
    ∙ ap (λ row. read (reading fresh [] [] (t ++ (row ∷ []))) rest)
        (append_assoc r (f ∷ []) (g ∷ fs))

read-lines :
    (c : Text) (cs : List Text) (row : Row) (rows : List Row) (t : List (List Text))
    → read
        (reading fresh [] [] t)
        (join_with 10 (map (λ q. row_text (fields_of (c ∷ cs) q)) (row ∷ rows)) ++ (10 ∷ []))
      ≡ reading fresh [] [] (t ++ map (fields_of (c ∷ cs)) (row ∷ rows))
unfolding read
read-lines c cs row [] t = read-row_text (stringify_cell (cell_at row c)) (fields_of cs row) [] [] t
read-lines c cs row (row' ∷ rows) t =
    let line = row_text (fields_of (c ∷ cs) row) in
    let lines = join_with 10 (map (λ q. row_text (fields_of (c ∷ cs) q)) (row' ∷ rows)) in
    ap (read (reading fresh [] [] t)) (append_assoc line (10 ∷ lines) (10 ∷ []))
    ∙ read-row_text (stringify_cell (cell_at row c)) (fields_of cs row) (lines ++ (10 ∷ [])) [] t
    ∙ read-lines c cs row' rows (t ++ (fields_of (c ∷ cs) row ∷ []))
    ∙ ap (reading fresh [] [])
        (append_assoc t (fields_of (c ∷ cs) row ∷ []) (map (fields_of (c ∷ cs)) (row' ∷ rows)))

csv_lines :
    (c : Text) (cs : List Text) (r : Row) (rows : List Row)
    → read_csv (csv_for (c ∷ cs) (r ∷ rows)) ≡ some ((c ∷ cs) ∷ map (fields_of (c ∷ cs)) (r ∷ rows))
unfolding read_csv rows_of
csv_lines c cs r rows =
    ap rows_of (read-row_text c cs _ [] [] ∙ read-lines c cs r rows ((c ∷ cs) ∷ []))

-- If there is a column, the exported text follows the grammar of RFC 4180 with rows that end in a line
-- feed: a strict reader, which takes no carriage return outside quotes but before a line feed, no
-- quote in a bare field and nothing but a comma or the end of the row after a quoted one, gets back
-- exactly the columns and, for each row, the texts of its cells in the order of the columns, whatever
-- commas, quotes, line feeds and carriage returns they hold.
pub read_csv-to_csv :
    (r : Row) (rows : List Row) (columns : Option (List Text)) (c : Text) (cs : List Text)
    → columns_or columns (r ∷ rows) ≡ c ∷ cs
    → read_csv (to_csv (r ∷ rows) columns) ≡ some ((c ∷ cs) ∷ map (fields_of (c ∷ cs)) (r ∷ rows))
unfolding to_csv
read_csv-to_csv r rows columns c cs e =
    ap (λ cols. read_csv (csv_for cols (r ∷ rows))) e ∙ csv_lines c cs r rows
