-- ===== src/Export/Reader.antt =====
-- A strict reader of comma-separated values, one code unit at a time. The grammar is that of RFC 4180
-- but for the end of a row, which may be a line feed or a carriage return with a line feed, and which
-- every row has. A text outside this grammar has no rows.
use polyquantlab.Common.{ℕ, List, [], ◌∷◌, ◌++◌, Option, none, some}
use polyquantlab.Export.Csv.{Text, Kind, comma, quote, line_feed, return, ordinary, kind_of}

-- Before a field, in a bare field, in a quoted field, after a quote in one, after a carriage return
-- outside quotes, and after a mistake.
pub data Mode : Type 0 where
  fresh bare quoted closed returned broken : Mode

-- The mode, the field, the row and the rows so far.
pub data Reading : Type 0 where
  reading : Mode → Text → List Text → List (List Text) → Reading

abbrev pub outside : Mode → Kind → ℕ → Text → List Text → List (List Text) → Reading
outside m comma c f r t = reading fresh [] (r ++ (f ∷ [])) t
outside m line_feed c f r t = reading fresh [] [] (t ++ ((r ++ (f ∷ [])) ∷ []))
outside m return c f r t = reading returned f r t
outside fresh quote c f r t = reading quoted f r t
outside closed quote c f r t = reading quoted (f ++ (c ∷ [])) r t
outside m quote c f r t = reading broken f r t
outside closed ordinary c f r t = reading broken f r t
outside m ordinary c f r t = reading bare (f ++ (c ∷ [])) r t

abbrev pub inside : Kind → ℕ → Text → List Text → List (List Text) → Reading
inside quote c f r t = reading closed f r t
inside _ c f r t = reading quoted (f ++ (c ∷ [])) r t

-- Only a line feed may follow a carriage return outside quotes.
abbrev pub after_return : Kind → Text → List Text → List (List Text) → Reading
after_return line_feed f r t = reading fresh [] [] (t ++ ((r ++ (f ∷ [])) ∷ []))
after_return _ f r t = reading broken f r t

abbrev pub next : Reading → Kind → ℕ → Reading
next (reading quoted f r t) k c = inside k c f r t
next (reading returned f r t) k c = after_return k f r t
next (reading broken f r t) k c = reading broken f r t
next (reading m f r t) k c = outside m k c f r t

unfoldable pub read : Reading → Text → Reading
read s [] = s
read s (c ∷ cs) = read (next s (kind_of c) c) cs

-- The rows, if the text stops after the end of a row.
unfoldable pub rows_of : Reading → Option (List (List Text))
rows_of (reading fresh [] [] t) = some t
rows_of _ = none

unfoldable pub read_csv : Text → Option (List (List Text))
read_csv s = rows_of (read (reading fresh [] [] []) s)
