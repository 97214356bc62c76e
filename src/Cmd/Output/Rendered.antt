-- ===== src/Cmd/Output/Rendered.antt =====
-- What the three formats come to.
use mathlib.Core.List.{append-nil, append_assoc}
use pocket_settlement_monito.Prelude.{
  String, ◌≡◌, refl, sym, ap, ◌∙◌, Bool, true, false, List, [], ◌∷◌, ◌++◌, map, fold, subst,
}
use pocket_settlement_monito.Prelude.Eq.{string_eq}
use pocket_settlement_monito.Subscriber.Types.{Bytes}
use pocket_settlement_monito.Cmd.Output.{
  Chunk, table_row, csv_row, text, json_object, OutputWriter, with_columns, write_row, print_rows,
  flush,
}

abbrev pub object : List Bytes → List Bytes → Chunk
object columns values = json_object (with_columns columns values)

-- A comma before each item.
abbrev pub after_commas : List Chunk → List Chunk
after_commas [] = []
after_commas (c ∷ rest) = text "," ∷ c ∷ after_commas rest

abbrev pub comma_separated : List Chunk → List Chunk
comma_separated [] = []
comma_separated (c ∷ rest) = c ∷ after_commas rest

-- The output of the rows under the columns.
pub data IsRendering (columns : List Bytes) (rows : List (List Bytes))
    : String → List Chunk → Type 0 where
  as_table : IsRendering columns rows "table" (map table_row (columns ∷ rows))
  as_csv : IsRendering columns rows "csv" (map csv_row (columns ∷ rows))
  as_json :
      IsRendering columns rows "json"
        (text "[" ∷ (comma_separated (map (object columns) rows) ++ text "]\n" ∷ []))

abbrev writer : String → List Bytes → List Chunk → Bool → OutputWriter
writer format columns written first = record {
  format = format;
  columns = columns;
  written = written;
  first = first;
}

table_rows :
    (columns : List Bytes) (written : List Chunk) (rows : List (List Bytes))
    → fold write_row (writer "table" columns written true) rows
      ≡ writer "table" columns (written ++ map table_row rows) true
unfolding write_row
table_rows columns written [] = ap (λ w. writer "table" columns w true) (sym (append-nil written))
table_rows columns written (r ∷ rows) =
    table_rows columns (written ++ table_row r ∷ []) rows
    ∙ ap (λ w. writer "table" columns w true)
        (append_assoc written (table_row r ∷ []) (map table_row rows))

csv_rows :
    (columns : List Bytes) (written : List Chunk) (rows : List (List Bytes))
    → fold write_row (writer "csv" columns written true) rows
      ≡ writer "csv" columns (written ++ map csv_row rows) true
unfolding write_row
csv_rows columns written [] = ap (λ w. writer "csv" columns w true) (sym (append-nil written))
csv_rows columns written (r ∷ rows) =
    csv_rows columns (written ++ csv_row r ∷ []) rows
    ∙ ap (λ w. writer "csv" columns w true)
        (append_assoc written (csv_row r ∷ []) (map csv_row rows))

json_rows :
    (columns : List Bytes) (written : List Chunk) (rows : List (List Bytes))
    → fold write_row (writer "json" columns written false) rows
      ≡ writer "json" columns (written ++ after_commas (map (object columns) rows)) false
unfolding write_row
json_rows columns written [] = ap (λ w. writer "json" columns w false) (sym (append-nil written))
json_rows columns written (r ∷ rows) =
    json_rows columns ((written ++ text "," ∷ []) ++ object columns r ∷ []) rows
    ∙ ap (λ w. writer "json" columns w false)
        (append_assoc (written ++ text "," ∷ []) (object columns r ∷ [])
            (after_commas (map (object columns) rows))
          ∙ append_assoc written (text "," ∷ [])
              (object columns r ∷ after_commas (map (object columns) rows)))

print_rows-json :
    (columns : List Bytes) (rows : List (List Bytes))
    → print_rows "json" columns rows
      ≡ text "[" ∷ (comma_separated (map (object columns) rows) ++ text "]\n" ∷ [])
unfolding print_rows write_row
print_rows-json columns [] = refl
print_rows-json columns (r ∷ rows) =
    ap (λ w. (flush w).written) (json_rows columns (text "[" ∷ object columns r ∷ []) rows)

-- The three formats of the flag.
pub data IsFormat : String → Type 0 where
  table : IsFormat "table"
  csv : IsFormat "csv"
  json : IsFormat "json"

pub print_rows-IsRendering :
    (columns : List Bytes) (rows : List (List Bytes)) (format : String)
    → IsFormat format
    → IsRendering columns rows format (print_rows format columns rows)
unfolding print_rows
print_rows-IsRendering columns rows _ table =
    subst (IsRendering columns rows "table")
      (ap (λ w. (flush w).written) (sym (table_rows columns (table_row columns ∷ []) rows)))
      as_table
print_rows-IsRendering columns rows _ csv =
    subst (IsRendering columns rows "csv")
      (ap (λ w. (flush w).written) (sym (csv_rows columns (csv_row columns ∷ []) rows))) as_csv
print_rows-IsRendering columns rows _ json =
    subst (IsRendering columns rows "json") (sym (print_rows-json columns rows)) as_json
