-- ===== src/Cmd/Output.antt =====
-- cmd/output.go. What is written is a list of chunks: a row handed to the tabwriter or to the CSV writer, a
-- text, or a JSON object of columns and values, which json.Marshal prints.
pub mod Rendered
use pocket_settlement_monito.Prelude.{
  String, Bool, true, false, List, [], ◌∷◌, ◌++◌, fold, if◌then◌else◌,
}
use pocket_settlement_monito.Prelude.Eq.{◌=?◌, string_eq}
use pocket_settlement_monito.Subscriber.Types.{Bytes}
use pocket_settlement_monito.Notify.Texts.{codes}

pub data Chunk : Type 0 where
  table_row : List Bytes → Chunk
  csv_row : List Bytes → Chunk
  text : String → Chunk
  json_object : List (Bytes × Bytes) → Chunk

pub record OutputWriter : Type 0 where
  pub format : String
  pub columns : List Bytes
  pub written : List Chunk
  pub first : Bool

abbrev pub new_output_writer : String → List Bytes → OutputWriter
new_output_writer format columns = record {
  format = format;
  columns = columns;
  written = [];
  first = true;
}

abbrev pub write : Chunk → OutputWriter → OutputWriter
write chunk ow = record ow { written = ow.written ++ chunk ∷ [] }

-- What of it is printed where Flush is not reached: the tabwriter and the CSV writer hold their rows until
-- they are flushed.
abbrev pub unflushed : OutputWriter → List Chunk
unflushed ow = if ow.format =? "json" then ow.written else []

abbrev pub write_header : OutputWriter → OutputWriter
write_header ow =
    if ow.format =? "table"
    then write (table_row ow.columns) ow
    else if ow.format =? "csv"
    then write (csv_row ow.columns) ow
    else if ow.format =? "json"
    then write (text "[") ow
    else ow

-- `row[col] = values[i]`, as far as both go; the columns are different.
unfoldable pub with_columns : List Bytes → List Bytes → List (Bytes × Bytes)
with_columns [] values = []
with_columns (c ∷ cs) [] = []
with_columns (c ∷ cs) (v ∷ vs) = (c, v) ∷ with_columns cs vs

abbrev pub separate : OutputWriter → OutputWriter
separate ow = if ow.first then ow else write (text ",") ow

abbrev pub write_json : OutputWriter → List Bytes → OutputWriter
write_json ow values =
    let ow' = separate ow in
    write (json_object (with_columns ow.columns values)) (record ow' { first = false })

unfoldable pub write_row : OutputWriter → List Bytes → OutputWriter
write_row ow values =
    if ow.format =? "table"
    then write (table_row values) ow
    else if ow.format =? "csv"
    then write (csv_row values) ow
    else if ow.format =? "json"
    then write_json ow values
    else ow

abbrev pub flush : OutputWriter → OutputWriter
flush ow = if ow.format =? "json" then write (text "]\n") ow else ow

-- The header, the rows and the flush, as each command calls them.
unfoldable pub print_rows : String → List Bytes → List (List Bytes) → List Chunk
print_rows format columns rows =
    (flush (fold write_row (write_header (new_output_writer format columns)) rows)).written
