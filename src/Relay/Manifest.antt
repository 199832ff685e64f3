-- ===== src/Relay/Manifest.antt =====
-- `SchemaManifest` of src/relay.rs: how the relay reads and compares a database's whole schema.
pub mod Laws
use Prim.Native.Nat.{compare, Ordering, lt, eq, gt}
use secure_messenger_lab.Prelude.{
  ℕ, Bool, true, false, Option, none, some, List, [], ◌∷◌, ◌++◌, ◌&&◌, ◌==◌, map, if◌then◌else◌,
}
use secure_messenger_lab.Errors.{Result, ok, err, ◌>>=◌}
use secure_messenger_lab.Bytes.{Bytes, ascii, bytes_eq}
use secure_messenger_lab.Sqlite.{
  SchemaObject, ColumnInfo, query, or_storage, option_eq, object_eq, column_eq, list_eq,
}
use secure_messenger_lab.Table.{select_where}

-- The tuple `TableShape::table_list`.
pub record TableListRow : Type 0 where
  pub schema : Bytes
  pub name : Bytes
  pub kind : Bytes
  pub ncol : ℕ
  pub wr : ℕ
  pub strict : ℕ

-- The tuple `IndexShape::list`.
pub record IndexListRow : Type 0 where
  pub seq : ℕ
  pub name : Bytes
  pub unique : ℕ
  pub origin : Bytes
  pub partial : ℕ

-- A tuple of `IndexShape::columns`.
pub record IndexColumn : Type 0 where
  pub seqno : ℕ
  pub cid : ℕ
  pub name : Option Bytes
  pub desc : ℕ
  pub coll : Bytes
  pub key : ℕ

pub record ForeignKey : Type 0 where
  pub id : ℕ
  pub seq : ℕ
  pub table : Bytes
  pub from : Bytes
  pub to : Bytes
  pub on_update : Bytes
  pub on_delete : Bytes
  pub match_clause : Bytes

pub record IndexShape : Type 0 where
  pub list : IndexListRow
  pub columns : List IndexColumn

pub record TableShape : Type 0 where
  pub table_list : TableListRow
  pub columns : List ColumnInfo
  pub indexes : List IndexShape
  pub foreign_keys : List ForeignKey

-- `tables` is the BTreeMap, in the order of its keys.
pub record SchemaManifest : Type 0 where
  pub objects : List SchemaObject
  pub tables : List (Bytes × TableShape)

-- What SQLite answers about a schema, each list in the order that the query asks for.
pub record SchemaCatalog : Type 0 where
  pub objects : List SchemaObject
  pub table_list : Bytes → Option TableListRow
  pub table_xinfo : Bytes → List ColumnInfo
  pub index_list : Bytes → List IndexListRow
  pub index_xinfo : Bytes → List IndexColumn
  pub foreign_key_list : Bytes → List ForeignKey

unfoldable pub table_list_eq : TableListRow → TableListRow → Bool
table_list_eq x y =
    bytes_eq x.schema y.schema
    && (bytes_eq x.name y.name
        && (bytes_eq x.kind y.kind && (x.ncol == y.ncol && (x.wr == y.wr && x.strict == y.strict))))

unfoldable pub index_list_eq : IndexListRow → IndexListRow → Bool
index_list_eq x y =
    x.seq == y.seq
    && (bytes_eq x.name y.name
        && (x.unique == y.unique && (bytes_eq x.origin y.origin && x.partial == y.partial)))

unfoldable pub index_column_eq : IndexColumn → IndexColumn → Bool
index_column_eq x y =
    x.seqno == y.seqno
    && (x.cid == y.cid
        && (option_eq x.name y.name
            && (x.desc == y.desc && (bytes_eq x.coll y.coll && x.key == y.key))))

unfoldable pub foreign_key_eq : ForeignKey → ForeignKey → Bool
foreign_key_eq x y =
    x.id == y.id
    && (x.seq == y.seq
        && (bytes_eq x.table y.table
            && (bytes_eq x.from y.from
                && (bytes_eq x.to y.to
                    && (bytes_eq x.on_update y.on_update
                        && (bytes_eq x.on_delete y.on_delete
                            && bytes_eq x.match_clause y.match_clause))))))

unfoldable pub index_eq : IndexShape → IndexShape → Bool
index_eq x y = index_list_eq x.list y.list && list_eq index_column_eq x.columns y.columns

unfoldable pub shape_eq : TableShape → TableShape → Bool
shape_eq x y =
    table_list_eq x.table_list y.table_list
    && (list_eq column_eq x.columns y.columns
        && (list_eq index_eq x.indexes y.indexes
            && list_eq foreign_key_eq x.foreign_keys y.foreign_keys))

unfoldable pub entry_eq : Bytes × TableShape → Bytes × TableShape → Bool
entry_eq x y = bytes_eq x.0 y.0 && shape_eq x.1 y.1

-- `==` on manifests
unfoldable pub manifest_eq : SchemaManifest → SchemaManifest → Bool
manifest_eq x y = list_eq object_eq x.objects y.objects && list_eq entry_eq x.tables y.tables

-- The order of strings, and of `SchemaObject` by its parts.
abbrev pub then_by : Ordering → Ordering → Ordering
then_by lt o = lt
then_by eq o = o
then_by gt o = gt

unfoldable pub bytes_compare : Bytes → Bytes → Ordering
bytes_compare [] [] = eq
bytes_compare [] (y ∷ ys) = lt
bytes_compare (x ∷ xs) [] = gt
bytes_compare (x ∷ xs) (y ∷ ys) = then_by (compare x y) (bytes_compare xs ys)

unfoldable pub option_compare : Option Bytes → Option Bytes → Ordering
option_compare none none = eq
option_compare none (some y) = lt
option_compare (some x) none = gt
option_compare (some x) (some y) = bytes_compare x y

unfoldable pub object_compare : SchemaObject → SchemaObject → Ordering
object_compare x y = then_by (bytes_compare x.kind y.kind) (
    then_by (bytes_compare x.name y.name)
      (then_by (bytes_compare x.tbl_name y.tbl_name) (option_compare x.sql y.sql)))

-- `objects.sort()`: a stable sort.
unfoldable pub insert_object : SchemaObject → List SchemaObject → List SchemaObject
insert_object x [] = x ∷ []
insert_object x (y ∷ ys) =
    let rest = insert_object x ys in
    elim (object_compare x y) [ lt ↦ x ∷ y ∷ ys | eq ↦ x ∷ y ∷ ys | gt ↦ y ∷ rest ]

unfoldable pub sort_objects : List SchemaObject → List SchemaObject
sort_objects [] = []
sort_objects (x ∷ xs) = insert_object x (sort_objects xs)

-- `BTreeMap::insert`
unfoldable pub insert_table :
    Bytes → TableShape → List (Bytes × TableShape) → List (Bytes × TableShape)
insert_table name shape [] = (name, shape) ∷ []
insert_table name shape ((key, old) ∷ tables) =
    let rest = insert_table name shape tables in
    elim (bytes_compare name key) [
      | lt ↦ (name, shape) ∷ (key, old) ∷ tables
      | eq ↦ (name, shape) ∷ tables
      | gt ↦ (key, old) ∷ rest
    ]

-- What may fail while a database is opened.
pub data OpenStatement : Type 0 where
  open_file open_immutable set_timeout set_pragmas begin commit : OpenStatement
  open_memory memory_pragmas memory_ddl select_version set_version : OpenStatement
  select_objects select_table_list select_xinfo select_indexes : OpenStatement
  select_index_xinfo select_foreign_keys check_foreign_keys check_integrity : OpenStatement
  delete_messages drop_messages create_messages create_tables sweep : OpenStatement

abbrev pub OpenFaults : Type 0
OpenFaults = OpenStatement → Bool

unfoldable pub index_shapes :
    OpenFaults → SchemaCatalog → List IndexListRow → Result (List IndexShape)
index_shapes fails catalog [] = ok []
index_shapes fails catalog (row ∷ rows) = do
  columns ← query fails select_index_xinfo (catalog.index_xinfo row.name)
  rest ← index_shapes fails catalog rows
  ok (record { list = row; columns = columns } ∷ rest)

unfoldable pub table_shape : OpenFaults → SchemaCatalog → Bytes → Result TableShape
table_shape fails catalog table = do
  found ← query fails select_table_list (catalog.table_list table)
  table_list ← or_storage found
  columns ← query fails select_xinfo (catalog.table_xinfo table)
  index_rows ← query fails select_indexes (catalog.index_list table)
  indexes ← index_shapes fails catalog index_rows
  foreign_keys ← query fails select_foreign_keys (catalog.foreign_key_list table)
  ok (record {
    table_list = table_list;
    columns = columns;
    indexes = indexes;
    foreign_keys = foreign_keys;
  })

-- `for table in table_names`, with the map so far.
unfoldable pub table_shapes :
    OpenFaults
    → SchemaCatalog
    → List (Bytes × TableShape)
    → List Bytes
    → Result (List (Bytes × TableShape))
table_shapes fails catalog tables [] = ok tables
table_shapes fails catalog tables (name ∷ names) = do
  shape ← table_shape fails catalog name
  table_shapes fails catalog (insert_table name shape tables) names

unfoldable pub schema_manifest : OpenFaults → SchemaCatalog → Result SchemaManifest
schema_manifest fails catalog = do
  rows ← query fails select_objects catalog.objects
  let objects = sort_objects rows
  let table_names = map (λ o. o.name) (select_where (λ o. bytes_eq o.kind (ascii "table")) objects)
  tables ← table_shapes fails catalog [] table_names
  ok (record { objects = objects; tables = tables })

abbrev pub empty_manifest : SchemaManifest
empty_manifest = record { objects = []; tables = [] }
