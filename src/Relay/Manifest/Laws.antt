-- ===== src/Relay/Manifest/Laws.antt =====
-- The comparison of manifests decides equality, and reading one does not depend on which
-- statements might have failed.
use secure_messenger_lab.Prelude.{◌≡◌, false, List, [], ◌∷◌, arith, Option-cases, inl, inr}
use secure_messenger_lab.Errors.{ok, >>=-eq-ok, Result-cases}
use secure_messenger_lab.Bytes.{Bytes}
use secure_messenger_lab.Bytes.Laws.{bytes_eq-true}
use secure_messenger_lab.Sqlite.{query, column_eq, object_eq}
use secure_messenger_lab.Sqlite.Laws.{
  Decides, option_eq-true, object_eq-true, column_eq-true, list_eq-true,
}
use secure_messenger_lab.Relay.Manifest.{
  IndexListRow, IndexShape, TableShape, SchemaManifest, SchemaCatalog, OpenFaults, table_list_eq,
  index_list_eq, index_column_eq, foreign_key_eq, index_eq, shape_eq, entry_eq, manifest_eq,
  index_shapes, table_shape, table_shapes, schema_manifest, insert_table, select_index_xinfo,
  select_objects,
}

table_list_eq-true : Decides table_list_eq
unfolding table_list_eq
table_list_eq-true x y h = ground (
  arith,
  bytes_eq-true x.schema y.schema,
  bytes_eq-true x.name y.name,
  bytes_eq-true x.kind y.kind,
)

index_list_eq-true : Decides index_list_eq
unfolding index_list_eq
index_list_eq-true x y h =
    ground (arith, bytes_eq-true x.name y.name, bytes_eq-true x.origin y.origin)

index_column_eq-true : Decides index_column_eq
unfolding index_column_eq
index_column_eq-true x y h =
    ground (arith, option_eq-true x.name y.name, bytes_eq-true x.coll y.coll)

foreign_key_eq-true : Decides foreign_key_eq
unfolding foreign_key_eq
foreign_key_eq-true x y h = ground (
  arith,
  bytes_eq-true x.table y.table,
  bytes_eq-true x.from y.from,
  bytes_eq-true x.to y.to,
  bytes_eq-true x.on_update y.on_update,
  bytes_eq-true x.on_delete y.on_delete,
  bytes_eq-true x.match_clause y.match_clause,
)

index_eq-true : Decides index_eq
unfolding index_eq
index_eq-true x y h = ground (
  arith,
  index_list_eq-true x.list y.list,
  list_eq-true index_column_eq index_column_eq-true x.columns y.columns,
)

shape_eq-true : Decides shape_eq
unfolding shape_eq
shape_eq-true x y h = ground (
  arith,
  table_list_eq-true x.table_list y.table_list,
  list_eq-true column_eq column_eq-true x.columns y.columns,
  list_eq-true index_eq index_eq-true x.indexes y.indexes,
  list_eq-true foreign_key_eq foreign_key_eq-true x.foreign_keys y.foreign_keys,
)

entry_eq-true : Decides entry_eq
unfolding entry_eq
entry_eq-true x y h = ground (arith, bytes_eq-true x.0 y.0, shape_eq-true x.1 y.1)

pub manifest_eq-true : Decides manifest_eq
unfolding manifest_eq
manifest_eq-true x y h = ground (
  arith,
  list_eq-true object_eq object_eq-true x.objects y.objects,
  list_eq-true entry_eq entry_eq-true x.tables y.tables,
)

-- No statement fails.
abbrev pub no_open_faults : OpenFaults
no_open_faults = λ _. false

query-healthy :
    {A : Type 0} (fails : OpenFaults) (s : _) (a : A) {b : A} → query fails s a ≡ ok b → a ≡ b
query-healthy fails s a e = ground arith

index_shapes-healthy :
    (fails : OpenFaults) (catalog : SchemaCatalog) (rows : List IndexListRow)
    {shapes : List IndexShape}
    → index_shapes fails catalog rows ≡ ok shapes
    → index_shapes no_open_faults catalog rows ≡ ok shapes
unfolding index_shapes
index_shapes-healthy fails catalog [] e = e
index_shapes-healthy fails catalog (row ∷ rows) e =
    let (columns, read, e1) =
      >>=-eq-ok (query fails select_index_xinfo (catalog.index_xinfo row.name)) _ e in
    let (rest, more, e2) = >>=-eq-ok (index_shapes fails catalog rows) _ e1 in
    let ih = index_shapes-healthy fails catalog rows more in ground (arith, ih)

table_shape-healthy :
    (fails : OpenFaults) (catalog : SchemaCatalog) (table : Bytes) {shape : TableShape}
    → table_shape fails catalog table ≡ ok shape
    → table_shape no_open_faults catalog table ≡ ok shape
unfolding table_shape
table_shape-healthy fails catalog table e = elim (Option-cases (catalog.table_list table)) [
  | inl missing ↦ absurd (ground arith)
  | inr (row, found) ↦ elim (Result-cases (index_shapes fails catalog (catalog.index_list table))) [
    | inr (x, refused) ↦ absurd (ground arith)
    | inl (indexes, read) ↦
        ground (arith, index_shapes-healthy fails catalog (catalog.index_list table) read)
  ]
]

table_shapes-healthy :
    (fails : OpenFaults) (catalog : SchemaCatalog) (tables : List (Bytes × TableShape))
    (names : List Bytes) {shapes : List (Bytes × TableShape)}
    → table_shapes fails catalog tables names ≡ ok shapes
    → table_shapes no_open_faults catalog tables names ≡ ok shapes
unfolding table_shapes
table_shapes-healthy fails catalog tables [] e = e
table_shapes-healthy fails catalog tables (name ∷ names) e =
    let (shape, read, e1) = >>=-eq-ok (table_shape fails catalog name) _ e in
    let healthy = table_shape-healthy fails catalog name read in
    let ih = table_shapes-healthy fails catalog (insert_table name shape tables) names e1 in
    ground (arith, healthy, ih)

pub schema_manifest-healthy :
    (fails : OpenFaults) (catalog : SchemaCatalog) {m : SchemaManifest}
    → schema_manifest fails catalog ≡ ok m
    → schema_manifest no_open_faults catalog ≡ ok m
unfolding schema_manifest
schema_manifest-healthy fails catalog {m} e =
    let (rows, read, e1) = >>=-eq-ok (query fails select_objects catalog.objects) _ e in
    let same : catalog.objects ≡ rows = query-healthy fails select_objects catalog.objects read in
    let (tables, shapes, e2) = >>=-eq-ok (table_shapes fails catalog [] _) _ e1 in
    let healthy = table_shapes-healthy fails catalog [] _ shapes in ground (arith, same, healthy)
