-- ===== src/Sqlite.antt =====
-- What the two stores share of SQLite: statements that may fail, and what the schema pragmas report.
-- A text is its bytes. An integer that the code only compares for equality stands in unsigned form.
use secure_messenger_lab.Prelude.{
  ℕ, Bool, true, false, Option, none, some, List, [], ◌∷◌, ◌++◌, ◌&&◌, ◌==◌, String,
}
use secure_messenger_lab.Errors.{Result, ok, err, storage}
use secure_messenger_lab.Bytes.{Bytes, ascii, bytes_eq}
pub mod Laws

-- A statement's result, unless the statement fails; every error of rusqlite becomes `Storage`.
abbrev pub query {ℓ} : {S : Type 0} {A : Type ℓ} → (S → Bool) → S → A → Result A
query fails s a = elim (fails s) [ true ↦ err storage | false ↦ ok a ]

abbrev pub execute : {S : Type 0} → (S → Bool) → S → Result (Unit {0})
execute fails s = query fails s tt

-- `ok_or(Storage)` and `map_err(|_| Storage)`
abbrev pub or_storage {ℓ} : {A : Type ℓ} → Option A → Result A
or_storage o = elim o [ some a ↦ ok a | none ↦ err storage ]

-- A text of several lines.
abbrev pub text : List String → Bytes
text [] = []
text (line ∷ lines) = ascii line ++ (10 ∷ text lines)

-- A row of sqlite_schema.
pub record SchemaObject : Type 0 where
  pub kind : Bytes
  pub name : Bytes
  pub tbl_name : Bytes
  pub sql : Option Bytes

-- A row of pragma_table_list.
pub record TableInfo : Type 0 where
  pub name : Bytes
  pub kind : Bytes
  pub ncol : ℕ
  pub wr : ℕ
  pub strict : ℕ

-- A row of PRAGMA table_xinfo.
pub record ColumnInfo : Type 0 where
  pub cid : ℕ
  pub name : Bytes
  pub type_name : Bytes
  pub not_null : ℕ
  pub default : Option Bytes
  pub pk : ℕ
  pub hidden : ℕ

unfoldable pub option_eq : Option Bytes → Option Bytes → Bool
option_eq none none = true
option_eq none (some y) = false
option_eq (some x) none = false
option_eq (some x) (some y) = bytes_eq x y

unfoldable pub object_eq : SchemaObject → SchemaObject → Bool
object_eq x y =
    bytes_eq x.kind y.kind
    && (bytes_eq x.name y.name && (bytes_eq x.tbl_name y.tbl_name && option_eq x.sql y.sql))

unfoldable pub table_eq : TableInfo → TableInfo → Bool
table_eq x y =
    bytes_eq x.name y.name
    && (bytes_eq x.kind y.kind && (x.ncol == y.ncol && (x.wr == y.wr && x.strict == y.strict)))

unfoldable pub column_eq : ColumnInfo → ColumnInfo → Bool
column_eq x y =
    x.cid == y.cid
    && (bytes_eq x.name y.name
        && (bytes_eq x.type_name y.type_name
            && (x.not_null == y.not_null
                && (option_eq x.default y.default && (x.pk == y.pk && x.hidden == y.hidden)))))

-- `==` on vectors
unfoldable pub list_eq : {A : Type 0} → (A → A → Bool) → List A → List A → Bool
list_eq eq [] [] = true
list_eq eq [] (y ∷ ys) = false
list_eq eq (x ∷ xs) [] = false
list_eq eq (x ∷ xs) (y ∷ ys) = eq x y && list_eq eq xs ys
