-- ===== src/Sqlite/Laws.antt =====
-- The comparisons decide equality.
use secure_messenger_lab.Prelude.{Bool, ◌≡◌, refl, true, Option, none, some, List, [], ◌∷◌, arith}
use secure_messenger_lab.Bytes.{Bytes}
use secure_messenger_lab.Bytes.Laws.{bytes_eq-true}
use secure_messenger_lab.Sqlite.{SchemaObject, ColumnInfo, option_eq, object_eq, column_eq, list_eq}

-- A Boolean test that only equal values pass.
abbrev pub Decides : {A : Type 0} → (A → A → Bool) → Type 0
Decides {A} eq = (x y : A) → eq x y ≡ true → x ≡ y

pub option_eq-true : (x y : Option Bytes) → option_eq x y ≡ true → x ≡ y
unfolding option_eq
option_eq-true none none h = refl
option_eq-true none (some y) h = cc
option_eq-true (some x) none h = cc
option_eq-true (some x) (some y) h = cc (bytes_eq-true x y h)

pub object_eq-true : (x y : SchemaObject) → object_eq x y ≡ true → x ≡ y
unfolding object_eq
object_eq-true x y h = ground (
  arith,
  bytes_eq-true x.kind y.kind,
  bytes_eq-true x.name y.name,
  bytes_eq-true x.tbl_name y.tbl_name,
  option_eq-true x.sql y.sql,
)

pub column_eq-true : (x y : ColumnInfo) → column_eq x y ≡ true → x ≡ y
unfolding column_eq
column_eq-true x y h = ground (
  arith,
  bytes_eq-true x.name y.name,
  bytes_eq-true x.type_name y.type_name,
  option_eq-true x.default y.default,
)

pub list_eq-true :
    {A : Type 0} (eq : A → A → Bool) (sound : Decides eq) (xs ys : List A)
    → list_eq eq xs ys ≡ true
    → xs ≡ ys
unfolding list_eq
list_eq-true eq sound [] [] h = refl
list_eq-true eq sound [] (y ∷ ys) h = cc
list_eq-true eq sound (x ∷ xs) [] h = cc
list_eq-true eq sound (x ∷ xs) (y ∷ ys) h = ground (arith, sound x y, list_eq-true eq sound xs ys)
