-- ===== src/Week2/Views/Stable.antt =====
-- What the stable schemas that `stable_view_schemas_match` accepts contain.
use db_first_practice.Common.{
  ◌≡◌, refl, sym, ap, ◌∙◌, Bool, true, false, ◌&&◌, ◌⊎◌, inl, inr, Option, none, some, List, [],
  ◌∷◌, Text, txt, text_eq, text_eq_iff, all, some_injective, is_some, if◌then◌else◌,
}
use db_first_practice.Common.Assoc.{lookup, insert, all-lookup, lookup-insert, and-left, and-right}
use db_first_practice.Json.{Value, null, bool, int, float, special, str, arr, obj, Fields, str_is}
use db_first_practice.Week2.Attempts.{column}
use db_first_practice.Week2.Views.Tables.{autocheck_view_schemas}
use db_first_practice.Week2.Views.{
  hashable, Columns, Schemas, columns_or_empty, add_column, read_column, read_names, text_of,
  read_schemas, has_column, has_view, stable_view_schemas_match,
}

-- a row shows this column of this view, with this type
pub data IsShown (view name type : Text) : List Fields → Type 0 where
  here :
      {row : Fields} {rows : List Fields}
      → column "view_name" row ≡ str view
      → column "column_name" row ≡ str name
      → column "data_type" row ≡ str type
      → str_is (txt "v") (column "relation_kind" row) ≡ true
      → IsShown view name type (row ∷ rows)
  there :
      {row : Fields} {rows : List Fields}
      → IsShown view name type rows
      → IsShown view name type (row ∷ rows)

text_of-some : (v : Value) {s : Text} → text_of v ≡ some s → v ≡ str s
text_of-some (str s) h = ap str (some_injective h)
text_of-some null h = cc
text_of-some (bool b) h = cc
text_of-some (int n) h = cc
text_of-some (float m k) h = cc
text_of-some (special x) h = cc
text_of-some (arr vs) h = cc
text_of-some (obj d) h = cc

names-some :
    (t : Bool) (w : Text) (o p : Option Text) {view name type : Text}
    → (if t then read_names w o p else none) ≡ some (view, name, type)
    → (t ≡ true) × (w ≡ view) × (o ≡ some name) × (p ≡ some type)
names-some true w (some a) (some b) h = (refl, cc, cc, cc)
names-some true w (some a) none h = cc
names-some true w none p h = cc
names-some false w o p h = cc

view-some :
    (o : Option Text) (kind known : Text → Bool) (a b : Option Text) {view name type : Text}
    → elim o [ none ↦ none | some w ↦ (if known w && kind w then read_names w a b else none) ]
      ≡ some (view, name, type)
    → (o ≡ some view) × (known view ≡ true) × (kind view ≡ true) × (a ≡ some name) × (b ≡ some type)
view-some none kind known a b h = cc
view-some (some w) kind known a b h =
    let (t, e, f, g) = names-some (known w && kind w) w a b h in
    (ap some e, ap known (sym e) ∙ and-left _ _ t, ap kind (sym e) ∙ and-right (known w) _ t, f, g)

column-IsShown :
    (row : Fields) (rows : List Fields) {view name type : Text}
    → read_column row ≡ some (view, name, type)
    → IsShown view name type (row ∷ rows)
unfolding read_column
column-IsShown row rows h =
    let (e, _, kind, f, g) =
      view-some (text_of (column "view_name" row))
        (λ w. str_is (txt "v") (column "relation_kind" row))
        (λ w. is_some (lookup w autocheck_view_schemas)) _ _ h in
    here (text_of-some _ e) (text_of-some _ f) (text_of-some _ g) kind

-- the schemas that are read have this column
Has : Text → Text → Text → Schemas → Type 0
Has view name type actual =
    (columns : Columns) × (lookup view actual ≡ some columns) × (lookup name columns ≡ some type)

abbrev Column : Type 0
Column = Text × Text × Text

empty-has-none :
    (k : Text) {a : Text} (o : Option Columns)
    → lookup k (columns_or_empty o) ≡ some a
    → (columns : Columns) × (o ≡ some columns) × (lookup k columns ≡ some a)
unfolding lookup
empty-has-none k none h = cc
empty-has-none k (some columns) h = (columns, refl, h)

some-next : (t : Bool) (a : Schemas) {b : Schemas} → (if t then none else some a) ≡ some b → a ≡ b
some-next true a h = cc
some-next false a h = some_injective h

add_column-Has :
    (view name type : Text) (actual next : Schemas) (v n t : Text)
    → add_column view name type actual ≡ some next
    → Has v n t next
    → (◌≡◌ {A = Column} (view, name, type) (v, n, t)) ⊎ Has v n t actual
unfolding add_column Has
add_column-Has view name type actual next v n t h (columns, found, listed) =
    let old = columns_or_empty (lookup view actual) in
    let e = some-next _ _ h in
    elim (lookup-insert v view (insert name type old) actual (ap (lookup v) e ∙ found)) [
      | inr before ↦ inr (columns, before, listed)
      | inl (same, made) ↦ elim (lookup-insert n name type old (ap (lookup n) made ∙ listed)) [
        | inl (named, typed) ↦ inl (cc (same, named, typed))
        | inr earlier ↦
            (let (cols, was, has) = empty-has-none n (lookup view actual) earlier in
              inr (cols, ap (λ k. lookup k actual) (sym same) ∙ was, has))
      ]
    ]

added_next :
    (rows : List Fields) (final : Schemas) (o : Option Schemas)
    → elim o [ none ↦ some none | some next ↦ read_schemas rows next ] ≡ some (some final)
    → (next : Schemas) × (o ≡ some next) × (read_schemas rows next ≡ some (some final))
added_next rows final none h = cc
added_next rows final (some next) h = (next, refl, h)

-- a row that the loop passes: it is read, and its column is added
passed :
    (rows : List Fields) (actual final : Schemas) (t : Bool) (o : Option Column)
    → elim t [
      | false ↦ none
      | true ↦ elim o [
        | none ↦ some none
        | some (view, name, type) ↦ elim (add_column view name type actual) [
          | none ↦ some none
          | some next ↦ read_schemas rows next
        ]
      ]
    ]
      ≡ some (some final)
    → (view : Text) × (name : Text) × (type : Text) × (next : Schemas) × (o
        ≡ some (view, name, type))
      × (add_column view name type actual ≡ some next)
      × (read_schemas rows next ≡ some (some final))
passed rows actual final false o h = cc
passed rows actual final true none h = cc
passed rows actual final true (some (view, name, type)) h =
    let (next, added, rest) = added_next rows final (add_column view name type actual) h in
    (view, name, type, next, refl, added, rest)

read_schemas-IsShown :
    (rows : List Fields) (actual final : Schemas) (v n t : Text)
    → read_schemas rows actual ≡ some (some final)
    → Has v n t final
    → IsShown v n t rows ⊎ Has v n t actual
unfolding read_schemas Has
read_schemas-IsShown [] actual final v n t h (columns, found, listed) =
    inr (columns, ap (lookup v) (some_injective (some_injective h)) ∙ found, listed)
read_schemas-IsShown (row ∷ rows) actual final v n t h has =
    let (view, name, type, next, e, added, rest) =
      passed rows actual final (hashable (column "view_name" row)) (read_column row) h in
    elim (read_schemas-IsShown rows next final v n t rest has) [
      | inl below ↦ inl (there below)
      | inr in_next ↦ elim (add_column-Has view name type actual next v n t added in_next) [
        | inl same ↦ inl (column-IsShown row rows (e ∙ ap some same))
        | inr before ↦ inr before
      ]
    ]

nothing : (v n t : Text) → Has v n t [] → ⊥
unfolding Has lookup
nothing v n t (columns, found, listed) = cc (found)

column-found :
    (o : Option Text) (type : Text)
    → elim o [ none ↦ false | some t ↦ text_eq t type ] ≡ true
    → o ≡ some type
column-found none type h = cc
column-found (some t) type h = ap some ((text_eq_iff t type).0 h)

view-found :
    (o : Option Columns) (name : Text) (columns : Columns) {type : Text}
    → elim o [ none ↦ false | some found ↦ all (has_column found) columns ] ≡ true
    → lookup name columns ≡ some type
    → (found : Columns) × (o ≡ some found) × (lookup name found ≡ some type)
view-found none name columns h e = cc
view-found (some found) name columns {type} h e = (
  found,
  refl,
  column-found (lookup name found) type (all-lookup (has_column found) columns name h e),
)

final-Has :
    (actual : Schemas) (view name : Text) (columns : Columns) {type : Text}
    → has_view actual (view, columns) ≡ true
    → lookup name columns ≡ some type
    → Has view name type actual
unfolding Has
final-Has actual view name columns h e = view-found (lookup view actual) name columns h e

accepted-final :
    (o : Option (Option Schemas))
    → elim o [
      | none ↦ none
      | some none ↦ some false
      | some (some actual) ↦ some (all (has_view actual) autocheck_view_schemas)
    ]
      ≡ some true
    → (actual : Schemas) × (o ≡ some (some actual))
      × (all (has_view actual) autocheck_view_schemas ≡ true)
accepted-final none h = cc
accepted-final (some none) h = cc
accepted-final (some (some actual)) h = (actual, refl, some_injective h)

-- Every column that the contract declares in a view is shown by a row, with its declared type, when
-- `stable_view_schemas_match` accepts the rows, and by that row the relation is a view.
pub stable_view_schemas_match-IsShown :
    (rows : List Fields) (view name : Text) {columns : Columns} {type : Text}
    → stable_view_schemas_match rows ≡ some true
    → lookup view autocheck_view_schemas ≡ some columns
    → lookup name columns ≡ some type
    → IsShown view name type rows
unfolding stable_view_schemas_match
stable_view_schemas_match-IsShown rows view name {columns} {type} h e f =
    let (final, read, matched) = accepted-final (read_schemas rows []) h in
    let has =
      final-Has final view name columns
        (all-lookup (has_view final) autocheck_view_schemas view matched e) f in
    elim (read_schemas-IsShown rows [] final view name type read has) [
      | inl shown ↦ shown
      | inr before ↦ absurd (nothing view name type before)
    ]
