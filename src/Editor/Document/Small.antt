-- ===== src/Editor/Document/Small.antt =====
-- A small instance of crate toml_edit, for documents two levels deep.
use bbs_rs.Prelude.{
  ◌≡◌, ◌≢◌, refl, sym, ap, inl, inr, Bool, true, false, List, [], ◌∷◌, ◌++◌, Option, none, some,
  map, Text, text_eq, text_eq→eq, text_eq_refl, is_some, if◌then◌else◌, Bool-cases,
}
use bbs_rs.Editor.Docs.{FieldValue, str_value}
use bbs_rs.Editor.Toml.{Toml}
use bbs_rs.Editor.Document.Laws.{TomlLaws}

abbrev lookup : {A : Type 0} → Text → List (Text × A) → Option A
lookup k [] = none
lookup k ((j, a) ∷ r) = if text_eq j k then some a else lookup k r

abbrev put_key : {A : Type 0} → Text → A → List (Text × A) → List (Text × A)
put_key k a [] = (k, a) ∷ []
put_key k a ((j, b) ∷ r) = if text_eq j k then (k, a) ∷ r else (j, b) ∷ put_key k a r

abbrev drop_key : {A : Type 0} → Text → List (Text × A) → List (Text × A)
drop_key k [] = []
drop_key k ((j, b) ∷ r) = if text_eq j k then r else (j, b) ∷ drop_key k r

-- A value, an inline table, an array of those, or an array of tables inside a table
pub data Cell : Type 0 where
  plain : FieldValue → Cell
  line : List (Text × Text) → Cell
  lines : List (List (Text × Text)) → Cell
  headed : Cell

pub data Node : Type 0 where
  cell : Cell → Node
  table : List (Text × Cell) → Node
  tables : List (List (Text × Cell)) → Node

abbrev cell_of : Option Cell → Option Node
cell_of none = none
cell_of (some c) = some (cell c)

abbrev text_of : Option Text → Option Node
text_of none = none
text_of (some s) = some (cell (plain (str_value s)))

abbrev item_get : Node → Text → Option Node
item_get (table r) k = cell_of (lookup k r)
item_get _ k = none

abbrev item_put : Node → Text → Node → Option Node
item_put (table r) k (cell c) = some (table (put_key k c r))
item_put _ k _ = none

abbrev item_remove : Node → Text → Option (Bool × Node)
item_remove (table r) k = some (is_some (lookup k r), table (drop_key k r))
item_remove _ k = none

abbrev is_empty : Node → Bool
is_empty (table []) = true
is_empty _ = false

abbrev as_value : Node → Option FieldValue
as_value (cell (plain v)) = some v
as_value _ = none

abbrev as_str : Node → Option Text
as_str (cell (plain (str_value s))) = some s
as_str _ = none

abbrev array : Node → Option (List Node)
array (cell (lines ls)) = some (map (λ l. cell (line l)) ls)
array _ = none

abbrev lines_of : List Node → List (List (Text × Text))
lines_of [] = []
lines_of (cell (line l) ∷ is) = l ∷ lines_of is
lines_of (_ ∷ is) = lines_of is

abbrev inline_get : Node → Text → Option Node
inline_get (cell (line l)) k = text_of (lookup k l)
inline_get _ k = none

abbrev inline_put : Node → Text → Text → Option Node
inline_put (cell (line l)) k v = some (cell (line (put_key k v l)))
inline_put _ k v = none

abbrev table_put : List (Text × Cell) → Text → Node → List (Text × Cell)
table_put r k (cell c) = put_key k c r
table_put r k _ = r

abbrev all_tables : Node → Option (List (List (Text × Cell)))
all_tables (tables ts) = some ts
all_tables _ = none

abbrev names : List (Text × Node) → Text
names [] = []
names ((k, _) ∷ d) = k ++ names d

abbrev pub small : Toml
small = record {
  Doc = List (Text × Node);
  Item = Node;
  Table = List (Text × Cell);
  to_text = names;
  get = λ d s. lookup s d;
  put = λ d s i. put_key s i d;
  item_get = item_get;
  item_put = item_put;
  item_remove = item_remove;
  is_empty = is_empty;
  as_value = as_value;
  as_str = as_str;
  rendered = λ i. [];
  value = λ v. cell (plain v);
  array = array;
  of_array = λ is. cell (lines (lines_of is));
  inline = λ l. cell (line l);
  inline_get = inline_get;
  inline_put = inline_put;
  new_table = [];
  of_table = table;
  table_get = λ r k. cell_of (lookup k r);
  table_put = table_put;
  tables = all_tables;
  of_tables = tables;
}

lookup-put_key :
    {A : Type 0} (k : Text) (a : A) (r : List (Text × A)) → lookup k (put_key k a r) ≡ some a
lookup-put_key k a [] = rw (text_eq_refl k) refl
lookup-put_key k a ((j, b) ∷ r) = elim (Bool-cases (text_eq j k)) [
  | inl same ↦ rw (same, text_eq_refl k) refl
  | inr other ↦ rw (other, other) (lookup-put_key k a r)
]

apart : (s t : Text) → t ≢ s → text_eq s t ≡ false
apart s t d = elim (Bool-cases (text_eq s t)) [
  | inl same ↦ absurd (d (sym (text_eq→eq s t same)))
  | inr other ↦ other
]

lookup-put_key_other :
    {A : Type 0} (k t : Text) (a : A) (r : List (Text × A))
    → t ≢ k
    → lookup t (put_key k a r) ≡ lookup t r
lookup-put_key_other k t a [] d = rw (apart k t d) refl
lookup-put_key_other k t a ((j, b) ∷ r) d = elim (Bool-cases (text_eq j k)) [
  | inl same ↦ rw (same, text_eq→eq j k same, apart k t d) refl
  | inr other ↦
      rw other (ap (λ o. if text_eq j t then some b else o) (lookup-put_key_other k t a r d))
]

small-keyed_put :
    (i i' v : Node) (k : Text)
    → item_put i k v ≡ some i'
    → (all_tables i ≡ none) × (all_tables i' ≡ none)
small-keyed_put (table r) i' (cell c) k e =
    let same : table (put_key k c r) ≡ i' = cc e in (refl, rw (sym same) refl)
small-keyed_put (table r) i' (table _) k e = cc e
small-keyed_put (table r) i' (tables _) k e = cc e
small-keyed_put (cell _) i' v k e = cc e
small-keyed_put (tables _) i' v k e = cc e

small-keyed_remove :
    (i i' : Node) (k : Text) (had : Bool)
    → item_remove i k ≡ some (had, i')
    → (all_tables i ≡ none) × (all_tables i' ≡ none)
small-keyed_remove (table r) i' k had e =
    let same : table (drop_key k r) ≡ i' = cc e in (refl, rw (sym same) refl)
small-keyed_remove (cell _) i' k had e = cc e
small-keyed_remove (tables _) i' k had e = cc e

pub small-TomlLaws : TomlLaws small
small-TomlLaws = record {
  get_put = λ d s i. lookup-put_key s i d;
  get_put_other = λ d s t i other. lookup-put_key_other s t i d other;
  tables_of_tables = λ ts. refl;
  keyed_put = small-keyed_put;
  keyed_remove = small-keyed_remove;
}
