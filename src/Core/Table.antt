-- ===== src/Core/Table.antt =====
-- `TableReference` of postbound/_core.py: its constructor, its equality and its copies.
pub mod Names
use post_bound.Base.{
  Bool, true, false, ◌≡◌, refl, arith, Key, Text, is_blank, lower, text_eq, text_eq_refl,
  eq_of_text_eq, Result, ok, err, value_error, state_error, ◌&&◌, not, if◌then◌else◌, OnOk, List,
  [], ◌∷◌, Option, none, some, ◌⊎◌, inl, inr, ap, sym, ◌∙◌,
}

-- The fields that the constructor keeps as they are given; the normalised ones are computed from
-- these.
pub record TableReference : Type 0 where
  pub full_name : Text
  pub alias : Text
  pub virtual : Bool
  pub schema : Text
  pub catalog : Text

-- `normalize`
unfoldable pub normalize : Text → Text
unfolding lower
normalize identifier = lower identifier

-- `TableReference.__init__`
unfoldable pub create : Text → Text → Bool → Text → Text → Result TableReference
create full_name alias virtual schema catalog =
    if is_blank full_name && is_blank alias
    then err value_error
    else if not (is_blank schema) && is_blank full_name
    then err value_error
    else if not (is_blank catalog) && is_blank full_name
    then err value_error
    else ok (record {
      full_name = full_name;
      alias = alias;
      virtual = virtual;
      schema = schema;
      catalog = catalog;
    })

-- `TableReference.create_virtual`
unfoldable pub create_virtual : Text → Text → Text → Text → Result TableReference
unfolding create
create_virtual alias full_name schema catalog = create full_name alias true schema catalog

-- `TableReference.from_components`
unfoldable pub from_components : List Text → Result TableReference
unfolding create
from_components (name ∷ []) = create name [] false [] []
from_components (schema ∷ name ∷ []) = create name [] false schema []
from_components (catalog ∷ schema ∷ name ∷ []) = create name [] false schema catalog
from_components _ = err value_error

-- `TableReference.identifier`
unfoldable pub identifier : TableReference → Text
identifier t = if is_blank t.alias then t.full_name else t.alias

-- `TableReference.drop_alias`
unfoldable pub drop_alias : TableReference → Result TableReference
unfolding create
drop_alias t = if t.virtual then err state_error else create t.full_name [] false t.schema t.catalog

-- `TableReference.with_alias`
unfoldable pub with_alias : TableReference → Text → Result TableReference
unfolding create
with_alias t alias =
    if is_blank t.full_name
    then err state_error
    else create t.full_name alias t.virtual t.schema t.catalog

-- `TableReference.with_schema`
unfoldable pub with_schema : TableReference → Text → Result TableReference
unfolding create
with_schema t schema = create t.full_name t.alias t.virtual schema t.catalog

-- `TableReference.with_catalog`
unfoldable pub with_catalog : TableReference → Text → Result TableReference
unfolding create
with_catalog t catalog = create t.full_name t.alias t.virtual t.schema catalog

-- `TableReference.make_virtual`
unfoldable pub make_virtual : TableReference → Result TableReference
unfolding create
make_virtual t = create t.full_name t.alias true t.schema t.catalog

abbrev given {ℓ} : {A : Type ℓ} → Option A → A → A
given none old = old
given (some new) old = new

-- `TableReference.update`
unfoldable pub update :
    TableReference
    → Option Text
    → Option Text
    → Option Bool
    → Option Text
    → Option Text
    → Result TableReference
unfolding create
update t full_name alias virtual schema catalog =
    create (given full_name t.full_name) (given alias t.alias) (given virtual t.virtual)
      (given schema t.schema) (given catalog t.catalog)

-- `TableReference.__eq__`: the normalised names, and not whether the table is virtual.
unfoldable pub table_eq : TableReference → TableReference → Bool
unfolding normalize text_eq
table_eq s t =
    text_eq (normalize s.full_name) (normalize t.full_name)
    && text_eq (normalize s.alias) (normalize t.alias)
    && text_eq (normalize s.schema) (normalize t.schema)
    && text_eq (normalize s.catalog) (normalize t.catalog)

-- The names by which tables are compared.
abbrev names : TableReference → Text × Text × Text × Text
names t = (normalize t.full_name, normalize t.alias, normalize t.schema, normalize t.catalog)

pub names_of_table_eq : (s t : TableReference) → table_eq s t ≡ true → names s ≡ names t
unfolding table_eq
names_of_table_eq s t h = ground (
  arith,
  eq_of_text_eq (normalize s.full_name) (normalize t.full_name),
  eq_of_text_eq (normalize s.alias) (normalize t.alias),
  eq_of_text_eq (normalize s.schema) (normalize t.schema),
  eq_of_text_eq (normalize s.catalog) (normalize t.catalog),
)

pub table_eq_of_names : (s t : TableReference) → names s ≡ names t → table_eq s t ≡ true
unfolding table_eq
table_eq_of_names s t h = ground (
  arith,
  text_eq_refl (normalize t.full_name),
  text_eq_refl (normalize t.alias),
  text_eq_refl (normalize t.schema),
  text_eq_refl (normalize t.catalog),
)

pub table_eq_refl : (t : TableReference) → table_eq t t ≡ true
table_eq_refl t = table_eq_of_names t t refl

pub table_eq-sym : (s t : TableReference) → table_eq s t ≡ true → table_eq t s ≡ true
table_eq-sym s t h = table_eq_of_names t s (sym (names_of_table_eq s t h))

pub table_eq_trans :
    (r s t : TableReference) → table_eq r s ≡ true → table_eq s t ≡ true → table_eq r t ≡ true
table_eq_trans r s t g h = table_eq_of_names r t (names_of_table_eq r s g ∙ names_of_table_eq s t h)

-- A table reference is a key of dictionaries and sets.
instance abbrev pub table_key : Key TableReference
table_key = record {
  same = table_eq;
  same_refl = table_eq_refl;
  same_sym = table_eq-sym;
  same_trans = table_eq_trans;
}
