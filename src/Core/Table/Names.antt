-- ===== src/Core/Table/Names.antt =====
-- Which table references can be built, and what the copies of one keep.
use post_bound.Base.{
  Bool, true, false, ◌≡◌, refl, arith, Text, is_blank, ok, ◌&&◌, not, ◌>>=◌, none, ◌↔◌, Returns,
}
use post_bound.Core.Table.{
  TableReference, create, update, make_virtual, drop_alias, with_alias, table_eq, table_eq_of_names,
}

-- There is a name, and a schema or a catalog stands only in front of a full name.
pub record IsNamed (t : TableReference) : Type 0 where
  pub named : (is_blank t.full_name && is_blank t.alias) ≡ false
  pub schema_named : (not (is_blank t.schema) && is_blank t.full_name) ≡ false
  pub catalog_named : (not (is_blank t.catalog) && is_blank t.full_name) ≡ false

-- The constructor of TableReference returns a reference exactly if it has the given fields and is
-- named: it has a name or an alias, and a schema or a catalog only with a full name.
pub create_iff :
    (f a : Text) (v : Bool) (s c : Text) (t : TableReference)
    → (create f a v s c ≡ ok t) ↔ (
        (t ≡ record { full_name = f; alias = a; virtual = v; schema = s; catalog = c }) × IsNamed t)
unfolding create
create_iff f a v s c t = (λ h. ground arith, λ h. ground arith)

-- update without changes returns the reference itself, and make_virtual returns one that is equal
-- to it, if the reference is named.
pub update-make_virtual_keep :
    (t : TableReference)
    → IsNamed t
    → (update t none none none none none ≡ ok t)
      × Returns (λ u. table_eq t u ≡ true) (make_virtual t)
unfolding update make_virtual
update-make_virtual_keep t n =
    (ground arith, rw (n.named, n.schema_named, n.catalog_named) (table_eq_of_names t _ refl))

-- Dropping the alias of a table that is not virtual and has a full name, and giving it the same
-- alias again, restores the reference.
pub with_alias-drop_alias :
    (t : TableReference)
    → IsNamed t
    → t.virtual ≡ false
    → is_blank t.full_name ≡ false
    → (drop_alias t >>= λ u. with_alias u t.alias) ≡ ok t
unfolding drop_alias with_alias
with_alias-drop_alias t n v f = ground arith
