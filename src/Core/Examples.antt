-- ===== src/Core/Examples.antt =====
-- Table references and cardinalities at which the theorems are applied.
use post_bound.Base.{false, refl, [], ◌∷◌}
use post_bound.Core.Table.{TableReference}
use post_bound.Core.Table.Names.{IsNamed}

abbrev orders : TableReference
orders = record {
  full_name = b'O' ∷ b'r' ∷ [];
  alias = b'o' ∷ [];
  virtual = false;
  schema = b's' ∷ [];
  catalog = [];
}

orders-IsNamed : IsNamed orders
orders-IsNamed = record { named = refl; schema_named = refl; catalog_named = refl }
