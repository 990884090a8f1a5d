-- ===== src/Examples/Migrating.antt =====
-- The theorem about the migrations, applied to a catalogue of tables, columns and indexes.
use text.Mathlib.Text.{◌==◌}
use text.Mathlib.TextEquality.{eq_iff}
use my_frist_reop.Prelude.{
  String, Bool, true, false, ◌&&◌, Option, none, some, List, [], ◌∷◌, ◌≡◌, refl, take, drop, arith,
  if◌then◌else◌,
}
use my_frist_reop.Migrations.{
  Operation, create_table, drop_table, add_column, drop_column, create_index, drop_index, run,
}
use my_frist_reop.Migrations.History.{revisions, upgrades, downgrades, DropsUndo, downgrade-upgrade}

-- A table has an empty part.
record Item : Type 0 where
  table : String
  part : String

abbrev same : Item → Item → Bool
same x y = (x.table == y.table) && (x.part == y.part)

abbrev item : String → String → Item
item table part = record { table = table; part = part }

abbrev holds : Item → List Item → Bool
holds x [] = false
holds x (y ∷ ys) = if same x y then true else holds x ys

abbrev add : Item → List Item → Option (List Item)
add x xs = if holds x xs then none else some (x ∷ xs)

abbrev remove : Item → List Item → Option (List Item)
remove x [] = none
remove x (y ∷ ys) =
    let rest = remove x ys in
    if same x y then some ys else elim rest [ none ↦ none | some zs ↦ some (y ∷ zs) ]

abbrev apply : Operation → List Item → Option (List Item)
apply (create_table t columns constraints) s = add (item t "") s
apply (drop_table t) s = remove (item t "") s
apply (add_column t column) s = if holds (item t "") s then add (item t column.name) s else none
apply (drop_column t column) s = remove (item t column) s
apply (create_index i t columns) s = if holds (item t "") s then add (item t i) s else none
apply (drop_index i t) s = remove (item t i) s

same_refl : (x : Item) → same x x ≡ true
same_refl x = rw ((eq_iff x.table x.table).1 refl, (eq_iff x.part x.part).1 refl) refl

remove-add : (x : Item) (s t : List Item) → add x s ≡ some t → remove x t ≡ some s
remove-add x s t h = ground (arith, same_refl x)

apply-DropsUndo : DropsUndo apply
apply-DropsUndo (create_table a c k) p s t e h = ground (arith, remove-add (item a "") s t)
apply-DropsUndo (add_column a c) p s t e h = ground (arith, remove-add (item a c.name) s t)
apply-DropsUndo (create_index i a c) p s t e h = ground (arith, remove-add (item a i) s t)
apply-DropsUndo (drop_table a) p s t e h = absurd (ground arith)
apply-DropsUndo (drop_column a c) p s t e h = absurd (ground arith)
apply-DropsUndo (drop_index i a) p s t e h = absurd (ground arith)

-- The tables after the first script, and after all of them.
abbrev first : List Item
first = elim (run apply (upgrades (take 1 revisions)) []) [ none ↦ [] | some t ↦ t ]

abbrev last : List Item
last = elim (run apply (upgrades (take 2 (drop 1 revisions))) first) [ none ↦ [] | some t ↦ t ]

-- The last two scripts, on the tables of the first, and back.
downgrade-upgrade_example : run apply (downgrades (take 2 (drop 1 revisions))) last ≡ some first
downgrade-upgrade_example = downgrade-upgrade apply apply-DropsUndo 1 2 first last refl
