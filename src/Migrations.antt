-- ===== src/Migrations.antt =====
-- backend/migrations/: the scripts of backend/migrations/versions/ as lists of alembic's operations, and
-- their run by backend/migrations/env.py over a function `apply` for the database.
pub mod Phase1
pub mod Heartbeat
pub mod Ai
pub mod History
use my_frist_reop.Prelude.{ℕ, String, Bool, true, false, Option, none, some, List, [], ◌∷◌}

pub data ColumnType : Type 0 where
  string : ℕ → ColumnType
  text : ColumnType
  integer : ColumnType
  big_integer : ColumnType
  numeric : ℕ → ℕ → ColumnType
  float : ColumnType
  boolean : ColumnType
  -- `DateTime(timezone=…)`
  date_time : Bool → ColumnType
  json : ColumnType
  jsonb : ColumnType
  array : ColumnType → ColumnType

-- `server_default`: a text, or an expression in `sa.text`.
pub data ServerDefault : Type 0 where
  literal : String → ServerDefault
  expression : String → ServerDefault

-- `sa.Column`
pub record Column : Type 0 where
  pub name : String
  pub type : ColumnType
  pub primary_key : Bool
  pub autoincrement : Bool
  pub nullable : Bool
  pub server_default : Option ServerDefault

pub data Constraint : Type 0 where
  unique : List String → Option String → Constraint
  foreign_key : List String → List String → Constraint

-- The calls of `alembic.op`.
pub data Operation : Type 0 where
  create_table : String → List Column → List Constraint → Operation
  drop_table : String → Operation
  add_column : String → Column → Operation
  drop_column : String → String → Operation
  create_index : String → String → List String → Operation
  drop_index : String → String → Operation

-- A script of backend/migrations/versions/.
pub record Revision : Type 0 where
  pub revision : String
  pub down_revision : Option String
  pub upgrade : List Operation
  pub downgrade : List Operation

-- `sa.Column(…, primary_key=True, nullable=False)`, on a text and on a counter.
abbrev pub id_column : String → ColumnType → Column
id_column name type = record {
  name = name;
  type = type;
  primary_key = true;
  autoincrement = false;
  nullable = false;
  server_default = none;
}

abbrev pub id_counter : String → Column
id_counter name = record (id_column name big_integer) { autoincrement = true }

-- `sa.Column(…, nullable=False)`, with and without a default.
abbrev pub required : String → ColumnType → Column
required name type = record (id_column name type) { primary_key = false }

abbrev pub defaulted : String → ColumnType → ServerDefault → Column
defaulted name type default = record (required name type) { server_default = some default }

-- `sa.Column(…, nullable=True)`
abbrev pub optional : String → ColumnType → Column
optional name type = record (required name type) { nullable = true }

-- `sa.Column(…, sa.DateTime(timezone=False), nullable=False, server_default=sa.text("NOW()"))`
abbrev pub stamp : String → Column
stamp name = defaulted name (date_time false) (expression "NOW()")

-- The operations one after the other, in one transaction: one that fails undoes them all.
module _ {ℓ} {S : Type ℓ} (apply : Operation → S → Option S) where
  abbrev pub run : List Operation → S → Option S
  run [] s = some s
  run (o ∷ os) s = elim (apply o s) [ none ↦ none | some t ↦ run os t ]
