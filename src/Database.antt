-- ===== src/Database.antt =====
-- backend/app/db/persistence.py: the rows that mirror the stores, by their primary key. The order
-- in which a query without an ORDER BY gives the rows of a table is the database's: a parameter.
pub mod Mirror
pub mod Stores
mod Samples
use multi_stage_agentic_sast.Prelude.{
  some, none, if◌then◌else◌, String, ◌∷◌, Bool, [], Option, ◌∙◌, ◌≡◌,
}
use multi_stage_agentic_sast.Prelude.Dict.{Dict, pop, set_item, update, get, IsUnique}

-- What a row keeps of a model: model.model_dump, and model_validate_json of what json.dumps writes,
-- which gives no model for a payload that it refuses.
pub record Codec (M P : Type 0) : Type 0 where
  pub dump : M → P
  pub validate : P → Option M

module _ {M P : Type 0} (c : Codec M P) where
  -- Without a factory, nothing is written.
  unfoldable pub db_upsert : Bool → String → M → Dict P → Dict P
  db_upsert factory key model rows = if factory then set_item key (c.dump model) rows else rows

  unfoldable pub db_delete : Bool → String → Dict P → Dict P
  db_delete factory key rows = if factory then pop key rows else rows

  unfoldable pub db_delete_all : Bool → Dict P → Dict P
  db_delete_all factory rows = if factory then [] else rows

  abbrev pub validated : Option M → Option (Dict M) → String → Option (Dict M)
  validated (some m) (some d) key = some ((key, m) ∷ d)
  validated _ _ key = none

  unfoldable pub validate_all : Dict P → Option (Dict M)
  validate_all [] = some []
  validate_all ((key, p) ∷ rows) = validated (c.validate p) (validate_all rows) key

  -- A payload that is refused raises: no state is dropped. `query_all` is session.query(..).all().
  unfoldable pub db_load_all : Bool → (Dict P → Dict P) → Dict P → Option (Dict M)
  unfolding validate_all
  db_load_all factory query_all rows = if factory then validate_all (query_all rows) else some []

  abbrev pub cached : Option (Dict M) → Option (Dict M)
  cached none = none
  cached (some d) = some (update [] d)

  -- The cache of a store after set_factory: an assignment for every row.
  unfoldable pub rehydrate : Bool → (Dict P → Dict P) → Dict P → Option (Dict M)
  unfolding db_load_all update
  rehydrate factory query_all rows = cached (db_load_all factory query_all rows)

-- What a query for all rows promises: every row of the table once, in any order.
pub record IsListing {P : Type 0} (query_all : Dict P → Dict P) : Type 0 where
  pub every : (rows : Dict P) (k : String) → IsUnique rows → get k (query_all rows) ≡ get k rows
  pub once : (rows : Dict P) → IsUnique rows → IsUnique (query_all rows)
