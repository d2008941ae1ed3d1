-- ===== src/Copy.antt =====
-- backend/konnaxion/worlds/services/schema.py, _base_tables, _foreign_key_edges and _copy_order: the
-- order in which the tables of a schema are copied, so that foreign keys hold at every step.
pub mod Counting
pub mod Sweeping
pub mod Stepping
pub mod Order
pub mod Progress
pub mod Tests
use konnaxion_worlds.Base.{
  ℕ, zero, suc, ◌-◌, Bool, true, false, not, ◌&&◌, ◌||◌, List, [], ◌∷◌, ◌++◌, Text, text_eq, codes,
  length, any, keep, if◌then◌else◌, ◌==◌,
}
use konnaxion_worlds.Base.Exec.{Result, ok, err}
use konnaxion_worlds.Plane.{SchemaState, ForeignKey, contains}

-- The tables of a schema but for the canary and the ledger of migrations, in the order of the query.
unfoldable pub base_tables : SchemaState → List Text
base_tables state =
    keep
      (λ t.
        not (text_eq t (codes "kx_world_canary")) && not (text_eq t (codes "django_migrations")))
      state.tables

-- Does a foreign key lead from `child` to another table `parent` of the schema?
unfoldable pub edge : (schema : Text) → List ForeignKey → (child parent : Text) → Bool
edge schema keys child parent =
    not (text_eq child parent)
    && any
        (λ k.
          text_eq k.parent_schema schema
          && (text_eq k.child_table child && text_eq k.parent_table parent))
        keys

-- How far _copy_order has come: its dict of degrees, its deque and its list.
pub record Sweep : Type 0 where
  pub indegree : Text → ℕ
  pub queue : List Text
  pub ordered : List Text

-- Edges are given as a test of child and parent, and tables as the sorted list of their names, so
-- that sorted(…) of a set of tables is the list of those that are in it.
module _ (child_of : Text → Text → Bool) (tables : List Text) where
  -- deps[child]
  abbrev pub parents : Text → List Text
  parents child = keep (child_of child) tables

  -- sorted(reverse[parent])
  abbrev pub children : Text → List Text
  children parent = keep (λ child. child_of child parent) tables

  -- indegree[child] -= 1, and the child is queued when that makes it 0.
  unfoldable pub relax : Text → Sweep → Sweep
  relax child s = record s {
    indegree = λ t. if text_eq t child then s.indegree t - 1 else s.indegree t;
    queue = if s.indegree child == 1 then s.queue ++ child ∷ [] else s.queue;
  }

  unfoldable pub relax_all : List Text → Sweep → Sweep
  relax_all [] s = s
  relax_all (child ∷ rest) s = relax_all rest (relax child s)

  abbrev pub place : Text → List Text → Sweep → Sweep
  place table rest s = record s { queue = rest; ordered = s.ordered ++ table ∷ [] }

  -- while queue: …
  unfoldable pub sweep : (fuel : ℕ) → Sweep → Sweep
  unfolding relax_all
  sweep zero s = s
  sweep (suc fuel) s = elim s.queue [
    | [] ↦ s
    | table ∷ rest ↦ sweep fuel (relax_all (children table) (place table rest s))
  ]

  abbrev pub first_sweep : Sweep
  first_sweep = record {
    indegree = λ t. length (parents t);
    queue = keep (λ t. length (parents t) == 0) tables;
    ordered = [];
  }

  -- The list, or the tables of a cycle where one is left.
  unfoldable pub copy_order : Result (List Text) (List Text)
  unfolding sweep
  copy_order =
      let ordered = (sweep (length tables) first_sweep).ordered in
      if length ordered == length tables
      then ok ordered
      else err (keep (λ t. not (contains t ordered)) tables)

-- _copy_order of the tables of a schema, with the foreign keys that it has.
unfoldable pub schema_copy_order : Text → SchemaState → Result (List Text) (List Text)
unfolding copy_order edge base_tables
schema_copy_order schema state = copy_order (edge schema state.foreign_keys) (base_tables state)
