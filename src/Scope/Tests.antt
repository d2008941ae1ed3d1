-- ===== src/Scope/Tests.antt =====
-- Scopes over a session whose rows are a number.
use konnaxion_worlds.Base.{
  ℕ, ◌≡◌, refl, Bool, true, false, Option, none, some, List, [], ◌∷◌, Text, codes,
}
use konnaxion_worlds.Base.Exec.{ok, err}
use konnaxion_worlds.Access.{WorldRuntime}
use konnaxion_worlds.Naming.{validate_schema_name}
use konnaxion_worlds.Scope.{Session, body_raised, Scoped, world_db_scope}
use konnaxion_worlds.Scope.Nesting.{look, world_db_scope-rollback, world_db_scope-pins}

abbrev runtime : WorldRuntime
runtime = record {
  universe_id = 1;
  universe_key = codes "levis";
  world_id = 10;
  world_key = codes "demo-alpha";
  release_id = 7;
  release_number = 2;
  domain_schema = codes "kx_w_a_r2";
  ekoh_schema = codes "kx_e_a_r2";
  is_dirty = false;
}

abbrev outside : Session ℕ
outside = record {
  current_world_runtime = none;
  search_path = none;
  in_transaction = false;
  rows = 3;
}

-- Writes a row, and raises.
abbrev failing : Scoped ℕ Unit
failing s = (err (body_raised 1), record s { rows = 8 })

failed : (world_db_scope (codes "public") runtime failing outside).0 ≡ err (body_raised 1)
unfolding world_db_scope validate_schema_name
failed = refl

rollback_example :
    ((world_db_scope (codes "public") runtime failing outside).1.rows ≡ 3)
    × ((world_db_scope (codes "public") runtime failing outside).1.search_path ≡ none)
rollback_example = world_db_scope-rollback (codes "public") runtime failing outside failed

-- Writes a row, and returns.
abbrev working : Scoped ℕ Unit
working s = (ok tt, record s { rows = 8 })

abbrev inside : Session ℕ
inside = record outside { current_world_runtime = some runtime; in_transaction = true }

abbrev other : WorldRuntime
other = record runtime { release_id = 8; release_number = 3 }

looked :
    (world_db_scope (codes "public") runtime look outside).0
    ≡ ok (some runtime, some (codes "kx_e_a_r2" ∷ codes "kx_w_a_r2" ∷ codes "public" ∷ []), true)
unfolding world_db_scope validate_schema_name
looked = refl

pins_example :
    ◌≡◌ {A = Option WorldRuntime × Option (List Text) × Bool}
      (some runtime, some (codes "kx_e_a_r2" ∷ codes "kx_w_a_r2" ∷ codes "public" ∷ []), true)
      (some runtime, some (codes "kx_e_a_r2" ∷ codes "kx_w_a_r2" ∷ codes "public" ∷ []), true)
pins_example = world_db_scope-pins (codes "public") runtime outside looked
