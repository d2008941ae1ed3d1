-- ===== src/Scope/Nesting.antt =====
-- What a scope guarantees to the code inside and leaves behind.
use konnaxion_worlds.Base.{
  ◌≡◌, ◌≢◌, ◌↔◌, ◌⊎◌, Bool, true, false, Option, none, some, List, [], ◌∷◌, Text, text_eq_iff,
  arith, inl, inr, Option-cases,
}
use konnaxion_worlds.Base.Exec.{ok, err}
use konnaxion_worlds.Access.{WorldRuntime}
use konnaxion_worlds.Naming.{validate_schema_name}
use konnaxion_worlds.Scope.{
  Session, ScopeError, crossed_scopes, Scoped, same_runtime, world_db_scope,
}

pub same_runtime_iff : (a b : WorldRuntime) → (same_runtime a b ≡ true) ↔ (a ≡ b)
unfolding same_runtime
same_runtime_iff a b = ground (
  arith,
  text_eq_iff a.universe_key b.universe_key,
  text_eq_iff a.world_key b.world_key,
  text_eq_iff a.domain_schema b.domain_schema,
  text_eq_iff a.ekoh_schema b.ekoh_schema,
)

module _ {D A : Type 0} (control_schema : Text) (runtime : WorldRuntime) (body : Scoped D A)
    (s : Session D) where
  -- A scope that raises, before its body or in it, leaves the rows and the search_path as they
  -- were.
  pub world_db_scope-rollback :
      {e : ScopeError}
      → (world_db_scope control_schema runtime body s).0 ≡ err e
      → ((world_db_scope control_schema runtime body s).1.rows ≡ s.rows)
        × ((world_db_scope control_schema runtime body s).1.search_path ≡ s.search_path)
  unfolding world_db_scope
  world_db_scope-rollback h = ground arith

  -- However the body of an outermost scope ends, and whatever it did, the code after it is in no
  -- World, and in the transaction that the code before it was in.
  pub world_db_scope-leaves :
      s.current_world_runtime ≡ none
      → ((world_db_scope control_schema runtime body s).1.current_world_runtime ≡ none)
        × ((world_db_scope control_schema runtime body s).1.in_transaction ≡ s.in_transaction)
  unfolding world_db_scope
  world_db_scope-leaves h = ground arith

  -- An outermost scope that opens its own transaction leaves the connection's search_path as it was,
  -- however its body ends.
  pub world_db_scope_is_local :
      s.current_world_runtime ≡ none
      → s.in_transaction ≡ false
      → (world_db_scope control_schema runtime body s).1.search_path ≡ s.search_path
  unfolding world_db_scope
  world_db_scope_is_local h free = ground arith

  -- In the scope of another runtime nothing runs: the body is refused and the session untouched.
  pub world_db_scope_no_crossing :
      (existing : WorldRuntime)
      → s.current_world_runtime ≡ some existing
      → existing ≢ runtime
      → world_db_scope control_schema runtime body s ≡ (err crossed_scopes, s)
  unfolding world_db_scope
  world_db_scope_no_crossing existing h other = ground (arith, same_runtime_iff existing runtime)

-- What a body can see of its scope.
abbrev pub look : {D : Type 0} → Scoped D (Option WorldRuntime × Option (List Text) × Bool)
look s = (ok (s.current_world_runtime, s.search_path, s.in_transaction), s)

validate_schema_name_cases :
    (n : Text) → (validate_schema_name n ≡ none) ⊎ (validate_schema_name n ≡ some n)
unfolding validate_schema_name
validate_schema_name_cases n = ground arith

-- The session that code finds in an outermost scope.
abbrev pub entered : {D : Type 0} → (control_schema : Text) → WorldRuntime → Session D → Session D
entered control_schema runtime s = record s {
  current_world_runtime = some runtime;
  search_path = some (runtime.ekoh_schema ∷ runtime.domain_schema ∷ control_schema ∷ []);
  in_transaction = true;
}

-- What an outermost scope does depends on its body only by how this runs there.
pub world_db_scope_agree :
    {D A : Type 0} (control_schema : Text) (runtime : WorldRuntime) (f g : Scoped D A)
    (s : Session D)
    → s.current_world_runtime ≡ none
    → f (entered control_schema runtime s) ≡ g (entered control_schema runtime s)
    → world_db_scope control_schema runtime f s ≡ world_db_scope control_schema runtime g s
unfolding world_db_scope
world_db_scope_agree control_schema runtime f g s outside same = ground (
  arith,
  outside,
  same,
  validate_schema_name_cases runtime.ekoh_schema,
  validate_schema_name_cases runtime.domain_schema,
  validate_schema_name_cases control_schema,
)

module _ {D : Type 0} (control_schema : Text) (runtime : WorldRuntime) (s : Session D) where
  abbrev Pinned : Option WorldRuntime × Option (List Text) × Bool → Type 0
  Pinned seen = seen ≡ (
    some runtime,
    some (runtime.ekoh_schema ∷ runtime.domain_schema ∷ control_schema ∷ []),
    true,
  )

  pins_outside :
      {seen : Option WorldRuntime × Option (List Text) × Bool}
      → s.current_world_runtime ≡ none
      → (world_db_scope control_schema runtime look s).0 ≡ ok seen
      → Pinned seen
  unfolding world_db_scope
  pins_outside {seen} outside h = ground (
    arith,
    validate_schema_name_cases runtime.ekoh_schema,
    validate_schema_name_cases runtime.domain_schema,
    validate_schema_name_cases control_schema,
  )

  pins_inside :
      (existing : WorldRuntime) {seen : Option WorldRuntime × Option (List Text) × Bool}
      → s.current_world_runtime ≡ some existing
      → (world_db_scope control_schema runtime look s).0 ≡ ok seen
      → Pinned seen
  unfolding world_db_scope
  pins_inside existing {seen} inside h = ground (
    arith,
    same_runtime_iff existing runtime,
    validate_schema_name_cases runtime.ekoh_schema,
    validate_schema_name_cases runtime.domain_schema,
    validate_schema_name_cases control_schema,
  )

-- Code in a scope, nested in one of the same release or not, is in a transaction, runs as the
-- scope's runtime, and has a search_path of exactly the release's two schemas, EkoH first, and
-- the control schema.
pub world_db_scope-pins :
    {D : Type 0} (control_schema : Text) (runtime : WorldRuntime) (s : Session D)
    {seen : Option WorldRuntime × Option (List Text) × Bool}
    → (world_db_scope control_schema runtime look s).0 ≡ ok seen
    → seen ≡ (
      some runtime,
      some (runtime.ekoh_schema ∷ runtime.domain_schema ∷ control_schema ∷ []),
      true,
    )
world_db_scope-pins control_schema runtime s h = elim (Option-cases s.current_world_runtime) [
  | inl outside ↦ pins_outside control_schema runtime s outside h
  | inr (existing, inside) ↦ pins_inside control_schema runtime s existing inside h
]
