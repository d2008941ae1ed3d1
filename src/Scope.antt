-- ===== src/Scope.antt =====
-- backend/konnaxion/worlds/runtime.py and backend/konnaxion/worlds/db.py: the runtime that a request
-- or a task is in, and the database scope that pins its transaction to one release.
pub mod Nesting
pub mod Tests
use konnaxion_worlds.Base.{
  ℕ, ◌≡◌, Bool, true, false, ◌&&◌, Option, none, some, List, [], ◌∷◌, Text, text_eq, codes,
  if◌then◌else◌, ◌==◌,
}
use konnaxion_worlds.Base.Exec.{Result, ok, err, Exec, pure, raise, ◌>>=◌, ◌>>◌}
use konnaxion_worlds.Access.{WorldRuntime}
use konnaxion_worlds.Naming.{validate_schema_name}

-- What the code of one context sees: the context variable, the search_path of the open transaction
-- (none outside of one, where the session's own path holds), and the rows, of any type.
pub record Session (D : Type 0) : Type 0 where
  pub current_world_runtime : Option WorldRuntime
  pub search_path : Option (List Text)
  pub in_transaction : Bool
  pub rows : D

pub data ScopeError : Type 0 where
  world_context_required : ScopeError
  -- WorldContextConflict: the runtime that is active, and the one that was to be entered
  world_context_conflict : WorldRuntime → WorldRuntime → ScopeError
  crossed_scopes : ScopeError
  unsafe_schema_name : Text → ScopeError
  body_raised : ℕ → ScopeError
  -- WorldTaskContextError, by the place that raises it, and celery.exceptions.Retry
  task_without_ids unknown_task_context stale_task_context unavailable_task_context : ScopeError
  retry : ℕ → ScopeError
  row_does_not_exist : ScopeError
  -- the ValueErrors of services/media.py and services/search.py
  unsafe_media_path cross_world_filter cross_world_document not_a_number : ScopeError

abbrev bool_eq : Bool → Bool → Bool
bool_eq true b = b
bool_eq false true = false
bool_eq false false = true

-- The == of the frozen dataclass.
unfoldable pub same_runtime : WorldRuntime → WorldRuntime → Bool
same_runtime a b =
    a.universe_id == b.universe_id
    && text_eq a.universe_key b.universe_key
    && a.world_id == b.world_id
    && text_eq a.world_key b.world_key
    && a.release_id == b.release_id
    && a.release_number == b.release_number
    && text_eq a.domain_schema b.domain_schema
    && text_eq a.ekoh_schema b.ekoh_schema
    && bool_eq a.is_dirty b.is_dirty

abbrev pub Scoped : Type 0 → Type 0 → Type 0
Scoped D A = Exec ScopeError (Session D) A

-- BEGIN, COMMIT and ROLLBACK at the outermost level, a savepoint below. A raise takes back the rows
-- and the search_path, but not the context variable; SET LOCAL ends with the outermost transaction.
abbrev pub leave :
    {D A : Type 0} → Session D → Result ScopeError A × Session D → Result ScopeError A × Session D
leave s (ok a, s') = (
  ok a,
  record s' {
    search_path = if s.in_transaction then s'.search_path else s.search_path;
    in_transaction = s.in_transaction;
  },
)
leave s (err e, s') = (
  err e,
  record s' { search_path = s.search_path; in_transaction = s.in_transaction; rows = s.rows },
)

abbrev pub transaction : {D A : Type 0} → Scoped D A → Scoped D A
transaction m s = leave s (m (record s { in_transaction = true }))

abbrev checked : Text → Option Text → Result ScopeError Text
checked schema none = err (unsafe_schema_name schema)
checked schema (some name) = ok name

module _ {D : Type 0} where
  unfoldable pub get_world_runtime : Scoped D (Option WorldRuntime)
  get_world_runtime s = (ok s.current_world_runtime, s)

  abbrev required : Option WorldRuntime → Scoped D WorldRuntime
  required none = raise world_context_required
  required (some runtime) = pure runtime

  pub require_world_runtime : Scoped D WorldRuntime
  require_world_runtime s = required s.current_world_runtime s

  -- The new value goes in, and the old one is the token.
  abbrev set_variable : Option WorldRuntime → Scoped D (Option WorldRuntime)
  set_variable new s = (ok s.current_world_runtime, record s { current_world_runtime = new })

  abbrev enter : Option WorldRuntime → WorldRuntime → Scoped D (Option WorldRuntime)
  enter none runtime = set_variable (some runtime)
  enter (some existing) runtime =
      if same_runtime existing runtime
      then set_variable (some runtime)
      else raise (world_context_conflict existing runtime)

  pub set_world_runtime : WorldRuntime → Scoped D (Option WorldRuntime)
  set_world_runtime runtime s = enter s.current_world_runtime runtime s

  pub reset_world_runtime : Option WorldRuntime → Scoped D Unit
  reset_world_runtime token s = (ok tt, record s { current_world_runtime = token })

  -- _quote_schema, up to the quotation marks.
  pub quote_schema : Text → Scoped D Text
  quote_schema schema s = (checked schema (validate_schema_name schema), s)

  pub world_search_path : (control_schema : Text) → WorldRuntime → Scoped D (List Text)
  unfolding quote_schema
  world_search_path control_schema runtime = do
    ekoh ← quote_schema runtime.ekoh_schema
    domain ← quote_schema runtime.domain_schema
    control ← quote_schema control_schema
    pure (ekoh ∷ domain ∷ control ∷ [])

  -- SET LOCAL search_path TO …
  abbrev set_local : List Text → Scoped D Unit
  set_local path s = (ok tt, record s { search_path = some path })

  pub set_local_world_search_path : (control_schema : Text) → WorldRuntime → Scoped D Unit
  unfolding world_search_path
  set_local_world_search_path control_schema runtime =
      world_search_path control_schema runtime >>= set_local

  -- try: yield  finally: reset_world_runtime(token)
  abbrev finally_reset :
      {A : Type 0}
      → Option WorldRuntime
      → Result ScopeError A × Session D
      → Result ScopeError A × Session D
  finally_reset token (r, s') = (r, record s' { current_world_runtime = token })

  abbrev with_token : {A : Type 0} → Scoped D A → Option WorldRuntime → Scoped D A
  with_token body token s = finally_reset token (body s)

  abbrev scope_in :
      {A : Type 0}
      → Option WorldRuntime
      → (control_schema : Text) → WorldRuntime
      → Scoped D A
      → Scoped D A
  scope_in none control_schema runtime body = transaction (
      set_local_world_search_path control_schema runtime
      >> (set_world_runtime runtime >>= with_token body))
  scope_in (some existing) control_schema runtime body =
      if same_runtime existing runtime
      then transaction (set_local_world_search_path control_schema runtime >> body)
      else raise crossed_scopes

  -- with world_db_scope(runtime): body
  unfoldable pub world_db_scope :
      {A : Type 0} → (control_schema : Text) → WorldRuntime → Scoped D A → Scoped D A
  unfolding set_local_world_search_path set_world_runtime
  world_db_scope control_schema runtime body s =
      scope_in s.current_world_runtime control_schema runtime body s
