-- ===== src/Tasks/Retries.antt =====
-- How a task's own code runs, and what stays written when it ends.
use konnaxion_worlds.Base.{
  ℕ, ◌≡◌, ◌≢◌, ◌||◌, ◌==◌, Bool, Option, none, some, Text, arith, Bool-cases, inl, inr,
}
use konnaxion_worlds.Base.Exec.{Result, ok, err}
use konnaxion_worlds.Models.{WorldRelease}
use konnaxion_worlds.Access.{Registry, WorldRuntime}
use konnaxion_worlds.Naming.{validate_schema_name}
use konnaxion_worlds.Scope.{Session, ScopeError, Scoped, world_db_scope}
use konnaxion_worlds.Tasks.{
  validate_task_ids, get_task_release, locked_task_release, release_runtime, world_release_scope,
  call_task, retry_of,
}
use konnaxion_worlds.Scope.Nesting.{entered}
use konnaxion_worlds.Tasks.Pinning.{task_release_agree}

-- The rows after a task that found `before`: what it wrote, unless it raised anything but Retry.
abbrev kept_after : {D : Type 0} → Option ℕ → D → D → D
kept_after none before written = before
kept_after (some exc) before written = written

abbrev pub kept : {D A : Type 0} → Session D → Result ScopeError A × Session D → D
kept s (ok a, s') = s'.rows
kept s (err e, s') = kept_after (retry_of e) s.rows s'.rows

pub record HasNames (control_schema : Text) (runtime : WorldRuntime) : Type 0 where
  pub domain : validate_schema_name runtime.domain_schema ≡ some runtime.domain_schema
  pub ekoh : validate_schema_name runtime.ekoh_schema ≡ some runtime.ekoh_schema
  pub control : validate_schema_name control_schema ≡ some control_schema

module _ {D A : Type 0} (registry_of : D → Registry) (control_schema : Text)
    (require_current : Bool) (run : Scoped D A) (s : Session D) where
  -- A task that is called outside of any scope, with numbers other than 0 for which the locked read accepts a release,
  -- runs in a transaction, as the runtime of that release and with its two schemas
  -- and the control schema on the search_path, and its result or exception is the call's. What it
  -- wrote stays if it returns or raises Retry; on any other exception the rows are as before. Behind
  -- it no scope is active. (World and Universe of the release exist, and the schemas' names are safe.)
  pub call_task-runs :
      (world_id release_id : ℕ) (release : WorldRelease) (runtime : WorldRuntime)
      → world_id ≢ 0
      → release_id ≢ 0
      → s.current_world_runtime ≡ none
      → locked_task_release (registry_of s.rows) world_id release_id require_current ≡ ok release
      → release_runtime (registry_of s.rows) release ≡ ok runtime
      → HasNames control_schema runtime
      → ((call_task registry_of control_schema require_current
            (some world_id)
            (some release_id)
            run
            s).0
          ≡ (run (entered control_schema runtime s)).0)
        × ((call_task registry_of control_schema require_current
              (some world_id)
              (some release_id)
              run
              s).1.rows
            ≡ kept s (run (entered control_schema runtime s)))
        × ((call_task registry_of control_schema require_current
              (some world_id)
              (some release_id)
              run
              s).1.current_world_runtime
            ≡ none)
  unfolding call_task world_release_scope validate_task_ids world_db_scope
  call_task-runs world_id release_id release runtime w r outside lookup found names =
      ground (arith, w, r, outside, lookup, found, names.domain, names.ekoh, names.control)

  -- A task whose numbers get_task_release refuses, with no numbers or 0 among them, does not run: the call
  -- raises that error, and the session is as before.
  pub call_task-refuses :
      (world_id release_id : Option ℕ) (e : ScopeError)
      → get_task_release (registry_of s.rows) world_id release_id require_current ≡ err e
      → call_task registry_of control_schema require_current world_id release_id run s ≡ (err e, s)
  unfolding call_task world_release_scope get_task_release validate_task_ids
  call_task-refuses none release_id e h = ground (arith, h)
  call_task-refuses (some w) none e h = ground (arith, h)
  call_task-refuses (some w) (some r) e h = elim (Bool-cases (w == 0 || r == 0)) [
    | inl zero ↦ ground (arith, h, zero)
    | inr fine ↦
        let agree =
          task_release_agree (registry_of s.rows) w r require_current (ground (arith, fine))
            (ground (arith, fine)) in
        ground (arith, h, fine, agree)
  ]
