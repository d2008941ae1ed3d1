-- ===== src/Middleware/Guarding.antt =====
-- Where the views of a World run, and which requests never reach a view.
use konnaxion_worlds.Base.{
  find, Option-cases, ℕ, ◌≡◌, ◌⊎◌, inl, inr, refl, ap, sym, ◌∙◌, Bool, true, false, Option, none,
  some, List, Bool-cases, arith,
}
use konnaxion_worlds.Base.Exec.{Result, result_or, ok, err, continue, pure}
use konnaxion_worlds.Models.{WorldRelease, WorldPersonaBridge}
use konnaxion_worlds.Access.{WorldRuntime, Refusal, resolve_world_runtime}
use konnaxion_worlds.Plane.{Host, validate_release_schemas}
use konnaxion_worlds.Store.{release_id_of}
use konnaxion_worlds.Scope.{Session, Scoped, ScopeError, world_db_scope}
use konnaxion_worlds.Scope.Nesting.{entered, world_db_scope_agree}
use konnaxion_worlds.Middleware.{Route, match_route}
use konnaxion_worlds.Middleware.Handling.{
  Site, Request, Response, handle, in_scope, is_runtime_control, runtime_schema_ready, first_key,
  load_view_as, marked, finish, run_route, run_resolved, run_ready, conflicting,
}

-- The release of a runtime passes the validation of its schemas now, or has passed it before, where the
-- process remembers that answer.
abbrev pub SchemasReady :
    {W : Type 0} → Host → (remembered : WorldRelease → Option Bool) → WorldRuntime → Site W → Type 0
SchemasReady host remembered runtime site =
    (r : WorldRelease) × (find release_id_of runtime.release_id site.registry.releases ≡ some r)
    × ((remembered r ≡ some true)
        ⊎ ((remembered r ≡ none) × (validate_release_schemas host r site.plane ≡ true)))

runtime_schema_ready_lem :
    {W : Type 0} (host : Host) (remembered : WorldRelease → Option Bool) (runtime : WorldRuntime)
    (site : Site W)
    → runtime_schema_ready host remembered runtime site ≡ ok true
    → SchemasReady host remembered runtime site
unfolding runtime_schema_ready
runtime_schema_ready_lem host remembered runtime site h =
    elim (Option-cases (find release_id_of runtime.release_id site.registry.releases)) [
      | inl e ↦ absurd (cc (rw e at h))
      | inr (r, e) ↦ elim (Option-cases (remembered r)) [
        | inl f ↦ (r, e, inr (f, ap (result_or true) (rw (e, f) at h)))
        | inr (b, f) ↦ (r, e, inl (f ∙ ap (λ x. some x) (ap (result_or true) (rw (e, f) at h))))
      ]
    ]

-- The place where a view of a World may run: the runtime is what the resolver gives to this user for the
-- keys of the route, and its schemas are, or once were, ready, but for the paths of the runtime itself.
pub record IsAllowed {W : Type 0} (host : Host) (remembered : WorldRelease → Option Bool)
    (request : Request) (route : Route) (s : Session (Site W)) (runtime : WorldRuntime)
    (seen : Request) : Type 0 where
  pub resolved :
      resolve_world_runtime s.rows.registry route.world_key request.user
        (first_key route.universe_key request.universe_host_key)
      ≡ ok runtime
  pub ready :
      (is_runtime_control request.path_info ≡ true) ⊎ SchemasReady host remembered runtime s.rows
  pub own_runtime : seen.world_runtime ≡ some runtime

viewed_runtime :
    (bridges : List WorldPersonaBridge) (runtime : WorldRuntime) (r : Request)
    → (load_view_as bridges runtime r).world_runtime ≡ r.world_runtime
unfolding load_view_as
viewed_runtime bridges runtime r = ground arith

module _ {W : Type 0} (host : Host) (now : ℕ) (remembered : WorldRelease → Option Bool)
    (enforce : Bool) (f g : Request → Scoped (Site W) (Response W)) (request : Request)
    (s : Session (Site W)) (outside : s.current_world_runtime ≡ none) where
  abbrev pub Alike : WorldRuntime → Request → Type 0
  Alike runtime seen =
      f seen (entered host.control_schema runtime s)
      ≡ g seen (entered host.control_schema runtime s)

  agree_in_scope :
      (runtime : WorldRuntime) (r : Request)
      → ((seen : Request) → seen.world_runtime ≡ r.world_runtime → Alike runtime seen)
      → world_db_scope host.control_schema runtime (in_scope host now f runtime r) s
        ≡ world_db_scope host.control_schema runtime (in_scope host now g runtime r) s
  unfolding in_scope
  agree_in_scope runtime r same =
      let viewer = load_view_as s.rows.bridges runtime r in
      world_db_scope_agree host.control_schema runtime (in_scope host now f runtime r)
        (in_scope host now g runtime r) s outside
        (ap (λ x. continue x (marked host now runtime viewer))
          (same viewer (viewed_runtime s.rows.bridges runtime r)))

  agree_ready :
      (runtime : WorldRuntime) (r : Request) (y : Result ScopeError Bool)
      → (y ≡ ok true → (seen : Request) → seen.world_runtime ≡ r.world_runtime → Alike runtime seen)
      → run_ready host now remembered enforce f runtime r y s
        ≡ run_ready host now remembered enforce g runtime r y s
  agree_ready runtime r (err e) same = refl
  agree_ready runtime r (ok false) same = refl
  agree_ready runtime r (ok true) same =
      ap (λ x. continue x (λ done. pure (finish host now done)))
        (agree_in_scope runtime r (same refl))

  agree_resolved :
      (x : Result Refusal WorldRuntime)
      → ((runtime : WorldRuntime)
          → x ≡ ok runtime
          → (is_runtime_control request.path_info ≡ true)
            ⊎ (runtime_schema_ready host remembered runtime s.rows ≡ ok true)
          → (seen : Request) → seen.world_runtime ≡ some runtime
          → Alike runtime seen)
      → run_resolved host now remembered enforce f request x s
        ≡ run_resolved host now remembered enforce g request x s
  agree_resolved (err refusal) same = refl
  agree_resolved (ok runtime) same =
      let entering = record request {
        world_runtime = some runtime;
        universe_key = some runtime.universe_key;
      } in
      elim (Bool-cases (is_runtime_control request.path_info)) [
        | inl free ↦ rw free (
            agree_ready runtime entering (ok true)
              (λ e seen own. same runtime refl (inl free) seen own))
        | inr guarded ↦ rw guarded (
            agree_ready runtime entering (runtime_schema_ready host remembered runtime s.rows)
              (λ e seen own. same runtime refl (inr e) seen own))
      ]

  -- A request whose path names a World, outside of any scope, is answered, and changes the database, by
  -- its view only through what this does in the scope of a runtime that the resolver gives to the
  -- request's user for the World of the path, and where (but for the paths of the runtime itself) the
  -- schemas of that release pass validation now, or the process remembers that they once did: two views
  -- that do the same there give the same result.
  pub handle-IsAllowed :
      (route : Route)
      → match_route request.path_info ≡ some route
      → ((runtime : WorldRuntime) (seen : Request)
          → IsAllowed host remembered request route s runtime seen
          → Alike runtime seen)
      → handle host now remembered enforce f request s
        ≡ handle host now remembered enforce g request s
  unfolding handle
  handle-IsAllowed route routed same =
      ap (λ o. run_route host now remembered enforce f request o s) routed
      ∙ (by_conflict (Bool-cases (conflicting request.universe_host_key route.universe_key))
          ∙ sym (ap (λ o. run_route host now remembered enforce g request o s) routed))
    where
      as_ready :
          (runtime : WorldRuntime)
          → (is_runtime_control request.path_info ≡ true)
            ⊎ (runtime_schema_ready host remembered runtime s.rows ≡ ok true)
          → (is_runtime_control request.path_info ≡ true)
            ⊎ SchemasReady host remembered runtime s.rows
      as_ready runtime (inl free) = inl free
      as_ready runtime (inr h) = inr (runtime_schema_ready_lem host remembered runtime s.rows h)

      by_conflict :
          ((conflicting request.universe_host_key route.universe_key ≡ true)
            ⊎ (conflicting request.universe_host_key route.universe_key ≡ false))
          → run_route host now remembered enforce f request (some route) s
            ≡ run_route host now remembered enforce g request (some route) s
      by_conflict (inl clash) = rw clash refl
      by_conflict (inr fine) = rw fine (
          agree_resolved
            (resolve_world_runtime s.rows.registry route.world_key request.user
              (first_key route.universe_key request.universe_host_key))
            (λ runtime e ready seen own.
              same runtime seen
                (record { resolved = e; ready = as_ready runtime ready; own_runtime = own })))
