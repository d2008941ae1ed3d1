-- ===== src/Middleware/Handling.antt =====
-- backend/konnaxion/worlds/middleware.py, WorldRouteMiddleware and its helpers, with
-- assert_runtime_schema_ready of backend/konnaxion/worlds/services/schema.py: how a request is handled.
use konnaxion_worlds.Base.{
  ℕ, Bool, true, false, not, ◌&&◌, ◌||◌, Option, none, some, List, [], ◌∷◌, Text, codes, show,
  text_eq, find, map, leb, keep, get_key, if◌then◌else◌, ◌==◌,
}
use konnaxion_worlds.Base.Exec.{Result, ok, err, pure, raise, ◌>>=◌}
use konnaxion_worlds.Naming.{TextLibrary}
use konnaxion_worlds.Models.{WorldRelease, WorldPersonaBridge, User}
use konnaxion_worlds.Access.{Registry, WorldRuntime, Refusal, access_denied, resolve_world_runtime}
use konnaxion_worlds.Plane.{Host, Plane, validate_release_schemas}
use konnaxion_worlds.Store.{release_id_of}
use konnaxion_worlds.Scope.{Scoped, ScopeError, world_db_scope, row_does_not_exist}
use konnaxion_worlds.Middleware.{
  Route, match_route, requires_world_route, ends_with, request_hostname, universe_key_from_hostname,
}

-- The database: the control plane, the schemas, and the rows of the Worlds, of any type.
pub record Site (W : Type 0) : Type 0 where
  pub registry : Registry
  pub bridges : List WorldPersonaBridge
  pub plane : Plane
  pub world_rows : W

-- A request as the middleware sees and changes it. `view_as` is the session's konnaxion_world_view_as,
-- by str(world_id), or none where there is no session; `is_safe_method` says whether the method is one of
-- _SAFE_METHODS.
pub record Request : Type 0 where
  pub path_info : Text
  pub is_safe_method : Bool
  pub user : Option User
  pub view_as : Option (List (Text × ℕ))
  pub universe_host_key : Option Text
  pub universe_key : Option Text
  pub world_runtime : Option WorldRuntime
  pub world_persona_bridge : Option WorldPersonaBridge

pub data ErrorCode : Type 0 where
  world_required universe_host_path_conflict world_access_denied world_not_found : ErrorCode
  world_schema_not_ready world_async_stream_unsupported : ErrorCode

pub data Body (W : Type 0) : Type 0 where
  content : Body W
  error_body : ErrorCode → Body W
  -- what the server runs after the middleware has returned
  sync_stream : Scoped (Site W) Unit → Body W
  async_stream : Body W

-- The headers X-Konnaxion-…, where they are set: the runtime that they name.
pub record Response (W : Type 0) : Type 0 where
  pub status_code : ℕ
  pub body : Body W
  pub headers : Option WorldRuntime

unfoldable pub error_response : {W : Type 0} → ErrorCode → (status : ℕ) → Response W
error_response code status = record { status_code = status; body = error_body code; headers = none }

abbrev pub authenticated : Option User → Bool
authenticated none = false
authenticated (some user) = user.is_authenticated

abbrev persona_of : Option ℕ → Option ℕ
persona_of none = none
persona_of (some persona_id) = if persona_id == 0 then none else some persona_id

abbrev state_of : Option (List (Text × ℕ)) → List (Text × ℕ)
state_of none = []
state_of (some state) = state

abbrev bridge_for : List WorldPersonaBridge → WorldRuntime → ℕ → List WorldPersonaBridge
bridge_for bridges runtime persona_id =
    keep (λ b. b.release_id == runtime.release_id && b.persona_id == persona_id) bridges

abbrev drop_key : Text → Option (List (Text × ℕ)) → Option (List (Text × ℕ))
drop_key key none = none
drop_key key (some state) = some (keep (λ entry. not (text_eq entry.0 key)) state)

abbrev with_bridge : WorldRuntime → List WorldPersonaBridge → Request → Request
with_bridge runtime [] request = record request {
  view_as = drop_key (show runtime.world_id) request.view_as;
}
with_bridge runtime (bridge ∷ rest) request = record request { world_persona_bridge = some bridge }

abbrev as_persona : List WorldPersonaBridge → WorldRuntime → Option ℕ → Request → Request
as_persona bridges runtime none request = request
as_persona bridges runtime (some persona_id) request =
    with_bridge runtime (bridge_for bridges runtime persona_id) request

unfoldable pub load_view_as : List WorldPersonaBridge → WorldRuntime → Request → Request
load_view_as bridges runtime request =
    let clean = record request { world_persona_bridge = none } in
    if not (authenticated request.user)
    then clean
    else as_persona bridges runtime
        (persona_of (get_key (show runtime.world_id) (state_of request.view_as))) clean

unfoldable pub should_mark_dirty : {W : Type 0} → Request → Response W → Bool
unfolding ends_with
should_mark_dirty request response =
    if request.is_safe_method || leb 400 response.status_code
    then false
    else not (ends_with request.path_info (codes "/runtime/view-as/"))

unfoldable pub is_runtime_control : (path : Text) → Bool
unfolding ends_with
is_runtime_control path =
    ends_with path (codes "/runtime/") || ends_with path (codes "/runtime/view-as/")

abbrev dirty_row : ℕ → ℕ → WorldRelease → WorldRelease
dirty_row release_id now r =
    if r.id == release_id then record r { is_dirty = true; dirty_since = some now } else r

abbrev pub remembered_or : Option Bool → Bool → Bool
remembered_or none valid = valid
remembered_or (some answer) valid = answer

abbrev pub readiness :
    Host → (WorldRelease → Option Bool) → Plane → Option WorldRelease → Result ScopeError Bool
readiness host remembered plane none = err row_does_not_exist
readiness host remembered plane (some release) =
    ok (remembered_or (remembered release) (validate_release_schemas host release plane))

abbrev pub conflicting : Option Text → Option Text → Bool
conflicting (some host_key) (some path_key) = not (text_eq host_key path_key)
conflicting host_key path_key = false

abbrev pub first_key : Option Text → Option Text → Option Text
first_key (some path_key) host_key = some path_key
first_key none host_key = host_key

-- Whether assert_runtime_schema_ready passes. The lru_cache of _runtime_guard_cached may remember an
-- answer for the release.
unfoldable pub runtime_schema_ready :
    {W : Type 0}
    → Host
    → (remembered : WorldRelease → Option Bool) → WorldRuntime
    → Site W
    → Result ScopeError Bool
unfolding find
runtime_schema_ready host remembered runtime site =
    readiness host remembered site.plane
      (find release_id_of runtime.release_id site.registry.releases)

module _ {W : Type 0} (host : Host) (now : ℕ) where
  -- WorldRelease.objects.filter(pk=…).update(is_dirty=True, dirty_since=now)
  unfoldable pub mark_dirty : (release_id : ℕ) → Scoped (Site W) Unit
  mark_dirty release_id s =
      let site = s.rows in
      let registry = site.registry in
      (
        ok tt,
        record s {
          rows = record site {
            registry = record registry {
              releases = map (dirty_row release_id now) registry.releases;
            };
          };
        },
      )

  abbrev viewed : WorldRuntime → Request → Scoped (Site W) (Request × WorldRuntime)
  viewed runtime request s = (ok (load_view_as s.rows.bridges runtime request, runtime), s)

  abbrev pub marked :
      WorldRuntime → Request → Response W → Scoped (Site W) (Response W × WorldRuntime)
  marked runtime request response =
      if should_mark_dirty request response
      then mark_dirty runtime.release_id
        >>= (λ u. pure (response, record runtime { is_dirty = true }))
      else pure (response, runtime)

  module _ (get_response : Request → Scoped (Site W) (Response W)) where
    -- The code inside of world_db_scope.
    unfoldable pub in_scope : WorldRuntime → Request → Scoped (Site W) (Response W × WorldRuntime)
    unfolding mark_dirty should_mark_dirty load_view_as
    in_scope runtime request =
        viewed runtime request >>= (λ (viewer, rt). get_response viewer >>= marked rt viewer)

  abbrev scoped_body : WorldRuntime → Response W → Body W → Response W
  scoped_body runtime response (sync_stream original) = record response {
    body = sync_stream (world_db_scope host.control_schema runtime original);
  }
  scoped_body runtime response async_stream = error_response world_async_stream_unsupported 501
  scoped_body runtime response content = response
  scoped_body runtime response (error_body code) = response

  unfoldable pub scope_streaming_response : Response W → WorldRuntime → Response W
  unfolding error_response
  scope_streaming_response response runtime = scoped_body runtime response response.body

  abbrev pub finish : Response W × WorldRuntime → Response W
  finish (response, runtime) = record (scope_streaming_response response runtime) {
    headers = some runtime;
  }

  abbrev pub refused : Refusal → Response W
  refused access_denied = error_response world_access_denied 403
  refused _ = error_response world_not_found 404

  module _ (remembered : WorldRelease → Option Bool) (enforce_scoped_api : Bool)
      (get_response : Request → Scoped (Site W) (Response W)) where
    abbrev pub run_ready :
        WorldRuntime → Request → Result ScopeError Bool → Scoped (Site W) (Response W)
    run_ready runtime request (err e) = raise e
    run_ready runtime request (ok false) = pure (error_response world_schema_not_ready 503)
    run_ready runtime request (ok true) =
        world_db_scope host.control_schema runtime (in_scope get_response runtime request)
        >>= (λ done. pure (finish done))

    abbrev pub run_resolved : Request → Result Refusal WorldRuntime → Scoped (Site W) (Response W)
    run_resolved request (err refusal) s = (ok (refused refusal), s)
    run_resolved request (ok runtime) s =
        run_ready runtime
          (record request {
            world_runtime = some runtime;
            universe_key = some runtime.universe_key;
          })
          (if is_runtime_control request.path_info
            then ok true
            else runtime_schema_ready host remembered runtime s.rows)
          s

    abbrev pub unrouted : Bool → Request → Scoped (Site W) (Response W)
    unrouted true request = pure (error_response world_required 400)
    unrouted false request =
        get_response (record request {
          universe_key = first_key request.universe_host_key request.universe_key;
        })

    abbrev pub run_route : Request → Option Route → Scoped (Site W) (Response W)
    run_route request none s =
        unrouted (enforce_scoped_api && requires_world_route request.path_info) request s
    run_route request (some route) s =
        if conflicting request.universe_host_key route.universe_key
        then (ok (error_response universe_host_path_conflict 400), s)
        else run_resolved request
            (resolve_world_runtime s.rows.registry route.world_key request.user
              (first_key route.universe_key request.universe_host_key))
            s

    -- WorldRouteMiddleware.__call__ once the host name has been read.
    unfoldable pub handle : Request → Scoped (Site W) (Response W)
    unfolding match_route requires_world_route in_scope scope_streaming_response
        runtime_schema_ready is_runtime_control
    handle request = run_route request (match_route request.path_info)

    -- WorldRouteMiddleware.__call__. The host name of the request and the settings give the Universe.
    unfoldable pub call_middleware :
        TextLibrary
        → (enabled : Bool) (domains : List Text) → (hostname : Text) → Request
        → Scoped (Site W) (Response W)
    unfolding handle universe_key_from_hostname request_hostname
    call_middleware lib enabled domains hostname request = handle (record request {
      universe_host_key =
          universe_key_from_hostname lib enabled domains (request_hostname lib hostname);
    })
