-- ===== src/Middleware/Tests.antt =====
-- Requests to the sample World.
use konnaxion_worlds.Base.{
  ℕ, ◌≡◌, ◌≢◌, refl, Bool, true, false, Option, none, some, [], ◌∷◌, codes, text_eq, any, keep,
  find, map, if◌then◌else◌, arith,
}
use konnaxion_worlds.Base.Exec.{ok}
use konnaxion_worlds.Base.Regex.{take, strip, lstrip, rstrip}
use konnaxion_worlds.Models.{WorldRelease, Universe, Lifecycle, Visibility}
use konnaxion_worlds.Access.{
  Registry, resolve_world_runtime, runtime_for_world, select_world, joined_release,
  can_access_world, can_access_universe, pin_release,
}
use konnaxion_worlds.Samples.{host, alpha, first_release}
use konnaxion_worlds.Scope.{Session, Scoped, world_db_scope}
use konnaxion_worlds.Naming.{validate_schema_name}
use konnaxion_worlds.Namespaces.{split_slash}
use konnaxion_worlds.Middleware.{
  Route, is_key, match_route, starts_with, drop, ends_with, key_under, requires_world_route,
}
use konnaxion_worlds.Middleware.Handling.{
  Site, Request, Response, content, error_response, world_required, handle, in_scope, mark_dirty,
  should_mark_dirty, load_view_as, is_runtime_control, runtime_schema_ready,
  scope_streaming_response,
}
use konnaxion_worlds.Middleware.Routes.{match_route-keys}
use konnaxion_worlds.Middleware.Guarding.{handle-IsAllowed}

abbrev town : Universe
town = record {
  id = 1;
  key = codes "levis";
  title = codes "Levis";
  status = Lifecycle.active;
  visibility = Visibility.public;
  default_world_id = some 10;
  created_by_id = none;
}

abbrev release : WorldRelease
release = record first_release {
  domain_schema = codes "kx_w_a_r1";
  ekoh_schema = codes "kx_e_a_r1";
}

abbrev catalog : Registry
catalog = record {
  universes = town ∷ [];
  worlds = alpha ∷ [];
  releases = release ∷ [];
  universe_memberships = [];
  world_memberships = [];
}

abbrev session : Session (Site ℕ)
session = record {
  current_world_runtime = none;
  search_path = none;
  in_transaction = false;
  rows = record { registry = catalog; bridges = []; plane = []; world_rows = 3 };
}

abbrev request : Request
request = record {
  path_info = codes "/api/u/levis/w/alpha/ethikos/";
  is_safe_method = false;
  user = none;
  view_as = none;
  universe_host_key = none;
  universe_key = none;
  world_runtime = none;
  world_persona_bridge = none;
}

abbrev route : Route
route = record { universe_key = some (codes "levis"); world_key = codes "alpha" }

abbrev answer : ℕ → Response ℕ
answer status = record { status_code = status; body = content; headers = none }

abbrev view : Request → Scoped (Site ℕ) (Response ℕ)
view seen s = (ok (answer 201), s)

-- Another answer outside of a transaction.
abbrev other_view : Request → Scoped (Site ℕ) (Response ℕ)
other_view seen s = (ok (answer (if s.in_transaction then 201 else 500)), s)

abbrev ready : WorldRelease → Option Bool
ready r = some true

program : Unit {0}
unfolding is_key match_route split_slash starts_with drop ends_with key_under requires_world_route
    text_eq any keep find take strip lstrip rstrip handle in_scope mark_dirty should_mark_dirty
    load_view_as is_runtime_control runtime_schema_ready scope_streaming_response error_response
    world_db_scope validate_schema_name resolve_world_runtime runtime_for_world select_world
    joined_release can_access_world can_access_universe pin_release
program = tt

routed : match_route request.path_info ≡ some route
unfolding program
routed = refl

not_api_prefix : requires_world_route (codes "/api/projects-old/") ≡ false
unfolding program
not_api_prefix = refl

unscoped_refused :
    handle host 50 ready true view (record request { path_info = codes "/api/projects/" }) session
    ≡ (ok (error_response world_required 400), session)
unfolding program
unscoped_refused = refl

-- The release is marked as changed.
marked_dirty :
    map
      (λ (r : WorldRelease). r.is_dirty)
      (handle host 50 ready true view request session).1.rows.registry.releases
    ≡ true ∷ []
unfolding program
marked_dirty = refl

allowed_example :
    handle host 50 ready true view request session
    ≡ handle host 50 ready true other_view request session
allowed_example =
    handle-IsAllowed host 50 ready true view other_view request session refl route routed
      (λ runtime seen allowed. refl)

key_levis : is_key (codes "levis") ≡ true
unfolding program
key_levis = refl

key_alpha : is_key (codes "alpha") ≡ true
unfolding program
key_alpha = refl

keys_example :
    (match_route (codes "/api/u/levis/w/alpha/ethikos/")
      ≡ some (record { universe_key = some (codes "levis"); world_key = codes "alpha" }))
    × (match_route (codes "/api/u/levis/w/alpha")
        ≡ some (record { universe_key = some (codes "levis"); world_key = codes "alpha" }))
keys_example =
    match_route-keys (codes "levis") (codes "alpha") (codes "ethikos/") key_levis key_alpha

not_www : codes "levis" ≢ codes "www"
not_www e = ground (arith, e)
