-- ===== src/Purge.antt =====
-- backend/konnaxion/worlds/services/builder.py, purge_release: a release and its two schemas go.
pub mod Cascade
pub mod Effect
pub mod Tests
use konnaxion_worlds.Base.{
  ℕ, Bool, true, false, not, ◌&&◌, ◌||◌, Option, none, some, List, [], ◌∷◌, ◌++◌, length, remove,
  any, keep, map, is_id, if◌then◌else◌, ◌==◌,
}
use konnaxion_worlds.Base.Exec.{Result, ok, err, pure, raise, atomic, ◌>>=◌, ◌>>◌}
use konnaxion_worlds.Models.{
  World, WorldRelease, WorldPersona, WorldPersonaBridge, WorldSnapshot, WorldPublication,
}
use konnaxion_worlds.Plane.{drop_schema}
use konnaxion_worlds.Store.{
  Store, Act, Failure, WorldAuditEvent, purges_current_release, retained_by_snapshot,
  retained_by_object, release_purged, get_world, get_release_of, release_id_of, audit,
}

-- target.source_snapshots.exists() or target.frozen_snapshots.exists()
unfoldable pub retains : ℕ → WorldSnapshot → Bool
retains i snapshot = snapshot.source_release_id == i || is_id snapshot.frozen_release_id i

abbrev pub publishes : ℕ → WorldPublication → Bool
publishes i publication = is_id publication.source_release_id i

-- The foreign keys on WorldRelease with on_delete=SET_NULL.
abbrev pub forget_parent : ℕ → WorldRelease → WorldRelease
forget_parent i r = if is_id r.parent_release_id i then record r { parent_release_id = none } else r

abbrev pub forget_current : ℕ → World → World
forget_current i w =
    if is_id w.current_release_id i then record w { current_release_id = none } else w

abbrev pub forget_event : ℕ → WorldAuditEvent → WorldAuditEvent
forget_event i e = if is_id e.release_id i then record e { release_id = none } else e

-- target.delete(): the PROTECT keys refuse it; the bridges CASCADE.
unfoldable pub delete_release : ℕ → Act Unit
unfolding retains
delete_release i s =
    if any (retains i) s.snapshots || any (publishes i) s.publications
    then (err retained_by_object, s)
    else (
      ok tt,
      record s {
        worlds = map (forget_current i) s.worlds;
        releases = map (forget_parent i) (remove release_id_of i s.releases);
        bridges = keep (λ b. not (b.release_id == i)) s.bridges;
        audit_events = map (forget_event i) s.audit_events;
      },
    )

unfoldable pub bridge_user_ids : ℕ → Store → List ℕ
bridge_user_ids i s = map (λ b. b.bridge_user_id) (keep (λ b. b.release_id == i) s.bridges)

unfoldable pub drop_schemas : WorldRelease → Act Unit
drop_schemas target s = (
  ok tt,
  record s { plane = drop_schema target.domain_schema (drop_schema target.ekoh_schema s.plane) },
)

-- The transaction of purge_release. Its result is what the housekeeping after the commit reads.
unfoldable pub purge_target : World → WorldRelease → Act (World × List ℕ)
unfolding bridge_user_ids drop_schemas delete_release
purge_target world target =
    if is_id world.current_release_id target.id then raise purges_current_release else do
      snapshots ← λ s. (ok s.snapshots, s)
      user_ids ← λ s. (ok (bridge_user_ids target.id s), s)
      if any (retains target.id) snapshots then raise retained_by_snapshot else drop_schemas target
      delete_release target.id
      pure (world, user_ids)

unfoldable pub purge_locked : WorldRelease → Act (World × List ℕ)
unfolding purge_target
purge_locked release = do
  world ← get_world release.world_id
  target ← get_release_of world.id release.id
  purge_target world target

-- The host's accounts: which of them a cleanup may delete (neither staff nor superuser, and a klone
-- where the model has that field), and what deleting them, and writing the audit row, may raise.
pub record Accounts : Type 0 where
  pub eligible : ℕ → Bool
  pub delete_users : List ℕ → Option Failure
  pub audit_failure : Option Failure

-- set(user_ids)
unfoldable pub distinct : List ℕ → List ℕ
distinct [] = []
distinct (i ∷ is) = let rest = distinct is in if any (λ j. j == i) rest then rest else i ∷ rest

-- services/personas.py: accounts that no bridge and no persona refers to.
unfoldable pub orphans : Accounts → List ℕ → Store → List ℕ
unfolding distinct
orphans accounts user_ids s =
    keep
      (λ i.
        not (any (λ b. b.bridge_user_id == i) s.bridges)
        && (not (any (λ p. is_id p.bridge_user_id i) s.personas) && accounts.eligible i))
      (distinct user_ids)

unfoldable pub cleanup_orphan_bridge_users : Accounts → List ℕ → Store → Result Failure ℕ
unfolding orphans
cleanup_orphan_bridge_users accounts user_ids s = delete (orphans accounts user_ids s)
  where
    refuse : Option Failure → ℕ → Result Failure ℕ
    refuse none count = ok count
    refuse (some e) count = err e

    delete : List ℕ → Result Failure ℕ
    delete [] = ok 0
    delete (i ∷ is) = refuse (accounts.delete_users (i ∷ is)) (length (i ∷ is))

pub record Purged : Type 0 where
  pub bridge_users_cleaned : ℕ
  pub warnings : List Failure

-- Best effort: what fails here is a warning, since the purge has been committed.
unfoldable pub housekeeping : Accounts → World × List ℕ → Act Purged
unfolding cleanup_orphan_bridge_users audit
housekeeping accounts (world, user_ids) s =
    record_event accounts.audit_failure (cleaned (cleanup_orphan_bridge_users accounts user_ids s))
  where
    cleaned : Result Failure ℕ → Purged
    cleaned (ok count) = record { bridge_users_cleaned = count; warnings = [] }
    cleaned (err e) = record { bridge_users_cleaned = 0; warnings = e ∷ [] }

    record_event : Option Failure → Purged → Result Failure Purged × Store
    record_event none purged = (ok purged, (audit release_purged world.id none s).1)
    record_event (some e) purged = (ok (record purged { warnings = purged.warnings ++ e ∷ [] }), s)

unfoldable pub purge_release : Accounts → WorldRelease → Act Purged
unfolding purge_locked housekeeping
purge_release accounts release = atomic (purge_locked release) >>= housekeeping accounts
