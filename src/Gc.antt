-- ===== src/Gc.antt =====
-- backend/konnaxion/worlds/management/commands/worlds_gc.py: which releases the garbage collection
-- purges, and the run that purges them. The restriction to one Universe, the order of the query, which
-- the rows come in, and the sizes are left out.
pub mod Selection
pub mod Tests
use konnaxion_worlds.Base.{
  ℕ, suc, Bool, true, false, not, ◌&&◌, ◌||◌, Option, none, some, List, [], ◌∷◌, find, any, keep,
  leb, is_id, if◌then◌else◌, ◌==◌,
}
use konnaxion_worlds.Base.Exec.{Result, ok, err}
use konnaxion_worlds.Models.{
  World, WorldRelease, ReleaseStatus, WorldBuildJob, is_in_progress, is_terminal,
}
use konnaxion_worlds.Purge.{Accounts, Purged, purge_release}
use konnaxion_worlds.Store.{Store, Failure, world_id_of}

pub record Options : Type 0 where
  pub failed : Bool
  pub frozen : Bool
  pub incomplete : Bool
  pub keep_frozen : ℕ

abbrev pub is_failed : ReleaseStatus → Bool
is_failed ReleaseStatus.failed = true
is_failed _ = false

abbrev pub is_frozen : ReleaseStatus → Bool
is_frozen ReleaseStatus.frozen = true
is_frozen _ = false

-- Without any of the three flags, --failed is meant.
unfoldable pub include_failed : Options → Bool
include_failed options = options.failed || not (options.frozen || options.incomplete)

-- status__in=statuses
unfoldable pub selected : Options → WorldRelease → Bool
unfolding include_failed
selected options r =
    (include_failed options && is_failed r.status)
    || (options.frozen && is_frozen r.status)
    || (options.incomplete && is_in_progress r.status)

abbrev current_release_of : Option World → Option ℕ
current_release_of none = none
current_release_of (some w) = w.current_release_id

-- release.world.current_release_id == release.id
unfoldable pub is_served : List World → WorldRelease → Bool
is_served worlds r = is_id (current_release_of (find world_id_of r.world_id worlds)) r.id

-- not _incomplete_is_orphaned(release)
unfoldable pub has_active_job : List WorldBuildJob → WorldRelease → Bool
has_active_job jobs r = any (λ j. is_id j.release_id r.id && not (is_terminal j.status)) jobs

-- frozen_seen[world_id]
unfoldable pub count : ℕ → List ℕ → ℕ
count w [] = 0
count w (v ∷ seen) = let rest = count w seen in if v == w then suc rest else rest

-- The loop over the rows, World by World with the newest release first.
unfoldable pub candidates :
    Options
    → List World
    → List WorldBuildJob
    → (seen : List ℕ) → List WorldRelease
    → List WorldRelease
unfolding is_served has_active_job count
candidates options worlds jobs seen [] = []
candidates options worlds jobs seen (r ∷ rs) = elim (is_served worlds r) [
  | true ↦ candidates options worlds jobs seen rs
  | false ↦ elim (is_frozen r.status && not (options.keep_frozen == 0)) [
    | true ↦ elim (leb (suc (count r.world_id seen)) options.keep_frozen) [
      | true ↦ candidates options worlds jobs (r.world_id ∷ seen) rs
      | false ↦ r ∷ candidates options worlds jobs (r.world_id ∷ seen) rs
    ]
    | false ↦ elim (is_in_progress r.status && has_active_job jobs r) [
      | true ↦ candidates options worlds jobs seen rs
      | false ↦ r ∷ candidates options worlds jobs seen rs
    ]
  ]
]

-- The rows that match the filter, in the order of the query.
unfoldable pub gc_candidates :
    Options → List World → List WorldBuildJob → List WorldRelease → List WorldRelease
unfolding candidates selected
gc_candidates options worlds jobs releases =
    candidates options worlds jobs [] (keep (selected options) releases)

-- --execute: a purge that raises is reported, and the run goes on.
abbrev pub noted : Result Failure Purged → List Failure → List Failure
noted (ok purged) failures = failures
noted (err e) failures = e ∷ failures

unfoldable pub purge_all : Accounts → List WorldRelease → Store → List Failure × Store
purge_all accounts [] s = ([], s)
purge_all accounts (r ∷ rs) s =
    let (result, s') = purge_release accounts r s in
    let (failures, s'') = purge_all accounts rs s' in (noted result failures, s'')
