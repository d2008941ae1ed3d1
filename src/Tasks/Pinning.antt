-- ===== src/Tasks/Pinning.antt =====
-- Which release a task runs on, and what it is refused for.
use konnaxion_worlds.Base.{
  ℕ, ◌≡◌, ◌≢◌, Bool, true, some, In, find, find-In, arith, Option-cases, inl, inr,
}
use konnaxion_worlds.Base.Exec.{ok}
use konnaxion_worlds.Models.{WorldRelease, is_current}
use konnaxion_worlds.Access.{Registry}
use konnaxion_worlds.Store.{release_id_of}
use konnaxion_worlds.Tasks.{
  is_pinned_status, validate_task_ids, named_release, points_to, get_task_release,
  locked_task_release,
}

module _ (db : Registry) (world_id release_id : ℕ) (require_current : Bool) where
  -- The read of get_task_release and the locked read of world_release_scope accept the same releases and
  -- refuse with the same error, where neither number is 0.
  pub task_release_agree :
      world_id ≢ 0
      → release_id ≢ 0
      → get_task_release db (some world_id) (some release_id) require_current
        ≡ locked_task_release db world_id release_id require_current
  unfolding get_task_release locked_task_release validate_task_ids named_release
  task_release_agree w r = elim (Option-cases (find release_id_of release_id db.releases)) [
    | inl e ↦ ground (arith, w, r, e)
    | inr (release, e) ↦
        ground (arith, w, r, e, find-In release_id_of release_id db.releases {r = release})
  ]

-- The release that a task may run on.
pub record IsAdmitted (db : Registry) (world_id release_id : ℕ) (require_current : Bool)
    (release : WorldRelease) : Type 0 where
  pub listed : In release db.releases
  pub exact : (release.id ≡ release_id) × (release.world_id ≡ world_id)
  pub runnable : is_pinned_status release.status ≡ true
  pub at_pointer :
      require_current ≡ true
      → (is_current release.status ≡ true) × (points_to db world_id release_id ≡ true)

module _ (db : Registry) (world_id release_id : ℕ) (require_current : Bool)
    (release : WorldRelease) where
  accepted :
      locked_task_release db world_id release_id require_current ≡ ok release
      → (find release_id_of release_id db.releases ≡ some release)
        × (release.world_id ≡ world_id)
        × (is_pinned_status release.status ≡ true)
        × (require_current ≡ true
            → (is_current release.status ≡ true) × (points_to db world_id release_id ≡ true))
  unfolding locked_task_release named_release
  accepted h = elim (Option-cases (find release_id_of release_id db.releases)) [
    | inl e ↦ absurd (ground (arith, h, e))
    | inr (found, e) ↦ ground (arith, h, e)
  ]

  -- The release that world_release_scope runs a task on is the one with the given number, belongs to the
  -- given World, and is READY, CURRENT or FROZEN; where the current release is required, it is
  -- CURRENT and the World points to it.
  pub locked_task_release-IsAdmitted :
      locked_task_release db world_id release_id require_current ≡ ok release
      → IsAdmitted db world_id release_id require_current release
  locked_task_release-IsAdmitted h =
      let facts = accepted h in
      let row = find-In release_id_of release_id db.releases facts.0 in
      record { listed = row.0; exact = (row.1, facts.1); runnable = facts.2; at_pointer = facts.3 }
