-- ===== src/Gc/Selection.antt =====
-- What the garbage collection may take, and what it leaves.
use konnaxion_worlds.Base.{
  ℕ, suc, ◌+◌, ◌≤◌, ◌≡◌, ◌≢◌, ◌⊎◌, inl, inr, refl, true, not, some, find, is_id, ==_refl, In-any,
  Bool-cases, false, ◌&&◌, List, [], ◌∷◌, In, In-keep, keep, arith, if◌then◌else◌, ◌==◌,
}
use konnaxion_worlds.Models.{
  World, WorldRelease, ReleaseStatus, JobStatus, WorldBuildJob, is_in_progress, is_terminal,
}
use konnaxion_worlds.Purge.{Accounts, purge_release}
use konnaxion_worlds.Purge.Effect.{purge_release-IsConsistent}
use konnaxion_worlds.Releases.Consistency.{IsConsistent}
use konnaxion_worlds.Store.{Store, world_id_of}
use konnaxion_worlds.Gc.{
  Options, selected, is_served, has_active_job, count, candidates, gc_candidates, is_frozen,
  is_failed, include_failed, purge_all,
}

module _ (options : Options) (worlds : List World) (jobs : List WorldBuildJob) where
  -- A row that the loop lets through.
  abbrev pub IsCandidate : WorldRelease → Type 0
  IsCandidate r =
      (is_served worlds r ≡ false) × ((is_in_progress r.status && has_active_job jobs r) ≡ false)

  candidates_lem :
      (seen : List ℕ) (rows : List WorldRelease) (r : WorldRelease)
      → In r (candidates options worlds jobs seen rows)
      → In r rows × IsCandidate r
  unfolding candidates
  candidates_lem seen [] r m = elim m [ ]
  candidates_lem seen (x ∷ xs) r m =
      ground (arith, candidates_lem seen xs r, candidates_lem (x.world_id ∷ seen) xs r)

-- The frozen releases of a World among the rows.
abbrev pub frozen_rows : (world_id : ℕ) → List WorldRelease → ℕ
frozen_rows w [] = 0
frozen_rows w (r ∷ rs) =
    let rest = frozen_rows w rs in if r.world_id == w && is_frozen r.status then suc rest else rest

frozen_kept :
    (options : Options) (worlds : List World) (jobs : List WorldBuildJob) (w : ℕ) (seen : List ℕ)
    (rows : List WorldRelease) (r : WorldRelease)
    → (options.keep_frozen == 0) ≡ false
    → count w seen + frozen_rows w rows ≤ options.keep_frozen
    → r.world_id ≡ w
    → In r (candidates options worlds jobs seen rows)
    → is_frozen r.status ≡ false
unfolding candidates count
frozen_kept options worlds jobs w seen [] r some_kept few own m = elim m [ ]
frozen_kept options worlds jobs w seen (x ∷ xs) r some_kept few own m = ground (
  arith,
  frozen_kept options worlds jobs w seen xs r,
  frozen_kept options worlds jobs w (x.world_id ∷ seen) xs r,
)

-- What the flags ask for: FAILED releases with --failed, or where there is no flag, FROZEN ones with
-- --frozen, and BUILDING and VALIDATING ones with --incomplete.
abbrev pub Asked : Options → WorldRelease → Type 0
Asked options r =
    ((r.status ≡ ReleaseStatus.failed)
      × ((options.failed ≡ true) ⊎ ((options.frozen ≡ false) × (options.incomplete ≡ false))))
    ⊎ ((r.status ≡ ReleaseStatus.frozen) × (options.frozen ≡ true))
    ⊎ ((is_in_progress r.status ≡ true) × (options.incomplete ≡ true))

-- A release that may go: its World serves another one or none, and while it is BUILDING or VALIDATING
-- all jobs for it are READY or FAILED.
abbrev pub Collectable : Options → List World → List WorldBuildJob → WorldRelease → Type 0
Collectable options worlds jobs r =
    Asked options r
    × ((w : World) → find world_id_of r.world_id worlds ≡ some w → w.current_release_id ≢ some r.id)
    × ((j : WorldBuildJob)
        → In j jobs
        → j.release_id ≡ some r.id
        → (r.status ≡ ReleaseStatus.building) ⊎ (r.status ≡ ReleaseStatus.validating)
        → (j.status ≡ JobStatus.ready) ⊎ (j.status ≡ JobStatus.failed))

failed_status : (x : ReleaseStatus) → is_failed x ≡ true → x ≡ ReleaseStatus.failed
failed_status x h = ground (arith, h)

frozen_status : (x : ReleaseStatus) → is_frozen x ≡ true → x ≡ ReleaseStatus.frozen
frozen_status x h = ground (arith, h)

done_status :
    (x : JobStatus) → is_terminal x ≡ true → (x ≡ JobStatus.ready) ⊎ (x ≡ JobStatus.failed)
done_status x h = ground (arith, h)

selected-Asked :
    (options : Options) (r : WorldRelease) → selected options r ≡ true → Asked options r
unfolding selected include_failed
selected-Asked options r h = ground (arith, h, failed_status r.status, frozen_status r.status)

unserved_row :
    (worlds : List World) (r : WorldRelease) (w : World)
    → is_served worlds r ≡ false
    → find world_id_of r.world_id worlds ≡ some w
    → w.current_release_id ≢ some r.id
unfolding is_served
unserved_row worlds r w h e pointer = absurd (ground (arith, rw e at h, pointer, ==_refl r.id))

settled_job :
    (jobs : List WorldBuildJob) (r : WorldRelease) (j : WorldBuildJob)
    → has_active_job jobs r ≡ false
    → In j jobs
    → j.release_id ≡ some r.id
    → is_terminal j.status ≡ true
unfolding has_active_job
settled_job jobs r j h m own = elim (Bool-cases (is_terminal j.status)) [
  | inl t ↦ t
  | inr f ↦
      let active =
        In-any (λ (x : WorldBuildJob). is_id x.release_id r.id && not (is_terminal x.status)) j jobs
          m (ground (arith, own, f, ==_refl r.id)) in
      absurd (cc (active, h))
]

-- A release that the garbage collection picks is a row, in a state that the flags ask for; its World does
-- not serve it; and where it is BUILDING or VALIDATING, every job for it is READY or FAILED.
pub gc_candidates_lem :
    (options : Options) (worlds : List World) (jobs : List WorldBuildJob)
    (releases : List WorldRelease) (r : WorldRelease)
    → In r (gc_candidates options worlds jobs releases)
    → In r releases × Collectable options worlds jobs r
unfolding gc_candidates
gc_candidates_lem options worlds jobs releases r m =
    let (kept, (free, idle)) =
      candidates_lem options worlds jobs [] (keep (selected options) releases) r m in
    let (row, asked) = (In-keep (selected options) r releases).0 kept in
    (
      row,
      (
        selected-Asked options r asked,
        (λ w e. unserved_row worlds r w free e),
        (λ j n own now.
            done_status j.status (settled_job jobs r j (ground (arith, idle, now)) n own)),
      ),
    )

-- A run over any list of releases in a store with consistent pointers leaves them consistent,
-- whatever purges are refused on the way.
pub purge_all-IsConsistent :
    (accounts : Accounts) (releases : List WorldRelease) (s : Store)
    → IsConsistent s
    → IsConsistent (purge_all accounts releases s).1
unfolding purge_all
purge_all-IsConsistent accounts [] s v = v
purge_all-IsConsistent accounts (r ∷ rs) s v =
    purge_all-IsConsistent accounts rs (purge_release accounts r s).1
      (purge_release-IsConsistent accounts r s v)

-- With --keep-frozen N, a World with at most N frozen releases among the rows that match loses none
-- of them.
pub gc_keeps_frozen :
    (options : Options) (worlds : List World) (jobs : List WorldBuildJob)
    (releases : List WorldRelease) (r : WorldRelease)
    → (options.keep_frozen == 0) ≡ false
    → frozen_rows r.world_id (keep (selected options) releases) ≤ options.keep_frozen
    → In r (gc_candidates options worlds jobs releases)
    → is_frozen r.status ≡ false
unfolding gc_candidates count
gc_keeps_frozen options worlds jobs releases r some_kept few m =
    frozen_kept options worlds jobs r.world_id [] (keep (selected options) releases) r some_kept
      (omega (arith, few)) refl m
