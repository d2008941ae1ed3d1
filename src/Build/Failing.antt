-- ===== src/Build/Failing.antt =====
-- A build that raises fails closed.
use konnaxion_worlds.Base.{ℕ, ◌≡◌, ◌⊎◌, some, find}
use konnaxion_worlds.Base.Exec.{Result, ok, err}
use konnaxion_worlds.Models.{WorldRelease, ReleaseStatus}
use konnaxion_worlds.Store.{Store, Failure, release_id_of}

-- After a raise the row of the release, if there is one, is FAILED, or still BUILDING.
abbrev pub Closed : ℕ → Result Failure WorldRelease × Store → Type 0
Closed i (ok r, s) = Unit
Closed i (err e, s) =
    (x : WorldRelease)
    → find release_id_of i s.releases ≡ some x
    → (x.status ≡ ReleaseStatus.failed) ⊎ (x.status ≡ ReleaseStatus.building)
