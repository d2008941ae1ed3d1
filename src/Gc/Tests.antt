-- ===== src/Gc/Tests.antt =====
-- A garbage collection over the releases of the sample installation.
use konnaxion_worlds.Base.{
  ◌≡◌, ◌≤◌, arith, refl, inl, true, false, none, List, [], ◌∷◌, In, keep, find, any,
}
use konnaxion_worlds.Models.{WorldRelease, ReleaseStatus}
use konnaxion_worlds.Purge.{Accounts}
use konnaxion_worlds.Gc.{
  Options, include_failed, selected, is_served, has_active_job, count, candidates, gc_candidates,
}
use konnaxion_worlds.Gc.Selection.{Collectable, gc_candidates_lem, frozen_rows}
use konnaxion_worlds.Samples.{alpha, first_release, second_release}

abbrev options : Options
options = record { failed = true; frozen = true; incomplete = false; keep_frozen = 0 }

abbrev old_release : WorldRelease
old_release = record second_release { id = 5; status = ReleaseStatus.frozen }

abbrev rows : List WorldRelease
rows = first_release ∷ old_release ∷ []

picked : gc_candidates options (alpha ∷ []) [] rows ≡ old_release ∷ []
unfolding gc_candidates candidates selected include_failed is_served has_active_job count keep find
    any
picked = refl

listed : In old_release (gc_candidates options (alpha ∷ []) [] rows)
unfolding gc_candidates candidates selected include_failed is_served has_active_job count keep find
    any
listed = inl refl

picked_example : In old_release rows × Collectable options (alpha ∷ []) [] old_release
picked_example = gc_candidates_lem options (alpha ∷ []) [] rows old_release listed

abbrev accounts : Accounts
accounts = record { eligible = λ i. true; delete_users = λ is. none; audit_failure = none }

abbrev keeping : Options
keeping = record options { keep_frozen = 1 }

abbrev broken_release : WorldRelease
broken_release = record second_release { id = 6; status = ReleaseStatus.failed }

abbrev more_rows : List WorldRelease
more_rows = old_release ∷ broken_release ∷ []

listed_broken : In broken_release (gc_candidates keeping (alpha ∷ []) [] more_rows)
unfolding gc_candidates candidates selected include_failed is_served has_active_job count keep find
    any
listed_broken = inl refl

few_frozen : frozen_rows 10 (keep (selected keeping) more_rows) ≤ 1
unfolding selected include_failed keep
few_frozen = omega arith
