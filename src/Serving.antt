-- ===== src/Serving.antt =====
-- The control plane from the outside, as the services of backend/konnaxion/worlds/services/builder.py
-- change it: which release every World serves.
pub mod Services
pub mod Tests
use konnaxion_worlds.Base.{ℕ, ◌≡◌, ◌⊎◌, Option, none, some, find, if◌then◌else◌, ◌==◌}
use konnaxion_worlds.Base.Exec.{Result, ok, err}
use konnaxion_worlds.Models.{World}
use konnaxion_worlds.Store.{Store, Failure, world_id_of, host_error}

abbrev pub pointer_of : Option World → Option ℕ
pointer_of none = none
pointer_of (some w) = w.current_release_id

-- The abstract state: a release for a World, where it serves one.
abbrev pub serving : Store → ℕ → Option ℕ
serving s k = pointer_of (find world_id_of k s.worlds)

-- The abstract promotion: one World serves another release.
abbrev pub Moves : (world_id release_id : ℕ) → (before after : ℕ → Option ℕ) → Type 0
Moves world_id release_id before after =
    (k : ℕ) → after k ≡ (if world_id == k then some release_id else before k)

-- What a promotion does to the abstract state, by its result and by what the audit behind it raises.
abbrev pub Switches :
    (audit_failure : Option ℕ)
    → {A : Type 0} → Result Failure A
    → (world_id release_id : ℕ) → (before after : ℕ → Option ℕ) → Type 0
Switches audit_failure (ok a) world_id release_id before after =
    Moves world_id release_id before after
Switches audit_failure (err e) world_id release_id before after =
    ((k : ℕ) → after k ≡ before k)
    ⊎ ((code : ℕ) × (audit_failure ≡ some code)
        × (e ≡ host_error code)
        × Moves world_id release_id before after)
