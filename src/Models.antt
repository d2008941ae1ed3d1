-- ===== src/Models.antt =====
-- backend/konnaxion/worlds/models.py: the rows of the control plane. Columns that no modelled code
-- reads or writes (descriptions, free-form metadata, creation times) are left out; times are
-- numbers, a nullable column is an Option, and a foreign key is the number of the row it names.
use konnaxion_worlds.Base.{ℕ, Bool, true, false, Option, Text}

-- Universe and World have the same three states and the same two visibilities.
pub data Lifecycle : Type 0 where
  active maintenance archived : Lifecycle

pub data Visibility : Type 0 where
  public private : Visibility

pub record Universe : Type 0 where
  pub id : ℕ
  pub key : Text
  pub title : Text
  pub status : Lifecycle
  pub visibility : Visibility
  pub default_world_id : Option ℕ
  pub created_by_id : Option ℕ

pub data UniverseRole : Type 0 where
  owner maintainer member viewer : UniverseRole

pub record UniverseMembership : Type 0 where
  pub universe_id : ℕ
  pub user_id : ℕ
  pub role : UniverseRole
  pub is_active : Bool

pub record World : Type 0 where
  pub id : ℕ
  pub universe_id : ℕ
  pub key : Text
  pub title : Text
  pub status : Lifecycle
  pub visibility : Visibility
  pub current_release_id : Option ℕ
  pub created_by_id : Option ℕ

pub data WorldRole : Type 0 where
  owner maintainer presenter member viewer : WorldRole

pub record WorldMembership : Type 0 where
  pub world_id : ℕ
  pub user_id : ℕ
  pub role : WorldRole
  pub is_active : Bool

pub data ReleaseStatus : Type 0 where
  building validating ready current frozen failed archived : ReleaseStatus

pub record WorldRelease : Type 0 where
  pub id : ℕ
  pub world_id : ℕ
  pub release_number : ℕ
  pub status : ReleaseStatus
  pub domain_schema : Text
  pub ekoh_schema : Text
  pub seed_pack_key : Text
  pub seed_version : Text
  pub seed_checksum : Text
  pub domain_migration_fingerprint : Text
  pub ekoh_migration_fingerprint : Text
  pub fixture_checksum : Text
  pub build_started_at : Option ℕ
  pub build_finished_at : Option ℕ
  pub promoted_at : Option ℕ
  pub is_dirty : Bool
  pub dirty_since : Option ℕ
  pub parent_release_id : Option ℕ
  pub build_reason : Text

pub record WorldPersona : Type 0 where
  pub id : ℕ
  pub world_id : ℕ
  pub source_key : Text
  pub bridge_user_id : Option ℕ
  pub display_name : Text

pub record WorldPersonaBridge : Type 0 where
  pub persona_id : ℕ
  pub release_id : ℕ
  pub bridge_user_id : ℕ
  pub display_name : Text

pub record WorldSnapshot : Type 0 where
  pub id : ℕ
  pub world_id : ℕ
  pub source_release_id : ℕ
  pub frozen_release_id : Option ℕ

pub record WorldPublication : Type 0 where
  pub id : ℕ
  pub source_world_id : ℕ
  pub source_release_id : Option ℕ

pub data JobStatus : Type 0 where
  queued building validating ready failed : JobStatus

-- WorldBuildJob. The expected checksum is the entry seed_checksum of its metadata, empty if missing.
pub record WorldBuildJob : Type 0 where
  pub id : ℕ
  pub world_id : ℕ
  pub release_id : Option ℕ
  pub seed_pack_key : Text
  pub seed_version : Text
  pub promote_after_build : Bool
  pub status : JobStatus
  pub celery_task_id : Text
  pub concurrency_slot : Option ℕ
  pub attempts : ℕ
  pub expected_checksum : Text
  pub error : Bool
  pub started_at : Option ℕ
  pub finished_at : Option ℕ

-- The authenticated principal of a request, of the host's user model.
pub record User : Type 0 where
  pub id : ℕ
  pub is_authenticated : Bool
  pub is_staff : Bool
  pub is_superuser : Bool

abbrev pub is_archived : Lifecycle → Bool
is_archived Lifecycle.archived = true
is_archived _ = false

abbrev pub is_maintenance : Lifecycle → Bool
is_maintenance Lifecycle.maintenance = true
is_maintenance _ = false

abbrev pub is_public : Visibility → Bool
is_public Visibility.public = true
is_public Visibility.private = false

abbrev pub is_active : Lifecycle → Bool
is_active Lifecycle.active = true
is_active _ = false

abbrev pub is_current : ReleaseStatus → Bool
is_current ReleaseStatus.current = true
is_current _ = false

abbrev pub is_ready : ReleaseStatus → Bool
is_ready ReleaseStatus.ready = true
is_ready _ = false

-- status in TERMINAL_STATUSES
abbrev pub is_terminal : JobStatus → Bool
is_terminal JobStatus.ready = true
is_terminal JobStatus.failed = true
is_terminal _ = false

abbrev pub is_queued : JobStatus → Bool
is_queued JobStatus.queued = true
is_queued _ = false

-- status in {BUILDING, VALIDATING}
abbrev pub is_in_progress : ReleaseStatus → Bool
is_in_progress ReleaseStatus.building = true
is_in_progress ReleaseStatus.validating = true
is_in_progress _ = false
