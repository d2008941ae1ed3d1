-- ===== src/Store.antt =====
-- The control plane as one store: its tables as lists of rows, the schemas of the data plane, and
-- the reads and writes that services do on them. A save that breaks a constraint of
-- backend/konnaxion/worlds/models.py raises IntegrityError.
use konnaxion_worlds.Base.{
  ℕ, Bool, true, false, not, ◌&&◌, ◌||◌, Option, none, some, List, [], ◌∷◌, ◌++◌, Text, text_eq,
  find, put, any, if◌then◌else◌, ◌==◌,
}
use konnaxion_worlds.Base.Exec.{ok, err, Exec, pure, raise}
use konnaxion_worlds.Models.{
  World, WorldRelease, ReleaseStatus, WorldPersona, WorldPersonaBridge, WorldSnapshot,
  WorldPublication, is_current,
}
use konnaxion_worlds.Plane.{Plane}

-- The exceptions that the services raise, one constructor for each place.
pub data Failure : Type 0 where
  does_not_exist integrity_error : Failure
  archived_world release_of_another_world invalid_schemas : Failure
  not_promotable : ReleaseStatus → Failure
  purges_current_release retained_by_snapshot retained_by_object : Failure
  pack_key_mismatch pack_version_mismatch bad_fixtures checksum_drift : Failure
  missing_migrations : Failure
  -- UniversePackError of services/universe_packs.py, by its cause, and ValidationError of clean()
  universe_archived world_of_another_universe validation_error : Failure
  targets_not_ready : List Text → Failure
  -- KeyError, and SeedPackError of the catalog
  missing_key pack_not_found not_enqueued : Failure
  -- raised by code of the host, or by the server
  host_error : ℕ → Failure

pub data EventType : Type 0 where
  release_build_started release_ready release_build_failed release_promoted : EventType
  release_purged : EventType
  job_interrupted job_started job_failed job_ready : EventType

pub record WorldAuditEvent : Type 0 where
  pub event_type : EventType
  pub world_id : ℕ
  pub release_id : Option ℕ

pub record Store : Type 0 where
  pub worlds : List World
  pub releases : List WorldRelease
  pub personas : List WorldPersona
  pub bridges : List WorldPersonaBridge
  pub snapshots : List WorldSnapshot
  pub publications : List WorldPublication
  pub audit_events : List WorldAuditEvent
  pub plane : Plane
  pub next_release_id : ℕ

abbrev pub Act : Type 0 → Type 0
Act A = Exec Failure Store A

abbrev pub world_id_of : World → ℕ
world_id_of w = w.id

abbrev pub release_id_of : WorldRelease → ℕ
release_id_of r = r.id

abbrev pub or_raise : {A : Type 0} → Option A → Failure → Act A
or_raise none e = raise e
or_raise (some a) e = pure a

-- World.objects.select_for_update().get(pk=i). The rows of the store are the locked rows.
unfoldable pub get_world : ℕ → Act World
get_world i s = or_raise (find world_id_of i s.worlds) does_not_exist s

unfoldable pub get_release : ℕ → Act WorldRelease
get_release i s = or_raise (find release_id_of i s.releases) does_not_exist s

abbrev owned_by : ℕ → Option WorldRelease → Option WorldRelease
owned_by w none = none
owned_by w (some r) = if r.world_id == w then some r else none

-- WorldRelease.objects.get(pk=i, world=w)
unfoldable pub get_release_of : (world_id i : ℕ) → Act WorldRelease
get_release_of w i s = or_raise (owned_by w (find release_id_of i s.releases)) does_not_exist s

-- uq_world_one_current
unfoldable pub second_current : WorldRelease → List WorldRelease → Bool
second_current r releases =
    is_current r.status
    && any (λ x. not (x.id == r.id) && (x.world_id == r.world_id && is_current x.status)) releases

-- uq_world_release_number, and the unique columns domain_schema and ekoh_schema
abbrev pub clashes : WorldRelease → WorldRelease → Bool
clashes r x =
    (x.world_id == r.world_id && x.release_number == r.release_number)
    || text_eq x.domain_schema r.domain_schema
    || text_eq x.ekoh_schema r.ekoh_schema

-- These, and ck_world_schema_distinct.
unfoldable pub breaks_uniqueness : WorldRelease → List WorldRelease → Bool
breaks_uniqueness r releases = text_eq r.domain_schema r.ekoh_schema || any (clashes r) releases

-- release.save(update_fields=["status", …]): of the constraints only uq_world_one_current reads
-- a column that the services change.
unfoldable pub save_release : WorldRelease → Act Unit
unfolding second_current
save_release r s =
    if second_current r s.releases
    then (err integrity_error, s)
    else (ok tt, record s { releases = put release_id_of r s.releases })

unfoldable pub save_world : World → Act Unit
save_world w s = (ok tt, record s { worlds = put world_id_of w s.worlds })

-- How far an except block gets that is best effort: nothing is saved, or only its row, or also the
-- event.
pub data Bookkeeping : Type 0 where
  not_saved row_saved all_saved : Bookkeeping

abbrev pub bookkept : {A : Type 0} → Bookkeeping → (before written : A) → (A → A) → A
bookkept not_saved before written record_it = before
bookkept row_saved before written record_it = written
bookkept all_saved before written record_it = record_it written

abbrev pub saves_row : Bookkeeping → Bool
saves_row not_saved = false
saves_row row_saved = true
saves_row all_saved = true

-- services/audit.py
unfoldable pub audit : EventType → (world_id : ℕ) → (release_id : Option ℕ) → Act Unit
audit event_type world_id release_id s =
    let event : WorldAuditEvent = record {
      event_type = event_type;
      world_id = world_id;
      release_id = release_id;
    } in
    (ok tt, record s { audit_events = s.audit_events ++ event ∷ [] })
