-- ===== src/Samples.antt =====
-- A small installation that the tests run on: one World with a CURRENT release and a READY one.
use konnaxion_worlds.Base.{
  ℕ, ◌≡◌, refl, ap, sym, ◌∙◌, subst, false, none, some, [], ◌∷◌, codes, inl, inr, find, from_option,
}
use konnaxion_worlds.Models.{
  World, WorldRelease, WorldPersona, WorldPersonaBridge, Lifecycle, Visibility, ReleaseStatus,
}
use konnaxion_worlds.Plane.{
  Host, Plane, SchemaState, SchemaKind, domain, auxiliary, schema_kind, schema_contract_version,
}
use konnaxion_worlds.Store.{Store, release_id_of}
use konnaxion_worlds.Releases.Consistency.{IsConsistent}

-- The digest keeps its text, so that fingerprints can be read.
abbrev pub host : Host
host = record {
  digest = λ s. s;
  control_schema = codes "public";
  global_tables = codes "users_user" ∷ [];
  expected_tables = λ kind. codes "debate" ∷ [];
  migration_apps = λ kind. codes "ethikos" ∷ [];
  leaf_migrations = λ kind. (codes "ethikos", codes "0001") ∷ [];
  canonical_fixture_checksum = codes "fx";
  promotion_audit_failure = none;
}

abbrev pub alpha : World
alpha = record {
  id = 10;
  universe_id = 1;
  key = codes "alpha";
  title = codes "Alpha";
  status = Lifecycle.active;
  visibility = Visibility.public;
  current_release_id = some 7;
  created_by_id = none;
}

abbrev pub first_release : WorldRelease
first_release = record {
  id = 7;
  world_id = 10;
  release_number = 1;
  status = ReleaseStatus.current;
  domain_schema = codes "d1";
  ekoh_schema = codes "e1";
  seed_pack_key = codes "alpha";
  seed_version = codes "1.0.0";
  seed_checksum = codes "cs";
  domain_migration_fingerprint = codes "ethikos:0001";
  ekoh_migration_fingerprint = codes "ethikos:0001";
  fixture_checksum = codes "fx";
  build_started_at = some 1;
  build_finished_at = some 2;
  promoted_at = some 3;
  is_dirty = false;
  dirty_since = none;
  parent_release_id = none;
  build_reason = codes "seed_build";
}

abbrev pub second_release : WorldRelease
second_release = record first_release {
  id = 8;
  release_number = 2;
  status = ReleaseStatus.ready;
  domain_schema = codes "d2";
  ekoh_schema = codes "e2";
  promoted_at = none;
  parent_release_id = some 7;
}

abbrev pub schema_of : (release_id : ℕ) → SchemaKind → SchemaState
schema_of release_id kind = record {
  canary = some (record {
    world_id = 10;
    release_id = release_id;
    schema_kind = schema_kind kind;
    contract_version = schema_contract_version;
    seed_checksum = codes "cs";
    migration_fingerprint = codes "ethikos:0001";
  });
  tables = codes "debate" ∷ [];
  migrations = (codes "ethikos", codes "0001") ∷ [];
  foreign_keys =
      record {
        child_table = codes "debate";
        parent_schema = codes "public";
        parent_table = codes "users_user";
      }
      ∷ [];
}

abbrev pub plane : Plane
plane =
    (codes "d1", schema_of 7 domain)
    ∷ (codes "e1", schema_of 7 auxiliary)
    ∷ (codes "d2", schema_of 8 domain)
    ∷ (codes "e2", schema_of 8 auxiliary)
    ∷ []

abbrev pub persona : WorldPersona
persona = record {
  id = 4;
  world_id = 10;
  source_key = codes "ada";
  bridge_user_id = some 31;
  display_name = codes "Ada";
}

abbrev pub bridge : WorldPersonaBridge
bridge = record {
  persona_id = 4;
  release_id = 8;
  bridge_user_id = 32;
  display_name = codes "Ada L.";
}

abbrev pub installation : Store
installation = record {
  worlds = alpha ∷ [];
  releases = first_release ∷ second_release ∷ [];
  personas = persona ∷ [];
  bridges = bridge ∷ [];
  snapshots = [];
  publications = [];
  audit_events = [];
  plane = plane;
  next_release_id = 9;
}

pub consistent : IsConsistent installation
unfolding find
consistent = record {
  pointed = λ w i m e. elim m [
    | inl here ↦ (
      first_release,
      subst (λ j. find release_id_of j installation.releases ≡ some first_release)
          (ap (from_option 0) (ap (λ (x : World). x.current_release_id) here ∙ e)) refl,
      ap (λ (x : World). x.id) here,
      refl,
    )
    | inr nowhere ↦ elim nowhere [ ]
  ];
  marked = λ w r m n own cur. elim m [
    | inl here ↦ elim n [
      | inl this ↦
          sym (ap (λ (x : World). x.current_release_id) here)
          ∙ ap (λ (x : WorldRelease). some x.id) this
      | inr (inl this) ↦ absurd (cc (cur, ap (λ (x : WorldRelease). x.status) this))
      | inr (inr nowhere) ↦ elim nowhere [ ]
    ]
    | inr nowhere ↦ elim nowhere [ ]
  ];
}
