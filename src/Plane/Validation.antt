-- ===== src/Plane/Validation.antt =====
-- What a release that passes validation has.
use konnaxion_worlds.Base.{
  ◌≡◌, ◌≢◌, refl, ◌⊎◌, inl, inr, Bool, true, false, not, Option, none, some, List, [], ◌∷◌, ◌++◌,
  arith, subst, ap, Text, text_eq_iff, any-In, keep, In, In-keep, Option-cases, Bool-cases,
}
use konnaxion_worlds.Models.{WorldRelease}
use konnaxion_worlds.Plane.{
  SchemaKind, domain, auxiliary, schema_kind, schema_contract_version, Canary, ForeignKey,
  Migration, SchemaState, Plane, Host, schema_state, contains, same_migration, missing_tables,
  applied_migrations, missing_leaf_migrations, migration_fingerprint, is_nil, canary_ok,
  recorded_fingerprint, escapes, fk_isolation_violations, schema_checks, fixture_checksum_ok,
  validate_release_schemas, checks_pass, canary_checked,
}

contains-In : (t : Text) (ts : List Text) → contains t ts ≡ true → In t ts
unfolding contains
contains-In t ts h = let (u, here, e) = any-In _ ts h in subst_In ((text_eq_iff u t).0 e) here
  where
    subst_In : {u : Text} → u ≡ t → In u ts → In t ts
    subst_In e m = rw (← e) m

-- One schema of the pair is complete: it carries the release's own canary, every table that the
-- engine expects of its kind, every leaf migration, and the recorded fingerprint.
pub record IsComplete (host : Host) (kind : SchemaKind) (release : WorldRelease)
    (state : SchemaState) : Type 0 where
  pub canary :
      state.canary
      ≡ some (record {
        world_id = release.world_id;
        release_id = release.id;
        schema_kind = schema_kind kind;
        contract_version = schema_contract_version;
        seed_checksum = release.seed_checksum;
        migration_fingerprint = recorded_fingerprint kind release;
      })
  pub tables : (t : Text) → In t (host.expected_tables kind) → In t state.tables
  pub migrations : (m : Migration) → In m (host.leaf_migrations kind) → In m state.migrations
  pub fingerprint : migration_fingerprint host kind state ≡ recorded_fingerprint kind release

module _ (host : Host) (release : WorldRelease) where
  canary_ok-eq :
      (kind : SchemaKind) (fp : Text) (c : Canary)
      → canary_ok kind fp release c ≡ true
      → c ≡ record {
        world_id = release.world_id;
        release_id = release.id;
        schema_kind = schema_kind kind;
        contract_version = schema_contract_version;
        seed_checksum = release.seed_checksum;
        migration_fingerprint = fp;
      }
  unfolding canary_ok
  canary_ok-eq kind fp c h = ground (
    arith,
    text_eq_iff c.contract_version schema_contract_version,
    text_eq_iff c.seed_checksum release.seed_checksum,
    text_eq_iff c.schema_kind (schema_kind kind),
    text_eq_iff c.migration_fingerprint fp,
  )

none_kept :
    {A : Type 0} (p : A → Bool) (xs : List A)
    → is_nil (keep p xs) ≡ true
    → (a : A) → In a xs
    → p a ≡ false
none_kept p xs h a m = elim (Bool-cases (p a)) [
  | inr f ↦ f
  | inl t ↦ absurd (no_member (keep p xs) h a ((In-keep p a xs).1 (m, t)))
]
  where
    no_member : {A : Type 0} (ys : List A) → is_nil ys ≡ true → (a : A) → ¬ In a ys
    no_member [] h a m = elim m [ ]
    no_member (y ∷ ys) h a m = cc

not-not : (b : Bool) → not b ≡ false → b ≡ true
not-not b h = ground arith

same_migration-eq : (a b : Migration) → same_migration a b ≡ true → a ≡ b
unfolding same_migration
same_migration-eq (app, name) (app', name') h =
    ground (arith, text_eq_iff app app', text_eq_iff name name')

module _ (host : Host) (release : WorldRelease) (kind : SchemaKind) (state : SchemaState) where
  has_tables :
      is_nil (missing_tables (host.expected_tables kind) state) ≡ true
      → (t : Text) → In t (host.expected_tables kind)
      → In t state.tables
  unfolding missing_tables
  has_tables h t m =
      contains-In t state.tables (not-not _ (none_kept _ (host.expected_tables kind) h t m))

  has_migrations :
      is_nil (missing_leaf_migrations host kind state) ≡ true
      → (m : Migration) → In m (host.leaf_migrations kind)
      → In m state.migrations
  unfolding missing_leaf_migrations
  has_migrations h m here =
      let (a, listed, same) =
        any-In _ (applied_migrations host kind state)
          (not-not _ (none_kept _ (host.leaf_migrations kind) h m here)) in
      subst (λ x. In x state.migrations) (same_migration-eq a m same) (applied a listed)
    where
      applied : (a : Migration) → In a (applied_migrations host kind state) → In a state.migrations
      applied a n = ((In-keep _ a state.migrations).0 n).0

  checks-IsComplete :
      checks_pass host release (schema_checks host release kind (some state)) ≡ true
      → IsComplete host kind release state
  unfolding schema_checks
  checks-IsComplete h = record {
    canary = has_canary state.canary (ground arith);
    tables = has_tables (ground arith);
    migrations = has_migrations (ground arith);
    fingerprint = ground (
      arith,
      text_eq_iff (recorded_fingerprint kind release) (migration_fingerprint host kind state),
    );
  }
    where
      has_canary :
          (o : Option Canary)
          → canary_checked kind release o ≡ true
          → o
            ≡ some (record {
              world_id = release.world_id;
              release_id = release.id;
              schema_kind = schema_kind kind;
              contract_version = schema_contract_version;
              seed_checksum = release.seed_checksum;
              migration_fingerprint = recorded_fingerprint kind release;
            })
      has_canary none e = absurd (cc)
      has_canary (some c) e = ap some (canary_ok-eq host release kind _ c e)

-- A foreign key stays inside the release, or leads to a global table of the control schema.
abbrev pub IsContained : Host → WorldRelease → ForeignKey → Type 0
IsContained host release fk =
    (fk.parent_schema ≡ release.domain_schema)
    ⊎ (fk.parent_schema ≡ release.ekoh_schema)
    ⊎ ((fk.parent_schema ≡ host.control_schema) × In fk.parent_table host.global_tables)

-- What a passed validation says of the data plane.
pub record IsValidated (host : Host) (release : WorldRelease) (plane : Plane) : Type 0 where
  pub domain_state : SchemaState
  pub auxiliary_state : SchemaState
  pub domain_exists : schema_state release.domain_schema plane ≡ some domain_state
  pub auxiliary_exists : schema_state release.ekoh_schema plane ≡ some auxiliary_state
  pub domain_complete : IsComplete host domain release domain_state
  pub auxiliary_complete : IsComplete host auxiliary release auxiliary_state
  pub isolated :
      (fk : ForeignKey)
      → In fk domain_state.foreign_keys ⊎ In fk auxiliary_state.foreign_keys
      → IsContained host release fk
  pub fixture :
      host.canonical_fixture_checksum ≢ []
      → release.fixture_checksum ≡ host.canonical_fixture_checksum

is_nil-append :
    {A : Type 0} (xs ys : List A)
    → is_nil (xs ++ ys) ≡ true
    → (is_nil xs ≡ true) × (is_nil ys ≡ true)
is_nil-append [] ys h = (refl, h)
is_nil-append (x ∷ xs) ys h = absurd (cc)

fixture_lem :
    (host : Host) (release : WorldRelease)
    → fixture_checksum_ok host release true ≡ true
    → host.canonical_fixture_checksum ≢ []
    → release.fixture_checksum ≡ host.canonical_fixture_checksum
unfolding fixture_checksum_ok
fixture_lem host release h given =
    ground (arith, text_eq_iff release.fixture_checksum host.canonical_fixture_checksum)

module _ (host : Host) (release : WorldRelease) (plane : Plane) where
  escape_cases :
      (fk : ForeignKey)
      → escapes host release fk ≡ false
      → (fk.parent_schema ≡ release.domain_schema)
        ⊎ (fk.parent_schema ≡ release.ekoh_schema)
        ⊎ ((fk.parent_schema ≡ host.control_schema)
            × (contains fk.parent_table host.global_tables ≡ true))
  unfolding escapes
  escape_cases fk h = ground (
    arith,
    text_eq_iff fk.parent_schema release.domain_schema,
    text_eq_iff fk.parent_schema release.ekoh_schema,
    text_eq_iff fk.parent_schema host.control_schema,
  )

  stays : (fk : ForeignKey) → escapes host release fk ≡ false → IsContained host release fk
  stays fk h = elim (escape_cases fk h) [
    | inl own ↦ inl own
    | inr (inl own) ↦ inr (inl own)
    | inr (inr (control, listed)) ↦
        inr (inr (control, contains-In fk.parent_table host.global_tables listed))
  ]

  isolation :
      (d a : SchemaState)
      → is_nil (fk_isolation_violations host release d a) ≡ true
      → (fk : ForeignKey) → In fk d.foreign_keys ⊎ In fk a.foreign_keys
      → IsContained host release fk
  unfolding fk_isolation_violations
  isolation d a h fk m =
      let (hd, ha) = is_nil-append (keep (escapes host release) d.foreign_keys) _ h in
      elim m [
        | inl n ↦ stays fk (none_kept (escapes host release) d.foreign_keys hd fk n)
        | inr n ↦ stays fk (none_kept (escapes host release) a.foreign_keys ha fk n)
      ]

  missing_schema :
      (schema_state release.domain_schema plane ≡ none)
        ⊎ (schema_state release.ekoh_schema plane ≡ none)
      → validate_release_schemas host release plane ≡ false
  unfolding validate_release_schemas
  missing_schema (inl e) = ground arith
  missing_schema (inr e) = ground arith

  module _ (d a : SchemaState) (hd : schema_state release.domain_schema plane ≡ some d)
      (ha : schema_state release.ekoh_schema plane ≡ some a) where
    passed_parts :
        validate_release_schemas host release plane ≡ true
        → (checks_pass host release (schema_checks host release domain (some d)) ≡ true)
          × (checks_pass host release (schema_checks host release auxiliary (some a)) ≡ true)
          × (fixture_checksum_ok host release true ≡ true)
          × (is_nil (fk_isolation_violations host release d a) ≡ true)
    unfolding validate_release_schemas
    passed_parts h = ground arith

    checked_pair :
        validate_release_schemas host release plane ≡ true → IsValidated host release plane
    checked_pair h =
        let (pd, pa, pf, pi) = passed_parts h in
        record {
          domain_state = d;
          auxiliary_state = a;
          domain_exists = hd;
          auxiliary_exists = ha;
          domain_complete = checks-IsComplete host release domain d pd;
          auxiliary_complete = checks-IsComplete host release auxiliary a pa;
          isolated = isolation d a pi;
          fixture = fixture_lem host release pf;
        }

  -- A release that passes validation has both schemas, each complete and under the release's own
  -- canary, no foreign key that leaves the release for anything but a global control table, and,
  -- where the host names a canonical fixture, that fixture.
  pub validate_release_schemas_sound :
      validate_release_schemas host release plane ≡ true → IsValidated host release plane
  validate_release_schemas_sound h =
      elim (Option-cases (schema_state release.domain_schema plane)) [
        | inl e ↦ absurd (cc (missing_schema (inl e)))
        | inr (d, hd) ↦ elim (Option-cases (schema_state release.ekoh_schema plane)) [
          | inl e ↦ absurd (cc (missing_schema (inr e)))
          | inr (a, ha) ↦ checked_pair d a hd ha h
        ]
      ]
