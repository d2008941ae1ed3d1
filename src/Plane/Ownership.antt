-- ===== src/Plane/Ownership.antt =====
-- A schema belongs to one release: its canary says which, and in which role.
use konnaxion_worlds.Base.{
  ℕ, ◌≡◌, refl, ap, sym, ◌∙◌, true, some, none, Option, from_option, [], ◌∷◌, Text, arith,
}
use konnaxion_worlds.Models.{WorldRelease}
use konnaxion_worlds.Plane.{
  SchemaKind, domain, auxiliary, schema_kind, schema_contract_version, Canary, Plane, Host,
  schema_state, recorded_fingerprint, schema_name, validate_release_schemas,
}
use konnaxion_worlds.Plane.Validation.{validate_release_schemas_sound}

abbrev pub own_canary : SchemaKind → WorldRelease → Canary
own_canary kind release = record {
  world_id = release.world_id;
  release_id = release.id;
  schema_kind = schema_kind kind;
  contract_version = schema_contract_version;
  seed_checksum = release.seed_checksum;
  migration_fingerprint = recorded_fingerprint kind release;
}

abbrev canary_at : Text → Plane → Option Canary
canary_at name plane = elim (schema_state name plane) [ none ↦ none | some s ↦ s.canary ]

-- Read through its own name, each schema of a validated release shows the release's canary.
carries :
    (host : Host) (release : WorldRelease) (plane : Plane) (kind : SchemaKind)
    → validate_release_schemas host release plane ≡ true
    → canary_at (schema_name kind release) plane ≡ some (own_canary kind release)
carries host release plane domain h =
    let v = validate_release_schemas_sound host release plane h in
    rw (v.domain_exists, canary_at) v.domain_complete.canary
carries host release plane auxiliary h =
    let v = validate_release_schemas_sound host release plane h in
    rw (v.auxiliary_exists, canary_at) v.auxiliary_complete.canary

abbrev first : Text → ℕ
first [] = 0
first (c ∷ s) = c

same_role : (kind kind' : SchemaKind) → schema_kind kind ≡ schema_kind kind' → kind ≡ kind'
same_role domain domain e = refl
same_role domain auxiliary e = absurd (omega (arith, ap first e))
same_role auxiliary domain e = absurd (omega (arith, ap first e))
same_role auxiliary auxiliary e = refl

-- Two releases that pass validation on one data plane share no schema, in whatever roles: if a
-- schema of one is a schema of the other, the two are the same release of the same World, and the
-- schema has the same role in both.
pub validated_ownership :
    (host : Host) (r r' : WorldRelease) (plane : Plane) (kind kind' : SchemaKind)
    → validate_release_schemas host r plane ≡ true
    → validate_release_schemas host r' plane ≡ true
    → schema_name kind r ≡ schema_name kind' r'
    → (r.id ≡ r'.id) × (r.world_id ≡ r'.world_id) × (kind ≡ kind')
validated_ownership host r r' plane kind kind' h h' same =
    let e : ◌≡◌ {A = Option Canary} (some (own_canary kind r)) (some (own_canary kind' r')) =
      sym (carries host r plane kind h)
      ∙ ap (λ n. canary_at n plane) same
      ∙ carries host r' plane kind' h' in
    let c : own_canary kind r ≡ own_canary kind' r' = ap (from_option (own_canary kind r)) e in
    (
      ap (λ x. x.release_id) c,
      ap (λ x. x.world_id) c,
      same_role kind kind' (ap (λ (x : Canary). x.schema_kind) c),
    )
