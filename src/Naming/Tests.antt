-- ===== src/Naming/Tests.antt =====
-- The naming functions at concrete inputs.
use konnaxion_worlds.Base.{◌≡◌, ◌≢◌, refl, codes, arith, some}
use konnaxion_worlds.Naming.{TextLibrary, release_schema_names, validate_schema_name}
use konnaxion_worlds.Naming.Valid.{
  HexDigest, release_schema_names-valid, release_schema_names-distinct,
}

-- Keys are lowercase already, and the digest is a sample one.
abbrev lib : TextLibrary
lib = record { lower = λ s. s; digest = λ s. codes "c0ffee0123456789" }

hex : HexDigest lib
hex s = (
  refl,
  (
    refl,
    (
      refl,
      (
        refl,
        (
          refl,
          (
            refl,
            (refl, (refl, (refl, (refl, (refl, (refl, (refl, (refl, (refl, (refl, tt)))))))))),
          ),
        ),
      ),
    ),
  ),
)

schema_names_valid_example :
    (validate_schema_name (release_schema_names lib (codes "demo-alpha") 12).0
      ≡ some (release_schema_names lib (codes "demo-alpha") 12).0)
    × (validate_schema_name (release_schema_names lib (codes "demo-alpha") 12).1
        ≡ some (release_schema_names lib (codes "demo-alpha") 12).1)
schema_names_valid_example =
    release_schema_names-valid lib hex (codes "demo-alpha") 12 (omega arith)

schema_names_distinct_example :
    ((release_schema_names lib (codes "a") 1).0 ≢ (release_schema_names lib (codes "a") 1).1)
    × ((release_schema_names lib (codes "a") 1).0 ≢ (release_schema_names lib (codes "a") 2).0)
    × ((release_schema_names lib (codes "a") 1).1 ≢ (release_schema_names lib (codes "a") 2).1)
schema_names_distinct_example =
    release_schema_names-distinct lib (codes "a") (codes "a") 1 2 1 (λ e. omega (arith, e))
