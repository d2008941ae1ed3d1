-- ===== src/Naming.antt =====
-- backend/konnaxion/worlds/services/naming.py, and validate_schema_name of
-- backend/konnaxion/worlds/db.py: the PostgreSQL schema names of a release.
pub mod Valid
pub mod Tests
use konnaxion_worlds.Base.{
  ℕ, ◌-◌, ◌≡◌, Bool, true, false, ◌&&◌, ◌||◌, [], ◌∷◌, ◌++◌, arith, Text, codes, show, length, leb,
  is_digit, is_lower, ◌==◌, if◌then◌else◌, Option, none, some, All,
}
use konnaxion_worlds.Base.Regex.{sub_runs, strip, take, or_else, all_chars}

-- The standard library's str.lower() and hashlib.sha256(s.encode("utf-8")).hexdigest().
pub record TextLibrary : Type 0 where
  pub lower : Text → Text
  pub digest : Text → Text

abbrev pub is_token_char : ℕ → Bool
is_token_char c = is_lower c || is_digit c

abbrev pub is_underscore : ℕ → Bool
is_underscore c = c == b'_'

module _ (lib : TextLibrary) where
  unfoldable pub safe_world_token : (world_key : Text) (max_length : ℕ) → Text
  safe_world_token world_key max_length =
      let base =
        or_else (strip is_underscore (sub_runs is_token_char false (lib.lower world_key)))
          (codes "world") in
      let digest = take 8 (lib.digest world_key) in
      let room = max_length - length digest - 1 in take room base ++ b'_' ∷ digest

  unfoldable pub release_schema_names : (world_key : Text) (release_number : ℕ) → Text × Text
  release_schema_names world_key release_number =
      let token = safe_world_token world_key 32 in
      (
        codes "kx_w_" ++ (token ++ (codes "_r" ++ show release_number)),
        codes "kx_e_" ++ (token ++ (codes "_r" ++ show release_number)),
      )

abbrev pub is_schema_char : ℕ → Bool
is_schema_char c = is_lower c || is_digit c || c == b'_'

-- _SCHEMA_RE.fullmatch, for ^[a-z][a-z0-9_]{0,62}$
pub matches_schema : Text → Bool
matches_schema [] = false
matches_schema (c ∷ s) = is_lower c && all_chars is_schema_char s && leb (length s) 62

-- The name, or none where the code raises ValueError.
unfoldable pub validate_schema_name : Text → Option Text
unfolding matches_schema all_chars
validate_schema_name schema = if matches_schema schema then some schema else none
