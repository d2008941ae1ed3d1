-- ===== src/Naming/Valid.antt =====
-- The names that a release gets are accepted by the engine's own check, and are its own.
use konnaxion_worlds.Base.{
  append_cancel, ℕ, ◌-◌, ◌^◌, ◌≤◌, ◌<◌, ◌≡◌, ◌≢◌, refl, ap, true, [], ◌∷◌, ◌++◌, arith, Text, codes,
  show, show_injective, length-show, show-Digits, length, length-append, is_digit, is_lower, All,
  All-append, All-map, some, ◌||◌,
}
use konnaxion_worlds.Base.Regex.{
  all_chars_iff, All-sub_runs, All-strip, All-take, All-or_else, length-take, take,
}
use konnaxion_worlds.Naming.{
  TextLibrary, safe_world_token, release_schema_names, is_schema_char, validate_schema_name,
}

-- hexdigest() is made of lowercase hexadecimal digits.
abbrev pub HexDigest : TextLibrary → Type 0
HexDigest lib = (t : Text) → All (λ c. (is_digit c || is_lower c) ≡ true) (lib.digest t)

abbrev InName : ℕ → Type 0
InName c = is_schema_char c ≡ true

module _ (lib : TextLibrary) (hex : HexDigest lib) (world_key : Text) where
  All-safe_world_token : (m : ℕ) → All InName (safe_world_token lib world_key m)
  unfolding safe_world_token
  All-safe_world_token m =
      All-append InName _ _
        (All-take InName _ _ (
          All-or_else InName _ _
            (All-strip InName _ _ (All-sub_runs InName _ _ _ (λ c h. ground arith) (ground arith)))
            (refl, (refl, (refl, (refl, (refl, tt)))))))
        (
          ground arith,
          All-take InName 8 _ (All-map _ InName (λ c h. ground arith) _ (hex world_key)),
        )

  length-safe_world_token : (m : ℕ) → 9 ≤ m → length (safe_world_token lib world_key m) ≤ m
  unfolding safe_world_token
  length-safe_world_token m h = omega (
    arith,
    length-append (take (m - length (take 8 (lib.digest world_key)) - 1) _)
        (b'_' ∷ take 8 (lib.digest world_key)),
    length-take 8 (lib.digest world_key),
    length-take (m - length (take 8 (lib.digest world_key)) - 1) _,
  )

  -- The part after the first letter.
  abbrev after_letter : ℕ → ℕ → Text
  after_letter kind n =
      b'x' ∷ b'_' ∷ kind ∷ b'_' ∷ (safe_world_token lib world_key 32 ++ (codes "_r" ++ show n))

  All-after_letter : (kind n : ℕ) → InName kind → All InName (after_letter kind n)
  All-after_letter kind n h =
      let number = All-map _ InName (λ c d. ground arith) (show n) (show-Digits n) in
      let tail =
        All-append InName _ (codes "_r" ++ show n) (All-safe_world_token 32)
          (refl, (refl, number)) in
      (refl, (refl, (h, (refl, tail))))

  length-after_letter : (kind n : ℕ) → n < 10 ^ 24 → length (after_letter kind n) ≤ 62
  length-after_letter kind n h = omega (
    arith,
    length-append (safe_world_token lib world_key 32) (codes "_r" ++ show n),
    length-safe_world_token 32 (omega arith),
    length-show 23 n h,
  )

  accepted :
      (kind n : ℕ)
      → InName kind
      → n < 10 ^ 24
      → validate_schema_name (b'k' ∷ after_letter kind n) ≡ some (b'k' ∷ after_letter kind n)
  unfolding validate_schema_name
  accepted kind n k h =
      let fits = length-after_letter kind n h in
      let named = all_chars_iff is_schema_char (after_letter kind n) (All-after_letter kind n k) in
      ground (arith, fits, named)

  -- Both schema names of a release pass the engine's own check, for every World key and every
  -- release number below 10 ^ 24, whatever lower() does.
  pub release_schema_names-valid :
      (release_number : ℕ)
      → release_number < 10 ^ 24
      → (validate_schema_name (release_schema_names lib world_key release_number).0
          ≡ some (release_schema_names lib world_key release_number).0)
        × (validate_schema_name (release_schema_names lib world_key release_number).1
            ≡ some (release_schema_names lib world_key release_number).1)
  unfolding release_schema_names
  release_schema_names-valid n h = (accepted b'w' n refl h, accepted b'e' n refl h)

abbrev fourth : Text → ℕ
fourth (a ∷ b ∷ c ∷ d ∷ s) = d
fourth s = 0

-- A domain schema, of any release, never has the name of an EkoH schema, be it of the
-- same release, another one or another World, and releases of one World with different numbers share no name of either kind.
pub release_schema_names-distinct :
    (lib : TextLibrary) (key key' : Text) (m n o : ℕ)
    → m ≢ n
    → ((release_schema_names lib key m).0 ≢ (release_schema_names lib key' o).1)
      × ((release_schema_names lib key m).0 ≢ (release_schema_names lib key n).0)
      × ((release_schema_names lib key m).1 ≢ (release_schema_names lib key n).1)
unfolding release_schema_names
release_schema_names-distinct lib key key' m n o differ = (
  (λ e. let q : ◌≡◌ {A = ℕ} b'w' b'e' = ap fourth e in omega (arith, q)),
  (λ e. differ (same_number e)),
  (λ e. differ (same_number e)),
)
  where
    same_number :
        {kind : ℕ}
        → b'k' ∷ b'x' ∷ b'_' ∷ kind ∷ b'_' ∷ (safe_world_token lib key 32 ++ (codes "_r" ++ show m))
          ≡ b'k'
            ∷ b'x'
            ∷ b'_'
            ∷ kind
            ∷ b'_'
            ∷ (safe_world_token lib key 32 ++ (codes "_r" ++ show n))
        → m ≡ n
    same_number {kind} e = show_injective m n (
        append_cancel (codes "_r") _ _ (
          append_cancel (safe_world_token lib key 32) _ _
            (append_cancel (b'k' ∷ b'x' ∷ b'_' ∷ kind ∷ b'_' ∷ []) _ _ e)))
