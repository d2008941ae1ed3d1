-- ===== src/Namespaces/Distinct.antt =====
-- No two releases share a name of a cache entry, a channel, an index or a file.
use konnaxion_worlds.Base.{
  ℕ, ◌≡◌, ◌≢◌, refl, ap, sym, ◌∙◌, Bool, List, [], ◌∷◌, ◌++◌, Text, codes, show, length, ◌≤◌, arith,
}
use mathlib.Core.List.{append_assoc}
use konnaxion_worlds.Base.Exec.{ok}
use konnaxion_worlds.Access.{WorldRuntime}
use konnaxion_worlds.Namespaces.{cache_key, channel_name, search_namespace, media_path, join_slash}
use konnaxion_worlds.Namespaces.Paths.{media_path-IsUnder}
use konnaxion_worlds.Namespaces.Numbers.{IsSame, IsOther, numbers_lem, IsOther-differs}

module _ (a b : WorldRuntime) where
  cache_key-IsSame :
      (key domain key' domain' : Text)
      → cache_key key domain a ≡ cache_key key' domain' b
      → IsSame a b
  unfolding cache_key
  cache_key-IsSame key domain key' domain' e =
      numbers_lem (codes "kx:w:") (codes "r:") b':' b':' a b _ _ refl refl e

  channel_name-IsSame :
      (name name' : Text) → channel_name name a ≡ channel_name name' b → IsSame a b
  unfolding channel_name
  channel_name-IsSame name name' e =
      numbers_lem (codes "w") (codes "r") b'.' b'.' a b _ _ refl refl e

  search_namespace-IsSame :
      (isalnum : ℕ → Bool) (domain domain' : Text)
      → search_namespace isalnum domain a ≡ search_namespace isalnum domain' b
      → IsSame a b
  unfolding search_namespace
  search_namespace-IsSame isalnum domain domain' e =
      numbers_lem (codes "kx-w") (codes "r") b'-' b'-' a b _ _ refl refl e

  numbered :
      (q : Text) (ps : List Text) (name : Text) (rt : WorldRuntime)
      → (join_slash
            (codes "worlds" ∷ show rt.world_id ∷ codes "releases" ∷ show rt.release_id ∷ q ∷ ps)
          ++ b'/' ∷ name)
        ≡ (codes "worlds/"
            ++ (show rt.world_id
                ++ b'/'
                  ∷ (codes "releases/"
                      ++ (show rt.release_id ++ b'/' ∷ (join_slash (q ∷ ps) ++ b'/' ∷ name)))))
  unfolding join_slash
  numbered q ps name rt =
      let inside = append_assoc (show rt.release_id) (b'/' ∷ join_slash (q ∷ ps)) (b'/' ∷ name) in
      let outside =
        append_assoc (show rt.world_id)
          (b'/' ∷ (codes "releases/" ++ (show rt.release_id ++ b'/' ∷ join_slash (q ∷ ps))))
          (b'/' ∷ name) in
      ap (λ t. codes "worlds/" ++ t) outside
      ∙ ap (λ t. codes "worlds/" ++ (show rt.world_id ++ b'/' ∷ (codes "releases/" ++ t))) inside

abbrev Numbered : WorldRuntime → Text → Type 0
Numbered rt path =
    (rest : Text) × (path ≡ (
      codes "worlds/"
      ++ (show rt.world_id ++ b'/' ∷ (codes "releases/" ++ (show rt.release_id ++ b'/' ∷ rest)))))

Numbered-under :
    (rt : WorldRuntime) (name path : Text) (inner : List Text)
    → path
      ≡ join_slash
          (codes "worlds" ∷ show rt.world_id ∷ codes "releases" ∷ show rt.release_id ∷ inner)
        ++ b'/' ∷ name
    → 1 ≤ length inner
    → Numbered rt path
Numbered-under rt name path [] e some = absurd (omega (arith, some))
Numbered-under rt name path (q ∷ ps) e some =
    (join_slash (q ∷ ps) ++ b'/' ∷ name, e ∙ numbered rt rt q ps name rt)

media_path-Numbered :
    (filename category : Text) (rt : WorldRuntime) (path : Text)
    → media_path filename category rt ≡ ok path
    → Numbered rt path
media_path-Numbered filename category rt path e =
    let under = media_path-IsUnder filename category rt path e in
    Numbered-under rt under.name path under.inner under.written under.some_inner

media_path-IsSame :
    (a b : WorldRuntime) (path : Text) → Numbered a path → Numbered b path → IsSame a b
media_path-IsSame a b path (s, e) (t, f) =
    numbers_lem (codes "worlds/") (codes "releases/") b'/' b'/' a b s t refl refl (sym e ∙ f)

-- Two different releases, of one World or of two, never have the same cache key, channel name, search
-- namespace or media path, whatever names these are made from.
pub world_names_apart :
    (a b : WorldRuntime) (isalnum : ℕ → Bool)
    (key domain name filename category path key' domain' name' filename' category' : Text)
    → IsOther a b
    → media_path filename category a ≡ ok path
    → (cache_key key domain a ≢ cache_key key' domain' b)
      × (channel_name name a ≢ channel_name name' b)
      × (search_namespace isalnum domain a ≢ search_namespace isalnum domain' b)
      × (media_path filename' category' b ≢ ok path)
world_names_apart a b isalnum key domain name filename category path key' domain' name' filename'
      category' other e =
    (
      (λ h. IsOther-differs a b other (cache_key-IsSame a b key domain key' domain' h)),
      (λ h. IsOther-differs a b other (channel_name-IsSame a b name name' h)),
      (λ h. IsOther-differs a b other (search_namespace-IsSame a b isalnum domain domain' h)),
      (λ h. IsOther-differs a b other (
          media_path-IsSame a b path (media_path-Numbered filename category a path e)
            (media_path-Numbered filename' category' b path h))),
    )
