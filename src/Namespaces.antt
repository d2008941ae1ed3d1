-- ===== src/Namespaces.antt =====
-- backend/konnaxion/worlds/services/cache.py, backend/konnaxion/worlds/services/search.py and
-- backend/konnaxion/worlds/services/media.py: the names under which a World keeps what does not
-- stand in its schemas.
pub mod Services
pub mod Numbers
pub mod Distinct
pub mod Documents
pub mod Paths
pub mod Tests
use konnaxion_worlds.Base.{
  ℕ, Bool, true, false, not, ◌&&◌, ◌||◌, Option, none, some, List, [], ◌∷◌, ◌++◌, Text, codes, show,
  text_eq, any, keep, leb, is_digit, is_lower, is_upper, get_key, set_key, if◌then◌else◌, ◌==◌,
}
use konnaxion_worlds.Base.Exec.{Result, ok, err, pure, ◌>>=◌}
use konnaxion_worlds.Base.Regex.{sub_runs, strip, or_else}
use konnaxion_worlds.Access.{WorldRuntime}
use konnaxion_worlds.Scope.{
  Scoped, ScopeError, get_world_runtime, require_world_runtime, unsafe_media_path,
  cross_world_filter, cross_world_document, not_a_number,
}

-- str.isspace of Python, which str.strip() removes at both ends.
abbrev pub is_space : ℕ → Bool
is_space c =
    (leb 9 c && leb c 13)
    || (leb 28 c && leb c 32)
    || c == 133
    || c == 160
    || c == 5760
    || (leb 8192 c && leb c 8202)
    || c == 8232
    || c == 8233
    || c == 8239
    || c == 8287
    || c == 12288

-- _SAFE_KEY_RE matches runs of anything else.
abbrev pub is_key_char : ℕ → Bool
is_key_char c =
    is_lower c || is_upper c || is_digit c || c == b'_' || c == b'.' || c == b':' || c == b'-'

abbrev is_key_edge : ℕ → Bool
is_key_edge c = c == b'_' || c == b':' || c == b'.'

unfoldable pub clean_key_part : (value fallback : Text) → Text
clean_key_part value fallback =
    or_else (strip is_key_edge (sub_runs is_key_char false (strip is_space value))) fallback

-- The rest of world_cache_key, once the runtime is there.
unfoldable pub cache_key : (key domain : Text) → WorldRuntime → Text
unfolding clean_key_part
cache_key key domain rt =
    codes "kx:w:"
    ++ (show rt.world_id
        ++ (codes ":r:"
            ++ (show rt.release_id
                ++ b':'
                  ∷ (clean_key_part domain (codes "core")
                      ++ b':' ∷ clean_key_part key (codes "key")))))

unfoldable pub channel_name : (name : Text) → WorldRuntime → Text
unfolding clean_key_part
channel_name name rt =
    codes "w"
    ++ (show rt.world_id
        ++ (codes ".r" ++ (show rt.release_id ++ b'.' ∷ clean_key_part name (codes "channel"))))

-- "".join(char if … else "_" for char in domain), with Python's isalnum
unfoldable pub map_chars : (ℕ → Bool) → Text → Text
map_chars p [] = []
map_chars p (c ∷ s) = (if p c then c else b'_') ∷ map_chars p s

unfoldable pub search_namespace : (isalnum : ℕ → Bool) (domain : Text) → WorldRuntime → Text
unfolding map_chars
search_namespace isalnum domain rt =
    let safe = λ (c : ℕ). isalnum c || c == b'-' || c == b'_' || c == b'.' in
    let edge = λ (c : ℕ). c == b'-' || c == b'_' || c == b'.' in
    codes "kx-w"
    ++ (show rt.world_id
        ++ (codes "-r"
            ++ (show rt.release_id
                ++ b'-' ∷ or_else (strip edge (map_chars safe domain)) (codes "core"))))

-- s.split("/")
abbrev pub push_char : ℕ → List Text → List Text
push_char c [] = (c ∷ []) ∷ []
push_char c (t ∷ ts) = (c ∷ t) ∷ ts

unfoldable pub split_slash : Text → List Text
split_slash [] = [] ∷ []
split_slash (c ∷ s) = let rest = split_slash s in if c == b'/' then [] ∷ rest else push_char c rest

abbrev pub is_component : Text → Bool
is_component [] = false
is_component (c ∷ s) = not (text_eq (c ∷ s) (codes "."))

-- PurePosixPath(s).parts, but for the root of an absolute path
unfoldable pub path_parts : Text → List Text
unfolding split_slash
path_parts s = keep is_component (split_slash s)

-- s.replace("\\", "/")
unfoldable pub slashes : Text → Text
slashes [] = []
slashes (c ∷ s) = (if c == b'\\' then b'/' else c) ∷ slashes s

abbrev is_slash : ℕ → Bool
is_slash c = c == b'/'

abbrev pub parts_or : Text → Text → List Text → Result ScopeError (List Text)
parts_or fallback [] parts = ok (fallback ∷ [])
parts_or fallback (c ∷ raw) [] = err unsafe_media_path
parts_or fallback (c ∷ raw) (p ∷ ps) =
    if any (λ part. text_eq part (codes "..")) (p ∷ ps) then err unsafe_media_path else ok (p ∷ ps)

unfoldable pub safe_relative_parts : (value fallback : Text) → Result ScopeError (List Text)
unfolding slashes path_parts
safe_relative_parts value fallback =
    let raw = strip is_slash (slashes value) in parts_or fallback raw (path_parts raw)

-- "/".join(parts)
unfoldable pub join_slash : List Text → Text
join_slash [] = []
join_slash (p ∷ []) = p
join_slash (p ∷ q ∷ ps) = p ++ b'/' ∷ join_slash (q ∷ ps)

abbrev pub prefix_of : WorldRuntime → Result ScopeError (List Text) → Result ScopeError (List Text)
prefix_of rt (err e) = err e
prefix_of rt (ok parts) =
    ok (codes "worlds" ∷ show rt.world_id ∷ codes "releases" ∷ show rt.release_id ∷ parts)

-- The components of world_media_prefix, which it joins.
unfoldable pub media_prefix : (category : Text) → WorldRuntime → Result ScopeError (List Text)
unfolding safe_relative_parts
media_prefix category rt = prefix_of rt (safe_relative_parts category (codes "files"))

-- PurePosixPath(s).name, the last component
abbrev pub last_part : List Text → Text
last_part [] = []
last_part (p ∷ []) = p
last_part (p ∷ q ∷ ps) = last_part (q ∷ ps)

unfoldable pub safe_name : (filename : Text) → Text
unfolding slashes path_parts
safe_name filename = or_else (last_part (path_parts (slashes filename))) (codes "file")

abbrev pub path_of : Text → Result ScopeError (List Text) → Result ScopeError Text
path_of name (err e) = err e
path_of name (ok prefix) = ok (join_slash prefix ++ b'/' ∷ name)

unfoldable pub media_path : (filename category : Text) → WorldRuntime → Result ScopeError Text
unfolding media_prefix safe_name join_slash
media_path filename category rt = path_of (safe_name filename) (media_prefix category rt)
