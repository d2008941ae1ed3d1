-- ===== src/Middleware.antt =====
-- backend/konnaxion/worlds/middleware.py: which World a path and a host name. Texts are lists of
-- code points, and a path is read through its segments.
pub mod Handling
pub mod Routes
pub mod Guarding
pub mod Tests
use konnaxion_worlds.Base.{
  ℕ, zero, suc, ◌-◌, Bool, true, false, not, ◌&&◌, ◌||◌, Option, none, some, List, [], ◌∷◌, ◌++◌,
  Text, codes, text_eq, length, any, leb, is_digit, is_lower, if◌then◌else◌, ◌==◌,
}
use konnaxion_worlds.Base.Regex.{strip, rstrip, take, all_chars}
use konnaxion_worlds.Naming.{TextLibrary}
use konnaxion_worlds.Namespaces.{is_space, split_slash}

abbrev pub is_alnum : ℕ → Bool
is_alnum c = is_lower c || is_digit c

abbrev pub is_key_inner : ℕ → Bool
is_key_inner c = is_lower c || is_digit c || c == b'-'

abbrev pub ends_alnum : Text → Bool
ends_alnum [] = false
ends_alnum (c ∷ []) = is_alnum c
ends_alnum (c ∷ d ∷ s) = is_key_inner c && ends_alnum (d ∷ s)

-- re.fullmatch of _KEY: one letter or digit, or up to 120 characters that begin and end with one.
unfoldable pub is_key : Text → Bool
is_key [] = false
is_key (c ∷ []) = is_alnum c
is_key (c ∷ d ∷ s) = is_alnum c && ends_alnum (d ∷ s) && leb (length (d ∷ s)) 119

abbrev pub without_newline : Text → Text
without_newline [] = []
without_newline (c ∷ []) = if c == b'\n' then [] else c ∷ []
without_newline (c ∷ d ∷ s) = c ∷ without_newline (d ∷ s)

-- The segment of the last group: (?:/|$), where $ also matches before a final newline.
abbrev pub closing : Text → List Text → Text
closing key [] = without_newline key
closing key (t ∷ ts) = key

pub record Route : Type 0 where
  pub universe_key : Option Text
  pub world_key : Text

abbrev pub world_part : Option Text → List Text → Option Route
world_part universe_key (w ∷ key ∷ rest) =
    if text_eq w (codes "w") && is_key (closing key rest)
    then some (record { universe_key = universe_key; world_key = closing key rest })
    else none
world_part universe_key _ = none

abbrev pub after_api : List Text → Option Route
after_api (u ∷ key ∷ rest) =
    let universe = world_part (some key) rest in
    let legacy = world_part none (u ∷ key ∷ rest) in
    if text_eq u (codes "u") && is_key key then universe else legacy
after_api _ = none

abbrev pub without_api : List Text → List Text
without_api [] = []
without_api (t ∷ ts) = if text_eq t (codes "api") then ts else t ∷ ts

abbrev pub from_root : List Text → Option Route
from_root [] = none
from_root (t ∷ ts) = if text_eq t [] then after_api (without_api ts) else none

-- _UNIVERSE_WORLD_ROUTE_RE.match(path) or _LEGACY_WORLD_ROUTE_RE.match(path)
unfoldable pub match_route : (path : Text) → Option Route
unfolding is_key split_slash
match_route path = from_root (split_slash path)

-- s.startswith(p), s.endswith(p) and s[: -len(p)]
unfoldable pub starts_with : (s p : Text) → Bool
starts_with s [] = true
starts_with [] (d ∷ p) = false
starts_with (c ∷ s) (d ∷ p) = let rest = starts_with s p in c == d && rest

unfoldable pub drop : ℕ → Text → Text
drop zero s = s
drop (suc n) [] = []
drop (suc n) (c ∷ s) = drop n s

unfoldable pub ends_with : (s p : Text) → Bool
unfolding drop
ends_with s p = leb (length p) (length s) && text_eq (drop (length s - length p) s) p

abbrev is_dot : ℕ → Bool
is_dot c = c == b'.'

abbrev is_colon : ℕ → Bool
is_colon c = c == b':'

unfoldable pub count_char : ℕ → Text → ℕ
count_char d [] = 0
count_char d (c ∷ s) = let rest = count_char d s in if c == d then suc rest else rest

-- host.rsplit(":", 1)[0], where there is one colon
unfoldable pub before_char : ℕ → Text → Text
before_char d [] = []
before_char d (c ∷ s) = let rest = before_char d s in if c == d then [] else c ∷ rest

abbrev without_port : Text → Text
without_port host = if count_char b':' host == 1 then before_char b':' host else host

abbrev bracketed : Text → Bool
bracketed [] = false
bracketed (c ∷ s) = c == b'['

module _ (lib : TextLibrary) where
  -- str(…).strip().lower().rstrip(".")
  unfoldable pub plain_name : Text → Text
  plain_name s = rstrip is_dot (lib.lower (strip is_space s))

  unfoldable pub request_hostname : (host : Text) → Text
  unfolding plain_name count_char before_char
  request_hostname host =
      let name = plain_name host in if bracketed name then [] else without_port name

  abbrev add_domain : Text → List Text → List Text
  add_domain [] values = values
  add_domain (c ∷ s) values =
      if any (λ v. text_eq v (c ∷ s)) values then values else values ++ (c ∷ s) ∷ []

  -- The items of the setting, a list or a text that is split at commas, semicolons and spaces.
  unfoldable pub base_domains : (items values : List Text) → List Text
  unfolding plain_name
  base_domains [] values = values
  base_domains (item ∷ items) values = base_domains items (add_domain (plain_name item) values)

  -- _setting_or_env("KONNAXION_UNIVERSE_HOST_ROUTING_ENABLED") as a text, as from the environment.
  unfoldable pub host_routing_enabled : (raw : Text) → Bool
  host_routing_enabled raw =
      any (text_eq (lib.lower (strip is_space raw)))
        (codes "1" ∷ codes "true" ∷ codes "yes" ∷ codes "on" ∷ [])

-- for base_domain in _universe_base_domains(): …
unfoldable pub key_under : (domains : List Text) (host : Text) → Option Text
unfolding ends_with is_key
key_under [] host = none
key_under (base ∷ domains) host =
    let later = key_under domains host in
    let suffix = b'.' ∷ base in
    let subdomain = take (length host - length suffix) host in
    if text_eq host base || text_eq host (codes "www." ++ base)
    then none
    else if not (ends_with host suffix)
    then later
    else if any is_dot subdomain || not (is_key subdomain)
    then none
    else some subdomain

unfoldable pub universe_key_from_hostname :
    TextLibrary → (enabled : Bool) (domains : List Text) (hostname : Text) → Option Text
unfolding plain_name key_under count_char before_char
universe_key_from_hostname lib enabled domains hostname =
    let host = plain_name lib hostname in
    let found = key_under domains (without_port host) in
    if not enabled || bracketed host then none else found

abbrev pub world_owned_prefixes : List Text
world_owned_prefixes =
    codes "/api/ethikos"
    ∷ codes "/api/deliberate"
    ∷ codes "/api/teambuilder"
    ∷ codes "/api/keenkonnect"
    ∷ codes "/api/projects"
    ∷ codes "/api/konnected"
    ∷ codes "/api/kreative"
    ∷ codes "/api/kollective"
    ∷ codes "/api/v1/ekoh"
    ∷ codes "/api/v1/smart-vote"
    ∷ codes "/api/reports"
    ∷ codes "/api/admin/moderation"
    ∷ codes "/api/admin/konsensus-config"
    ∷ []

abbrev or_root : Text → Text
or_root [] = codes "/"
or_root (c ∷ s) = c ∷ s

unfoldable pub requires_world_route : (path : Text) → Bool
unfolding starts_with
requires_world_route path =
    let normalized = or_root (rstrip (λ (c : ℕ). c == b'/') path) in
    any (λ prefix. text_eq normalized prefix || starts_with normalized (prefix ++ b'/' ∷ []))
      world_owned_prefixes
