-- ===== src/Namespaces/Tests.antt =====
-- The names of two releases of a World.
use konnaxion_worlds.Base.{
  ℕ, ◌≡◌, ◌≢◌, refl, Bool, false, Option, none, some, List, [], ◌∷◌, Text, codes, show, arith, inr,
  ◌==◌, is_lower, get_key, set_key, text_eq, any, keep,
}
use konnaxion_worlds.Base.Exec.{ok, err}
use konnaxion_worlds.Base.Regex.{strip, lstrip, rstrip, sub_runs}
use konnaxion_worlds.Access.{WorldRuntime}
use konnaxion_worlds.Scope.{Session, unsafe_media_path}
use konnaxion_worlds.Namespaces.{
  clean_key_part, cache_key, channel_name, search_namespace, split_slash, path_parts, slashes,
  safe_relative_parts, join_slash, media_prefix, safe_name, media_path,
}
use konnaxion_worlds.Namespaces.Services.{
  pin_filter, enforce_filter, stamp_all, provenance, pinned_runtime, stamp_world_search_document,
}
use konnaxion_worlds.Namespaces.Distinct.{world_names_apart}
use konnaxion_worlds.Namespaces.Paths.{IsUnder, media_path-IsUnder}

abbrev runtime : WorldRuntime
runtime = record {
  universe_id = 1;
  universe_key = codes "levis";
  world_id = 10;
  world_key = codes "demo-alpha";
  release_id = 7;
  release_number = 2;
  domain_schema = codes "kx_w_a_r2";
  ekoh_schema = codes "kx_e_a_r2";
  is_dirty = false;
}

abbrev next_runtime : WorldRuntime
next_runtime = record runtime { release_id = 8; release_number = 3 }

program : Unit {0}
unfolding clean_key_part cache_key strip lstrip rstrip sub_runs show split_slash path_parts slashes
    safe_relative_parts join_slash media_prefix safe_name media_path text_eq any keep pin_filter
    enforce_filter get_key set_key stamp_all provenance pinned_runtime stamp_world_search_document
program = tt

cleaned : cache_key (codes " a b! ") (codes "ekoh") runtime ≡ codes "kx:w:10:r:7:ekoh:a_b"
unfolding program
cleaned = refl

image :
    media_path (codes "C:\\tmp\\a.png") (codes "/img/./big/") runtime
    ≡ ok (codes "worlds/10/releases/7/img/big/a.png")
unfolding program
image = refl

refused : media_path (codes "a.png") (codes "img/../..") runtime ≡ err unsafe_media_path
unfolding program
refused = refl

-- The last component climbs out of the category.
parent : media_path (codes "..") (codes "img") runtime ≡ ok (codes "worlds/10/releases/7/img/..")
unfolding program
parent = refl

under_example : IsUnder runtime (codes "..") (codes "worlds/10/releases/7/img/..")
under_example =
    media_path-IsUnder (codes "..") (codes "img") runtime (codes "worlds/10/releases/7/img/..")
      parent

apart_example :
    (cache_key (codes "k") (codes "d") runtime ≢ cache_key (codes "k") (codes "d") next_runtime)
    × (channel_name (codes "n") runtime ≢ channel_name (codes "n") next_runtime)
    × (search_namespace is_lower (codes "d") runtime
        ≢ search_namespace is_lower (codes "d") next_runtime)
    × (media_path (codes "..") (codes "img") next_runtime
        ≢ ok (codes "worlds/10/releases/7/img/.."))
apart_example =
    world_names_apart runtime next_runtime is_lower (codes "k") (codes "d") (codes "n") (codes "..")
      (codes "img") (codes "worlds/10/releases/7/img/..") (codes "k") (codes "d") (codes "n")
      (codes "..") (codes "img") (inr (λ e. omega (arith, e))) parent

-- Values are numbers here.
abbrev same_number : ℕ → ℕ → Option Bool
same_number v n = some (v == n)

abbrev itself : ℕ → ℕ
itself n = n

abbrev filters : List (Text × ℕ)
filters = (codes "world_id", 10) ∷ (codes "language", 2) ∷ []

abbrev pinned_filters : List (Text × ℕ)
pinned_filters = (codes "world_id", 10) ∷ (codes "language", 2) ∷ (codes "release_id", 7) ∷ []

enforced : enforce_filter itself same_number filters runtime ≡ ok pinned_filters
unfolding program
enforced = refl

abbrev session : Session ℕ
session = record {
  current_world_runtime = none;
  search_path = none;
  in_transaction = false;
  rows = 3;
}

abbrev text_number : Text → ℕ
text_number t = 0

abbrev stamped_document : List (Text × ℕ)
stamped_document =
    (codes "world_id", 10)
    ∷ (codes "language", 2)
    ∷ (codes "release_id", 7)
    ∷ (codes "source_type", 0)
    ∷ (codes "source_id", 0)
    ∷ []

stamped :
    (stamp_world_search_document show itself text_number filters
      (codes "debate")
      (codes "5")
      (some runtime)
      session).0
    ≡ ok stamped_document
unfolding program
stamped = refl
