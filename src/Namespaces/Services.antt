-- ===== src/Namespaces/Services.antt =====
-- The functions of backend/konnaxion/worlds/services/cache.py, backend/konnaxion/worlds/services/search.py
-- and backend/konnaxion/worlds/services/media.py, with the runtime that is given or active.
use konnaxion_worlds.Base.{
  ℕ, Bool, true, false, Option, none, some, List, [], ◌∷◌, ◌++◌, Text, codes, text_eq, get_key,
  set_key, if◌then◌else◌,
}
use konnaxion_worlds.Base.Exec.{Result, ok, err, pure, ◌>>=◌}
use konnaxion_worlds.Access.{WorldRuntime}
use konnaxion_worlds.Scope.{
  Scoped, ScopeError, get_world_runtime, require_world_runtime, cross_world_filter,
  cross_world_document, not_a_number,
}
use konnaxion_worlds.Namespaces.{
  cache_key, channel_name, search_namespace, media_prefix, media_path, join_slash,
}

abbrev joined : Result ScopeError (List Text) → Result ScopeError Text
joined (ok parts) = ok (join_slash parts)
joined (err e) = err e

abbrev under : List Text → Result ScopeError (List Text) → Result ScopeError (List Text)
under root (ok parts) = ok (root ++ parts)
under root (err e) = err e

abbrev token : Option WorldRuntime → Option (ℕ × ℕ)
token none = none
token (some rt) = some (rt.world_id, rt.release_id)

abbrev token_or_global : Option WorldRuntime → ℕ × ℕ
token_or_global none = (0, 0)
token_or_global (some rt) = (rt.world_id, rt.release_id)

module _ {D : Type 0} where
  abbrev from : {A : Type 0} → Result ScopeError A → Scoped D A
  from r s = (r, s)

  -- runtime or require_world_runtime()
  unfoldable pub pinned_runtime : Option WorldRuntime → Scoped D WorldRuntime
  pinned_runtime none = require_world_runtime
  pinned_runtime (some rt) = pure rt

  -- runtime or get_world_runtime()
  unfoldable pub some_runtime : Option WorldRuntime → Scoped D (Option WorldRuntime)
  unfolding get_world_runtime
  some_runtime none = get_world_runtime
  some_runtime (some rt) = pure (some rt)

  unfoldable pub world_cache_scope_token : Option WorldRuntime → Scoped D (Option (ℕ × ℕ))
  unfolding some_runtime
  world_cache_scope_token runtime = some_runtime runtime >>= (λ rt. pure (token rt))

  unfoldable pub require_world_cache_scope_token : Option WorldRuntime → Scoped D (ℕ × ℕ)
  unfolding some_runtime
  require_world_cache_scope_token runtime =
      some_runtime runtime >>= (λ rt. pure (token_or_global rt))

  unfoldable pub world_cache_key : (key domain : Text) → Option WorldRuntime → Scoped D Text
  unfolding pinned_runtime cache_key
  world_cache_key key domain runtime =
      pinned_runtime runtime >>= (λ rt. pure (cache_key key domain rt))

  unfoldable pub world_channel_name : (name : Text) → Option WorldRuntime → Scoped D Text
  unfolding pinned_runtime channel_name
  world_channel_name name runtime = pinned_runtime runtime >>= (λ rt. pure (channel_name name rt))

  unfoldable pub world_search_metadata : Option WorldRuntime → Scoped D (ℕ × ℕ)
  unfolding pinned_runtime
  world_search_metadata runtime =
      pinned_runtime runtime >>= (λ rt. pure (rt.world_id, rt.release_id))

  unfoldable pub world_search_namespace :
      (isalnum : ℕ → Bool) (domain : Text) → Option WorldRuntime → Scoped D Text
  unfolding pinned_runtime search_namespace
  world_search_namespace isalnum domain runtime =
      pinned_runtime runtime >>= (λ rt. pure (search_namespace isalnum domain rt))

  unfoldable pub world_media_prefix : (category : Text) → Option WorldRuntime → Scoped D Text
  unfolding pinned_runtime media_prefix join_slash
  world_media_prefix category runtime =
      pinned_runtime runtime >>= (λ rt. from (joined (media_prefix category rt)))

  unfoldable pub world_media_path : (filename category : Text) → Option WorldRuntime → Scoped D Text
  unfolding pinned_runtime media_path
  world_media_path filename category runtime =
      pinned_runtime runtime >>= (λ rt. from (media_path filename category rt))

  -- The directory as its components, below those of MEDIA_ROOT.
  unfoldable pub world_media_fs_directory :
      (media_root : List Text) (category : Text) → Option WorldRuntime → Scoped D (List Text)
  unfolding pinned_runtime media_prefix
  world_media_fs_directory media_root category runtime =
      pinned_runtime runtime >>= (λ rt. from (under media_root (media_prefix category rt)))

-- Values of a filter: int(value) == n, or none where int() raises.
module _ {V : Type 0} (of_number : ℕ → V) (equals_number : V → ℕ → Option Bool) where
  abbrev agreed : Text → ℕ → List (Text × V) → Option Bool → Result ScopeError (List (Text × V))
  agreed key expected out none = err not_a_number
  agreed key expected out (some false) = err cross_world_filter
  agreed key expected out (some true) = ok (set_key key (of_number expected) out)

  abbrev given : Text → ℕ → List (Text × V) → Option V → Result ScopeError (List (Text × V))
  given key expected out none = ok (set_key key (of_number expected) out)
  given key expected out (some v) = agreed key expected out (equals_number v expected)

  -- One round of the loop.
  unfoldable pub pin_filter : Text → ℕ → List (Text × V) → Result ScopeError (List (Text × V))
  pin_filter key expected out = given key expected out (get_key key out)

  abbrev and_release :
      WorldRuntime → Result ScopeError (List (Text × V)) → Result ScopeError (List (Text × V))
  and_release rt (err e) = err e
  and_release rt (ok out) = pin_filter (codes "release_id") rt.release_id out

  unfoldable pub enforce_filter :
      List (Text × V) → WorldRuntime → Result ScopeError (List (Text × V))
  unfolding pin_filter
  enforce_filter filters rt = and_release rt (pin_filter (codes "world_id") rt.world_id filters)

  unfoldable pub enforce_world_search_filter :
      {D : Type 0} → List (Text × V) → Option WorldRuntime → Scoped D (List (Text × V))
  unfolding pinned_runtime enforce_filter
  enforce_world_search_filter filters runtime =
      pinned_runtime runtime >>= (λ rt. from (enforce_filter filters rt))

-- Values of a document, and str(value).
module _ {V : Type 0} (str : V → Text) where
  abbrev pub unlike : V → Option V → Bool
  unlike value none = false
  unlike value (some v) = if text_eq (str v) (str value) then false else true

  unfoldable pub stamp_all : List (Text × V) → List (Text × V) → Result ScopeError (List (Text × V))
  stamp_all [] out = ok out
  stamp_all ((key, value) ∷ rest) out =
      let done = stamp_all rest (set_key key value out) in
      if unlike value (get_key key out) then err cross_world_document else done

  -- The expected fields.
  unfoldable pub provenance :
      (of_number : ℕ → V) (of_text : Text → V)
      → (source_type source_id : Text) → WorldRuntime
      → List (Text × V)
  provenance of_number of_text source_type source_id rt =
      (codes "world_id", of_number rt.world_id)
      ∷ (codes "release_id", of_number rt.release_id)
      ∷ (codes "source_type", of_text source_type)
      ∷ (codes "source_id", of_text source_id)
      ∷ []

  unfoldable pub stamp_world_search_document :
      {D : Type 0}
      → (of_number : ℕ → V) (of_text : Text → V) → List (Text × V)
      → (source_type source_id : Text) → Option WorldRuntime
      → Scoped D (List (Text × V))
  unfolding pinned_runtime stamp_all provenance
  stamp_world_search_document of_number of_text document source_type source_id runtime =
      pinned_runtime runtime
      >>= (λ rt. from (stamp_all (provenance of_number of_text source_type source_id rt) document))
