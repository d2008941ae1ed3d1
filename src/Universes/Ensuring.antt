-- ===== src/Universes/Ensuring.antt =====
-- backend/konnaxion/worlds/services/universe_packs.py, _ensure_universe_worlds: the registry of a Universe and
-- its Worlds.
use konnaxion_worlds.Base.{
  ℕ, ◌+◌, Bool, true, false, not, ◌&&◌, Option, none, some, List, [], ◌∷◌, ◌++◌, Text, text_eq,
  find, put, any, get_key, set_key, if◌then◌else◌, ◌==◌,
}
use konnaxion_worlds.Base.Exec.{ok, err, pure, raise, atomic, ◌>>=◌, ◌>>◌}
use konnaxion_worlds.Models.{Universe, World, WorldRelease, Lifecycle, Visibility, is_archived}
use konnaxion_worlds.Store.{
  world_id_of, release_id_of, universe_archived, world_of_another_universe, validation_error,
}
use konnaxion_worlds.Seeds.{SeedPack}
use konnaxion_worlds.Universes.{
  PackWorld, UniversePack, Deed, Worlds, Packs, or_missing, universe_id_of,
}

-- Model.objects.filter(key=…).first(), for a unique column
unfoldable pub find_universe : Text → List Universe → Option Universe
find_universe key [] = none
find_universe key (u ∷ us) =
    let later = find_universe key us in if text_eq u.key key then some u else later

unfoldable pub find_world : Text → List World → Option World
find_world key [] = none
find_world key (w ∷ ws) =
    let later = find_world key ws in if text_eq w.key key then some w else later

abbrev is_some : {A : Type 0} → Option A → Bool
is_some none = false
is_some (some a) = true

-- universe.worlds.filter(current_release__isnull=False).exists()
unfoldable pub has_live_world : ℕ → List World → Bool
has_live_world universe_id ws =
    any (λ w. w.universe_id == universe_id && is_some w.current_release_id) ws

abbrev pub new_universe : UniversePack → (actor : Option ℕ) → ℕ → Universe
new_universe pack actor id = record {
  id = id;
  key = pack.universe_key;
  title = pack.title;
  status = Lifecycle.active;
  visibility = Visibility.private;
  default_world_id = none;
  created_by_id = actor;
}

abbrev pub got_universe : UniversePack → (actor : Option ℕ) → Option Universe → Deed Universe
got_universe pack actor (some u) realm = (ok u, realm)
got_universe pack actor none realm =
    let u = new_universe pack actor realm.next_universe_id in
    (
      ok u,
      record realm {
        universes = realm.universes ++ u ∷ [];
        next_universe_id = realm.next_universe_id + 1;
      },
    )

-- The default World of Universe.clean(): none, or one of the Universe.
abbrev owned : ℕ → Option World → Bool
owned universe_id none = false
owned universe_id (some w) = w.universe_id == universe_id

abbrev pub clean_universe : List World → Universe → Option ℕ → Bool
clean_universe ws u none = true
clean_universe ws u (some i) = owned u.id (find world_id_of i ws)

abbrev pub save_universe : Universe → Deed Unit
save_universe u realm =
    if clean_universe realm.store.worlds u u.default_world_id
    then (ok tt, record realm { universes = put universe_id_of u realm.universes })
    else (err validation_error, realm)

abbrev pub prepare_universe : UniversePack → Universe → Deed Universe
prepare_universe pack u realm =
    let prepared : Universe = record u {
      title = pack.title;
      visibility =
          if has_live_world u.id realm.store.worlds then u.visibility else Visibility.private;
      status = Lifecycle.active;
    } in
    if is_archived u.status
    then (err universe_archived, realm)
    else (save_universe prepared >> pure prepared) realm

abbrev or_title : Text → Text → Text
or_title [] title = title
or_title (c ∷ s) title = c ∷ s

abbrev pub new_world : Universe → PackWorld → SeedPack → (actor : Option ℕ) → ℕ → World
new_world universe row seed actor id = record {
  id = id;
  universe_id = universe.id;
  key = row.world_key;
  title = or_title row.title seed.title;
  status = Lifecycle.active;
  visibility = Visibility.private;
  current_release_id = none;
  created_by_id = actor;
}

-- World.objects.get_or_create(key=…, defaults=…)
abbrev pub got_world :
    Universe → PackWorld → SeedPack → (actor : Option ℕ) → Option World → Deed World
got_world universe row seed actor (some w) realm = (ok w, realm)
got_world universe row seed actor none realm =
    let w = new_world universe row seed actor realm.next_world_id in
    let store = realm.store in
    (
      ok w,
      record realm {
        store = record store { worlds = store.worlds ++ w ∷ [] };
        next_world_id = realm.next_world_id + 1;
      },
    )

abbrev own_release : ℕ → Option WorldRelease → Bool
own_release world_id none = false
own_release world_id (some r) = r.world_id == world_id

-- World.clean()
abbrev pub clean_world : List WorldRelease → World → Option ℕ → Bool
clean_world releases w none = true
clean_world releases w (some i) = own_release w.id (find release_id_of i releases)

abbrev pub kept_visibility : World → Option ℕ → Visibility
kept_visibility w none = Visibility.private
kept_visibility w (some i) = w.visibility

abbrev pub updated_world : PackWorld → SeedPack → World → World
updated_world row seed w = record w {
  title = or_title row.title seed.title;
  status = Lifecycle.active;
  visibility = kept_visibility w w.current_release_id;
}

abbrev pub save_pack_world : World → Deed Unit
save_pack_world w realm =
    let store = realm.store in
    if clean_world store.releases w w.current_release_id
    then (ok tt, record realm { store = record store { worlds = put world_id_of w store.worlds } })
    else (err validation_error, realm)

-- One round of the loop over the rows.
unfoldable pub ensure_world : Universe → PackWorld → SeedPack → (actor : Option ℕ) → Deed World
unfolding find_world
ensure_world universe row seed actor realm =
    (got_world universe row seed actor (find_world row.world_key realm.store.worlds) >>= (λ w.
        if not (w.universe_id == universe.id)
        then raise world_of_another_universe
        else save_pack_world (updated_world row seed w) >> pure (updated_world row seed w)))
      realm

unfoldable pub ensure_worlds :
    Universe → Packs → (actor : Option ℕ) → List PackWorld → Worlds → Deed Worlds
unfolding ensure_world
ensure_worlds universe resolved actor [] worlds = pure worlds
ensure_worlds universe resolved actor (row ∷ rows) worlds =
    or_missing (get_key row.world_key resolved) >>= (λ seed.
      ensure_world universe row seed actor
      >>= (λ w. ensure_worlds universe resolved actor rows (set_key w.key w worlds)))

-- _ensure_universe_worlds
unfoldable pub ensure_universe_worlds :
    UniversePack → Packs → (actor : Option ℕ) → Deed (Universe × Worlds)
unfolding ensure_worlds find_universe has_live_world
ensure_universe_worlds pack resolved actor = atomic (
    (λ realm. got_universe pack actor (find_universe pack.universe_key realm.universes) realm)
    >>= (λ u. prepare_universe pack u >>= (λ universe.
        ensure_worlds universe resolved actor pack.worlds []
        >>= (λ worlds. pure (universe, worlds)))))
