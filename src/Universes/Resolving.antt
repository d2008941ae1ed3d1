-- ===== src/Universes/Resolving.antt =====
-- backend/konnaxion/worlds/services/universe_packs.py, _resolve_world_packs: every World of a pack gets the
-- Seed Pack that its row names.
use konnaxion_worlds.Base.{
  ◌≡◌, refl, sym, ◌∙◌, ap, subst, false, Option, none, some, List, [], ◌∷◌, In, Text, text_eq,
  text_eq_refl, get_key, set_key, get_key-set_key, inl, inr, Option-cases,
}
use konnaxion_worlds.Base.Exec.{and_then-ok, ok, result_or}
use konnaxion_worlds.Seeds.{SeedPack}
use konnaxion_worlds.Seeds.Catalog.{SeedPackRow, find_pack, find_row}
use konnaxion_worlds.Universes.{PackWorld, Packs, resolved_as, resolve_world_packs}

-- No two rows of a pack declare one World, as load_universe_pack has made sure.
abbrev pub HasUniqueKeys : List PackWorld → Type 0
HasUniqueKeys [] = Unit
HasUniqueKeys (row ∷ rows) =
    ((other : PackWorld) → In other rows → text_eq other.world_key row.world_key ≡ false)
    × HasUniqueKeys rows

module _ (catalog : List SeedPack) (registered : List SeedPackRow) where
  -- A row resolved: the pack it names is in the catalog, and in the dict.
  abbrev pub Resolved : Packs → PackWorld → Type 0
  Resolved resolved row =
      (seed : SeedPack) × (find_pack row.seed_pack_key row.seed_version catalog ≡ some seed)
      × (get_key row.world_key resolved ≡ some seed)

  resolved_as-ok :
      (row : PackWorld) (resolved : Packs) (o : Option SeedPack) {next : Packs}
      → resolved_as registered resolved row.world_key o ≡ ok next
      → (seed : SeedPack) × (o ≡ some seed) × (next ≡ set_key row.world_key seed resolved)
  resolved_as-ok row resolved none h = absurd cc
  resolved_as-ok row resolved (some seed) h =
      elim (Option-cases (find_row seed.world_key seed.version registered)) [
        | inl e ↦ absurd (cc (rw e at h))
        | inr (found, e) ↦ (seed, refl, sym (ap (result_or resolved) (rw e at h)))
      ]

  -- Later rows leave the other keys alone.
  untouched :
      (key : Text) (rows : List PackWorld) (resolved : Packs) {next : Packs}
      → ((other : PackWorld) → In other rows → text_eq other.world_key key ≡ false)
      → resolve_world_packs catalog registered rows resolved ≡ ok next
      → get_key key next ≡ get_key key resolved
  unfolding resolve_world_packs
  untouched key [] resolved other h = ap (get_key key) (sym (ap (result_or resolved) h))
  untouched key (row ∷ rows) resolved other h =
      let o = find_pack row.seed_pack_key row.seed_version catalog in
      let (middle, one, rest) =
        and_then-ok (resolved_as registered resolved row.world_key o)
          (resolve_world_packs catalog registered rows) h in
      let (seed, found, same) = resolved_as-ok row resolved o one in
      untouched key rows middle (λ x m. other x (inr m)) rest
      ∙ ap (get_key key) same
      ∙ get_key-set_key key row.world_key seed resolved
      ∙ rw (other row (inl refl)) refl

  pub resolve_world_packs-Resolved :
      (rows : List PackWorld) (start : Packs) {resolved : Packs}
      → HasUniqueKeys rows
      → resolve_world_packs catalog registered rows start ≡ ok resolved
      → (row : PackWorld) → In row rows
      → Resolved resolved row
  unfolding resolve_world_packs
  resolve_world_packs-Resolved [] start unique h = λ row m. absurd m
  resolve_world_packs-Resolved (row ∷ rows) start {resolved} (own, unique) h =
      let o = find_pack row.seed_pack_key row.seed_version catalog in
      let (middle, one, rest) =
        and_then-ok (resolved_as registered start row.world_key o)
          (resolve_world_packs catalog registered rows) h in
      let (seed, found, same) = resolved_as-ok row start o one in
      let at_row : get_key row.world_key resolved ≡ some seed =
        untouched row.world_key rows middle own rest
        ∙ ap (get_key row.world_key) same
        ∙ get_key-set_key row.world_key row.world_key seed start
        ∙ rw (text_eq_refl row.world_key) refl in
      λ other m. elim m [
        | inl e ↦ subst (Resolved resolved) e (seed, found, at_row)
        | inr n ↦ resolve_world_packs-Resolved rows middle unique rest other n
      ]
