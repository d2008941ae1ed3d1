-- ===== src/Universes/Registry.antt =====
-- backend/konnaxion/worlds/services/universe_packs.py, _ensure_universe_worlds: the registry of a pack's
-- Worlds, and what it leaves as it was.
use konnaxion_worlds.Base.{
  ℕ, ◌≡◌, refl, sym, ◌∙◌, ap, subst, not, Option, none, some, [], ◌∷◌, Text, text_eq, text_eq_iff,
  find, find-put, In-append_right, read-put, arith, get_key, set_key, get_key-set_key, inl, inr,
  Bool-cases, from_option, if◌then◌else◌, ◌==◌,
}
use konnaxion_worlds.Base.Exec.{Result, ok, result_or, pure, raise, ◌>>◌, continue-ok}
use konnaxion_worlds.Models.{Universe, World}
use konnaxion_worlds.Store.{Store, Failure, world_of_another_universe, world_id_of}
use konnaxion_worlds.Seeds.{SeedPack}
use konnaxion_worlds.Serving.{serving, pointer_of}
use konnaxion_worlds.Universes.{PackWorld, Realm, Deed, Worlds}
use konnaxion_worlds.Universes.Ensuring.{
  find_world, new_world, got_world, updated_world, save_pack_world, clean_world, ensure_world,
}
use konnaxion_worlds.Universes.Served.{key_of, key_at}
use konnaxion_worlds.Universes.Ids.{
  Carries, HasIds, appended-HasIds, find_world-In, key-append, pointer-append, saved-HasIds,
}

-- What the registration of one World, and of all, does.
pub record Kept (s t : Realm) : Type 0 where
  pub carries : Carries s.store t.store
  pub ids : HasIds t.store.worlds t.next_world_id

pub Kept-trans : (s t u : Realm) → Kept s t → Kept t u → Kept s u
Kept-trans s t u h k =
    let (a, b, c) = h.carries in
    let (d, e, f) = k.carries in
    record { carries = ((λ i. d i ∙ a i), (λ i key m. e i key (b i key m)), f ∙ c); ids = k.ids }

pub Kept-refl : (s : Realm) → HasIds s.store.worlds s.next_world_id → Kept s s
Kept-refl s v = record { carries = ((λ i. refl), (λ i key m. m), refl); ids = v }

-- The row of a World is in the registry.
abbrev pub Registered : Store → Text → World → Type 0
Registered s key w = (w.key ≡ key) × (find world_id_of w.id s.worlds ≡ some w)

module _ (universe : Universe) (row : PackWorld) (seed : SeedPack) (actor : Option ℕ)
    (realm : Realm) (v : HasIds realm.store.worlds realm.next_world_id) where
  abbrev got : Option World → Result Failure World × Realm
  got o = got_world universe row seed actor o realm

  got_world-Kept :
      (o : Option World)
      → find_world row.world_key realm.store.worlds ≡ o
      → {w : World} → (got o).0 ≡ ok w
      → Kept realm (got o).1 × Registered (got o).1.store row.world_key w
  got_world-Kept none e {w} h =
      let w0 : World = new_world universe row seed actor realm.next_world_id in
      let free = appended-HasIds realm.store.worlds realm.next_world_id v w0 refl in
      subst (λ y. Kept realm (got none).1 × Registered (got none).1.store row.world_key y)
        (ap (result_or w0) h)
        (
          record {
            carries = (
              (λ k. pointer-append k w0 realm.store.worlds refl),
              (λ k key. key-append k w0 realm.store.worlds key),
              refl,
            );
            ids = free;
          },
          (refl, free.0 w0 (In-append_right w0 realm.store.worlds (w0 ∷ []) (inl refl))),
        )
  got_world-Kept (some x) e {w} h =
      let (listed, key) = find_world-In row.world_key realm.store.worlds e in
      subst (λ y. Kept realm realm × Registered realm.store row.world_key y) (ap (result_or x) h)
        (Kept-refl realm v, (key, v.0 x listed))

  save_pack_world-Kept :
      (w u : World)
      → find world_id_of w.id realm.store.worlds ≡ some w
      → u.id ≡ w.id
      → u.key ≡ w.key
      → u.current_release_id ≡ w.current_release_id
      → Kept realm (save_pack_world u realm).1
  save_pack_world-Kept w u found same_id same_key same_release =
      let row_there : find world_id_of u.id realm.store.worlds ≡ some w = rw same_id found in
      elim (Bool-cases (clean_world realm.store.releases u u.current_release_id)) [
        | inr f ↦ rw f (Kept-refl realm v)
        | inl t ↦ rw t (record {
          carries = (
            read-put world_id_of pointer_of u w realm.store.worlds row_there same_release,
            (λ k key e.
                read-put world_id_of key_of u w realm.store.worlds row_there (ap some same_key) k
                ∙ e),
            refl,
          );
          ids = saved-HasIds realm.store.worlds realm.next_world_id v w found u same_id;
        })
      ]

  saved-Registered :
      (w u : World)
      → find world_id_of u.id realm.store.worlds ≡ some w
      → (save_pack_world u realm).0 ≡ ok tt
      → find world_id_of u.id (save_pack_world u realm).1.store.worlds ≡ some u
  saved-Registered w u found h =
      elim (Bool-cases (clean_world realm.store.releases u u.current_release_id)) [
        | inr f ↦ absurd (cc (rw f at h))
        | inl t ↦ rw t (ground (arith, find-put world_id_of u.id u realm.store.worlds, found))
      ]

module _ (universe : Universe) (row : PackWorld) (seed : SeedPack) (actor : Option ℕ) where
  abbrev saved_if_own : World → Deed World
  saved_if_own w =
      if not (w.universe_id == universe.id)
      then raise world_of_another_universe
      else save_pack_world (updated_world row seed w) >> pure (updated_world row seed w)

  saved_if_own-Kept :
      (realm : Realm)
      → HasIds realm.store.worlds realm.next_world_id
      → (w : World) → Registered realm.store row.world_key w
      → {r : World} → (saved_if_own w realm).0 ≡ ok r
      → Kept realm (saved_if_own w realm).1
        × Registered (saved_if_own w realm).1.store row.world_key r
  saved_if_own-Kept realm v w (key, found) {r} h =
      elim (Bool-cases (w.universe_id == universe.id)) [
        | inr f ↦ absurd (cc (rw f at h))
        | inl t ↦
            let u : World = updated_world row seed w in
            let (_, done, same, returned) =
              continue-ok (save_pack_world u realm) (λ _. pure u) (rw t at h) in
            rw t (
              subst (λ x. Kept realm x.1) (sym same)
                  (save_pack_world-Kept universe row seed actor realm v w u found refl refl refl),
              subst (λ x. Registered x.1.store row.world_key r) (sym same)
                  (subst (λ y. Registered (save_pack_world u realm).1.store row.world_key y)
                    (ap (result_or u) returned)
                    (key, saved-Registered universe row seed actor realm v w u found done)),
            )
      ]

  pub ensure_world-Kept :
      (realm : Realm)
      → HasIds realm.store.worlds realm.next_world_id
      → {r : World} → (ensure_world universe row seed actor realm).0 ≡ ok r
      → Kept realm (ensure_world universe row seed actor realm).1
        × Registered (ensure_world universe row seed actor realm).1.store row.world_key r
  unfolding ensure_world
  ensure_world-Kept realm v {r} h =
      let o : Option World = find_world row.world_key realm.store.worlds in
      let (w, done, same, more) =
        continue-ok (got_world universe row seed actor o realm) saved_if_own h in
      let middle : Realm = (got_world universe row seed actor o realm).1 in
      let (kept, row_there) = got_world-Kept universe row seed actor realm v o refl done in
      let (then_kept, now_there) = saved_if_own-Kept middle kept.ids w row_there more in
      subst (λ x. Kept realm x.1 × Registered x.1.store row.world_key r) (sym same)
        (Kept-trans realm middle (saved_if_own w middle).1 kept then_kept, now_there)

-- The Worlds of a dict stand under their keys, and with the release that they serve.
abbrev pub Known : Store → Worlds → Type 0
Known s worlds =
    (key : Text) (w : World)
    → get_key key worlds ≡ some w
    → (w.key ≡ key) × (key_at s w.id ≡ some key) × (serving s w.id ≡ w.current_release_id)

pub Known-carried : (s t : Store) (worlds : Worlds) → Carries s t → Known s worlds → Known t worlds
Known-carried s t worlds (a, b, c) known key w e =
    let (same, there, serves) = known key w e in (same, b w.id key there, a w.id ∙ serves)

pub Known-set :
    (s : Store) (worlds : Worlds) (key : Text) (w : World)
    → Known s worlds
    → Registered s key w
    → Known s (set_key w.key w worlds)
Known-set s worlds key w known (same, row) k x e = elim (Bool-cases (text_eq w.key k)) [
  | inr f ↦ known k x (rw f at (sym (get_key-set_key k w.key w worlds) ∙ e))
  | inl t ↦
      let at_k : w.key ≡ k = (text_eq_iff w.key k).0 t in
      let is_w : ◌≡◌ {A = Option World} (some w) (some x) =
        rw t at (sym (get_key-set_key k w.key w worlds) ∙ e) in
      subst (λ y. (y.key ≡ k) × (key_at s y.id ≡ some k) × (serving s y.id ≡ y.current_release_id))
        (ap (from_option w) is_w) (at_k, rw row (ap some at_k), rw row refl)
]
