-- ===== src/Universes/LoadedRelations.antt =====
-- backend/konnaxion/worlds/services/universe_packs.py, load_universe_pack: the relations and subscriptions of
-- a loaded pack.
use konnaxion_worlds.Base.{
  ◌≡◌, ap, subst, true, false, Option, none, some, List, [], ◌∷◌, In, Text, codes, text_eq, any,
  arith, inl, inr,
}
use konnaxion_worlds.Base.Exec.{ok, result_or, and_then-ok}
use konnaxion_worlds.Base.Regex.{strip, or_else}
use konnaxion_worlds.Namespaces.{is_space}
use konnaxion_worlds.Seeds.{member, is_blank}
use konnaxion_worlds.Universes.{PackRelation, PackSubscription}
use konnaxion_worlds.Universes.Manifest.{
  RawRelation, RawSubscription, UniverseFiles, Identity, same_identity, seen_before, identity_of,
  subscribed_of, checked_relation, checked_subscription, relation_types, subscription_statuses,
}
use konnaxion_worlds.Universes.Loading.{
  slug, load_relation, load_relations, load_subscription, load_subscriptions,
}

-- No identity comes twice.
abbrev pub NoRepeat : {R : Type 0} → (R → Identity) → List R → Type 0
NoRepeat identity [] = Unit
NoRepeat identity (r ∷ rs) =
    ((other : _) → In other rs → same_identity (identity other) (identity r) ≡ false)
    × NoRepeat identity rs

-- A relation of a pack connects two of its Worlds.
abbrev pub Connects : List Text → PackRelation → Type 0
Connects keys r =
    (member r.source keys ≡ true)
    × (member r.target keys ≡ true)
    × (text_eq r.source r.target ≡ false)
    × (member r.kind relation_types ≡ true)

abbrev pub Subscribes : List Text → PackSubscription → Type 0
Subscribes keys r =
    (member r.consumer keys ≡ true)
    × (member r.source keys ≡ true)
    × (text_eq r.consumer r.source ≡ false)
    × (is_blank r.publication_type ≡ false)
    × (member r.status subscription_statuses ≡ true)

unseen :
    (i j : Identity) (seen : List Identity)
    → seen_before i (j ∷ seen) ≡ false
    → (same_identity i j ≡ false) × (seen_before i seen ≡ false)
unfolding any
unseen i j seen h = ground arith

checked_relation-Connects :
    (keys : List Text) (seen : List Identity) (r : PackRelation) {x : PackRelation}
    → checked_relation keys seen r ≡ ok x
    → (seen_before (identity_of x) seen ≡ false) × Connects keys x
checked_relation-Connects keys seen r {x} h = ground arith

checked_subscription-Subscribes :
    (keys : List Text) (seen : List Identity) (r : PackSubscription) {x : PackSubscription}
    → checked_subscription keys seen r ≡ ok x
    → (seen_before (subscribed_of x) seen ≡ false) × Subscribes keys x
checked_subscription-Subscribes keys seen r {x} h = ground arith

module _ (files : UniverseFiles) (keys : List Text) where
  abbrev Related : List Identity → List PackRelation → Type 0
  Related seen rs =
      NoRepeat identity_of rs
      × ((r : PackRelation)
          → In r rs
          → (seen_before (identity_of r) seen ≡ false) × Connects keys r)

  load_relation-Connects :
      (seen : List Identity) (raw : Option RawRelation) {r : PackRelation}
      → load_relation files keys seen raw ≡ ok r
      → (seen_before (identity_of r) seen ≡ false) × Connects keys r
  load_relation-Connects seen none h = absurd cc
  load_relation-Connects seen (some raw) h =
      let (source, _, rest) = and_then-ok (slug files raw.source) _ h in
      let (target, _, last) = and_then-ok (slug files raw.target) _ rest in
      checked_relation-Connects keys seen
        (record {
          source = source;
          target = target;
          kind = strip is_space raw.kind;
          title = raw.title;
        })
        last

  pub load_relations-Related :
      (seen : List Identity) (raws : List (Option RawRelation)) {rs : List PackRelation}
      → load_relations files keys seen raws ≡ ok rs
      → Related seen rs
  unfolding load_relations
  load_relations-Related seen [] h =
      subst (Related seen) (ap (result_or []) h) (tt, (λ r m. absurd m))
  load_relations-Related seen (raw ∷ rest) h =
      let (r, one, more) = and_then-ok (load_relation files keys seen raw) _ h in
      let (rs, others, all) =
        and_then-ok (load_relations files keys (identity_of r ∷ seen) rest) (λ rs. ok (r ∷ rs))
          more in
      let (unique, each) = load_relations-Related (identity_of r ∷ seen) rest others in
      subst (Related seen) (ap (result_or []) all) (
        ((λ other m. (unseen (identity_of other) (identity_of r) seen (each other m).0).0), unique),
        (λ x m. elim m [
          | inl e ↦
              subst (λ y. (seen_before (identity_of y) seen ≡ false) × Connects keys y) e
                (load_relation-Connects seen raw one)
          | inr n ↦ ((unseen (identity_of x) (identity_of r) seen (each x n).0).1, (each x n).1)
        ]),
      )

  abbrev Subscribed : List Identity → List PackSubscription → Type 0
  Subscribed seen rs =
      NoRepeat subscribed_of rs
      × ((r : PackSubscription)
          → In r rs
          → (seen_before (subscribed_of r) seen ≡ false) × Subscribes keys r)

  load_subscription-Subscribes :
      (seen : List Identity) (raw : Option RawSubscription) {r : PackSubscription}
      → load_subscription files keys seen raw ≡ ok r
      → (seen_before (subscribed_of r) seen ≡ false) × Subscribes keys r
  load_subscription-Subscribes seen none h = absurd cc
  load_subscription-Subscribes seen (some raw) h =
      let (consumer, _, rest) = and_then-ok (slug files raw.consumer) _ h in
      let (source, _, last) = and_then-ok (slug files raw.source) _ rest in
      checked_subscription-Subscribes keys seen
        (record {
          consumer = consumer;
          source = source;
          publication_type = strip is_space raw.publication_type;
          status = files.lower (strip is_space (or_else raw.status (codes "active")));
        })
        last

  pub load_subscriptions-Subscribed :
      (seen : List Identity) (raws : List (Option RawSubscription)) {rs : List PackSubscription}
      → load_subscriptions files keys seen raws ≡ ok rs
      → Subscribed seen rs
  unfolding load_subscriptions
  load_subscriptions-Subscribed seen [] h =
      subst (Subscribed seen) (ap (result_or []) h) (tt, (λ r m. absurd m))
  load_subscriptions-Subscribed seen (raw ∷ rest) h =
      let (r, one, more) = and_then-ok (load_subscription files keys seen raw) _ h in
      let (rs, others, all) =
        and_then-ok (load_subscriptions files keys (subscribed_of r ∷ seen) rest)
          (λ rs. ok (r ∷ rs)) more in
      let (unique, each) = load_subscriptions-Subscribed (subscribed_of r ∷ seen) rest others in
      subst (Subscribed seen) (ap (result_or []) all) (
        (
          (λ other m. (unseen (subscribed_of other) (subscribed_of r) seen (each other m).0).0),
          unique,
        ),
        (λ x m. elim m [
          | inl e ↦
              subst (λ y. (seen_before (subscribed_of y) seen ≡ false) × Subscribes keys y) e
                (load_subscription-Subscribes seen raw one)
          | inr n ↦ ((unseen (subscribed_of x) (subscribed_of r) seen (each x n).0).1, (each x n).1)
        ]),
      )
