-- ===== src/Universes/Reconciled.antt =====
-- backend/konnaxion/worlds/services/universe_packs.py, _reconcile_topology_rows: which relations there are
-- afterwards.
use konnaxion_worlds.Base.{
  ◌≡◌, refl, sym, ◌∙◌, ap, subst, Bool, true, false, not, ◌&&◌, some, List, [], ◌∷◌, In, In-keep,
  In-any, any-In, any, keep, get_key, arith, inl, inr, ◌⊎◌, Option-cases, ◌==◌,
}
use konnaxion_worlds.Base.Exec.{ok, result_or, ◌>>=◌, ◌>>◌, continue-ok, settle-ok}
use konnaxion_worlds.Models.{Universe, World}
use konnaxion_worlds.Universes.{WorldRelation, PackRelation, UniversePack, Realm, Deed, Worlds}
use konnaxion_worlds.Universes.Topology.{
  Edge, same_edge, edge_of, upsert, is_managed, desired_relation, put_relation, put_relations,
  stale_relation, drop_relations, put_subscriptions, drop_subscriptions, reconcile_topology,
}
use konnaxion_worlds.Universes.Upserts.{same_edge_iff, upsert-In, upsert-keeps}
use konnaxion_worlds.Universes.Unrelated.{
  bind-IsUnrelated, drop_subscriptions-IsUnrelated, put_subscriptions-IsUnrelated,
}

module _ (pack : UniversePack) (universe : Universe) (worlds : Worlds) where
  -- The pack wants an edge.
  abbrev pub Wants : PackRelation → Edge → Type 0
  Wants row e =
      (s : World) × (t : World) × (get_key row.source worlds ≡ some s)
      × (get_key row.target worlds ≡ some t)
      × (◌≡◌ {A = Edge} (s.id, t.id, row.kind) e)

  abbrev pub Wanted : List PackRelation → Edge → Type 0
  Wanted rows e = (row : PackRelation) × In row rows × Wants row e

  -- The pack keeps a relation with an edge.
  abbrev pub Kept : List WorldRelation → Edge → Type 0
  Kept rs e =
      (x : WorldRelation) × In x rs
      × (x.universe_id ≡ universe.id)
      × (x.managed_by ≡ some pack.universe_key)
      × (edge_of x ≡ e)

  Kept-upsert :
      (r : WorldRelation) (rs : List WorldRelation) (e : Edge)
      → r.universe_id ≡ universe.id
      → r.managed_by ≡ some pack.universe_key
      → Kept rs e
      → Kept (upsert edge_of r rs) e
  Kept-upsert r rs e own managed (x, m, a, b, c) = elim (upsert-keeps r x rs m) [
    | inl n ↦ (x, n, a, b, c)
    | inr same ↦ (r, upsert-In r rs, own, managed, sym same ∙ c)
  ]

  record Put (rows : List PackRelation) (desired es : List Edge) (before after : List WorldRelation)
      : Type 0 where
    pub others : (x : WorldRelation) → In x before → (Wanted rows (edge_of x) → ⊥) → In x after
    pub known : (e : Edge) → In e es → In e desired ⊎ Wanted rows e
    pub longer : (e : Edge) → In e desired → In e es
    pub still : (e : Edge) → Kept before e → Kept after e
    pub placed :
        (row : PackRelation) → In row rows → (e : Edge) × Wants row e × In e es × Kept after e

  put_relation-upsert :
      (s t : World) (r : WorldRelation) (realm : Realm)
      → (put_relation s t r realm).0 ≡ ok tt
      → (put_relation s t r realm).1.relations ≡ upsert edge_of r realm.relations
  unfolding put_relation
  put_relation-upsert s t r realm h = ground arith

  one_more_row :
      (row : PackRelation) (rows : List PackRelation) (desired es : List Edge) (s t : World)
      (before after : List WorldRelation)
      → get_key row.source worlds ≡ some s
      → get_key row.target worlds ≡ some t
      → Put rows
          ((s.id, t.id, row.kind) ∷ desired)
          es
          (upsert edge_of (desired_relation pack universe row s t) before)
          after
      → Put (row ∷ rows) desired es before after
  one_more_row row rows desired es s t before after es_s es_t p =
      let r : WorldRelation = desired_relation pack universe row s t in
      let own : Wants row (edge_of r) = (s, t, es_s, es_t, refl) in
      record {
        others = λ x m free. elim (upsert-keeps r x before m) [
          | inl n ↦ p.others x n (λ (other, k, w). free (other, inr k, w))
          | inr same ↦ absurd (free (row, inl refl, subst (Wants row) (sym same) own))
        ];
        known = λ e m. elim (p.known e m) [
          | inl (inl same) ↦ inr (row, inl refl, subst (Wants row) same own)
          | inl (inr n) ↦ inl n
          | inr (other, n, w) ↦ inr (other, inr n, w)
        ];
        longer = λ e m. p.longer e (inr m);
        still = λ e k. p.still e (Kept-upsert r before e refl refl k);
        placed = λ other m. elim m [
          | inl same ↦
              subst (λ (x : PackRelation). (e : Edge) × Wants x e × In e es × Kept after e) same
                (
                  edge_of r,
                  own,
                  p.longer (edge_of r) (inl refl),
                  p.still (edge_of r) (r, upsert-In r before, refl, refl, refl),
                )
          | inr n ↦ p.placed other n
        ];
      }

  put_relations-Put :
      (rows : List PackRelation) (desired : List Edge) (realm : Realm) {es : List Edge}
      → (put_relations pack universe worlds rows desired realm).0 ≡ ok es
      → Put rows desired es realm.relations
          (put_relations pack universe worlds rows desired realm).1.relations
  unfolding put_relations
  put_relations-Put [] desired realm {es} h =
      subst (λ ds. Put [] desired ds realm.relations realm.relations) (ap (result_or desired) h)
        (record {
          others = λ x m free. m;
          known = λ e m. inl m;
          longer = λ e m. m;
          still = λ e k. k;
          placed = λ row m. absurd m;
        })
  put_relations-Put (row ∷ rows) desired realm {es} h =
      elim (Option-cases (get_key row.source worlds)) [
        | inl e ↦ absurd (cc (rw e at h))
        | inr (s, es_s) ↦ elim (Option-cases (get_key row.target worlds)) [
          | inl e ↦ absurd (cc (rw (es_s, e) at h))
          | inr (t, es_t) ↦
              let r : WorldRelation = desired_relation pack universe row s t in
              let rest : Deed (List Edge) =
                put_relations pack universe worlds rows (edge_of r ∷ desired) in
              let (_, done, same, more) =
                continue-ok (put_relation s t r realm) (λ _. rest) (rw (es_s, es_t) at h) in
              let next : Realm = (put_relation s t r realm).1 in
              rw (es_s, es_t)
                (subst (λ x. Put (row ∷ rows) desired es realm.relations x.1.relations) (sym same)
                  (one_more_row row rows desired es s t realm.relations (rest next).1.relations es_s
                    es_t
                    (subst (λ rs. Put rows (edge_of r ∷ desired) es rs (rest next).1.relations)
                      (put_relation-upsert s t r realm done)
                      (put_relations-Put rows (edge_of r ∷ desired) next more))))
        ]
      ]

  -- A relation that carries the pack's marker.
  abbrev pub is_ours : WorldRelation → Bool
  is_ours x = x.universe_id == universe.id && is_managed pack.universe_key x.managed_by

  -- The relations that a reconciliation leaves: every relation of the pack is there, nothing else in the
  -- Universe carries the pack's marker, and the relations of others that the pack does not claim stay.
  pub record IsReconciled (before after : List WorldRelation) : Type 0 where
    pub present :
        (row : PackRelation) → In row pack.relations → (e : Edge) × Wants row e × Kept after e
    pub only :
        (x : WorldRelation) → In x after → is_ours x ≡ true → Wanted pack.relations (edge_of x)
    pub others :
        (x : WorldRelation)
        → In x before
        → is_ours x ≡ false
        → (Wanted pack.relations (edge_of x) → ⊥)
        → In x after

  stale_free :
      (es : List Edge) (x : WorldRelation)
      → is_ours x ≡ false
      → not (stale_relation pack.universe_key universe es x) ≡ true
  unfolding stale_relation
  stale_free es x h = ground (arith, h)

  edge_stays :
      (es : List Edge) (x : WorldRelation)
      → In (edge_of x) es
      → not (stale_relation pack.universe_key universe es x) ≡ true
  unfolding stale_relation
  edge_stays es x m =
      let found =
        In-any (same_edge (edge_of x)) (edge_of x) es m
          ((same_edge_iff (edge_of x) (edge_of x)).1 refl) in
      ground (arith, found)

  stayed :
      (es : List Edge) (x : WorldRelation)
      → is_ours x ≡ true
      → not (stale_relation pack.universe_key universe es x) ≡ true
      → any (same_edge (edge_of x)) es ≡ true
  unfolding stale_relation
  stayed es x ours h = ground (arith, ours, h)

  dropped-IsReconciled :
      (es : List Edge) (before middle : List WorldRelation)
      → Put pack.relations [] es before middle
      → IsReconciled before
          (keep (λ x. not (stale_relation pack.universe_key universe es x)) middle)
  dropped-IsReconciled es before middle p =
      let fine : WorldRelation → Bool = λ x. not (stale_relation pack.universe_key universe es x) in
      record {
        present = λ row m.
            let (e, w, listed, (x, there, own, managed, at)) = p.placed row m in
            let here : In (edge_of x) es = subst (λ f. In f es) (sym at) listed in
            (e, w, (x, (In-keep fine x middle).1 (there, edge_stays es x here), own, managed, at));
        only = λ x m ours.
            let (there, fresh) = (In-keep fine x middle).0 m in
            let (e, listed, same) = any-In (same_edge (edge_of x)) es (stayed es x ours fresh) in
            elim (p.known e listed) [
              | inl n ↦ absurd n
              | inr w ↦ subst (Wanted pack.relations) (sym ((same_edge_iff (edge_of x) e).0 same)) w
            ];
        others =
            λ x m ours free. (In-keep fine x middle).1 (p.others x m free, stale_free es x ours);
      }

  drop_relations-IsReconciled :
      (es : List Edge) (before : List WorldRelation) (realm : Realm)
      → Put pack.relations [] es before realm.relations
      → IsReconciled before (drop_relations pack universe es realm).1.relations
  unfolding drop_relations
  drop_relations-IsReconciled es before realm p = dropped-IsReconciled es before realm.relations p

  -- A reconciliation that returns leaves exactly the relations that it should: every relation of the pack
  -- is there, in its Universe and with the marker of the pack; every relation of the Universe with that
  -- marker is one that the pack declares; and any other relation stays, unless the pack declares its edge.
  pub reconcile_topology-IsReconciled :
      (realm : Realm)
      → (reconcile_topology pack universe worlds realm).0 ≡ ok tt
      → IsReconciled realm.relations (reconcile_topology pack universe worlds realm).1.relations
  unfolding reconcile_topology
  reconcile_topology-IsReconciled realm h =
      let puts : Deed (List Edge) = put_relations pack universe worlds pack.relations [] in
      let drops : List Edge → Deed Unit = drop_relations pack universe in
      let arcs : Deed (List Edge) = put_subscriptions pack worlds pack.subscriptions [] in
      let rest : Deed Unit = arcs >>= drop_subscriptions pack universe in
      let settled = settle-ok realm (((puts >>= drops) >> rest) realm) h in
      let (_, first, same, _) =
        continue-ok ((puts >>= drops) realm) (λ _. rest) (ap (λ x. x.0) (sym settled) ∙ h) in
      let (es, put_all, dropped, _) = continue-ok (puts realm) drops first in
      let middle : Realm = ((puts >>= drops) realm).1 in
      let unrelated : (rest middle).1.relations ≡ middle.relations =
        bind-IsUnrelated arcs (drop_subscriptions pack universe)
          (put_subscriptions-IsUnrelated pack worlds pack.subscriptions [])
          (drop_subscriptions-IsUnrelated pack universe) middle in
      subst (IsReconciled realm.relations)
        (sym
          (ap (λ x. x.1.relations) (settled ∙ same) ∙ unrelated ∙ ap (λ x. x.1.relations) dropped))
        (drop_relations-IsReconciled es realm.relations (puts realm).1
          (put_relations-Put pack.relations [] realm put_all))
