-- ===== src/Namespaces/Documents.antt =====
-- Filters and documents of a search index name the active release.
use konnaxion_worlds.Base.{
  ℕ, ◌≡◌, inl, inr, refl, ap, ◌∙◌, Bool, true, false, Option, some, List, [], ◌∷◌, Text, codes,
  text_eq, text_eq_iff, text_eq_refl, get_key, set_key, get_key-set_key, if◌then◌else◌,
  Option-cases, Bool-cases, arith,
}
use konnaxion_worlds.Base.Exec.{Result-cases, ok}
use konnaxion_worlds.Access.{WorldRuntime}
use konnaxion_worlds.Scope.{Session}
use konnaxion_worlds.Namespaces.Services.{
  unlike, pin_filter, enforce_filter, stamp_all, provenance, pinned_runtime,
  stamp_world_search_document,
}

differ : text_eq (codes "release_id") (codes "world_id") ≡ false
unfolding text_eq
differ = refl

differ_back : text_eq (codes "world_id") (codes "release_id") ≡ false
unfolding text_eq
differ_back = refl

module _ {V : Type 0} (of_number : ℕ → V) (equals_number : V → ℕ → Option Bool) where
  pin_filter_lem :
      (key : Text) (expected : ℕ) (before out : List (Text × V))
      → pin_filter of_number equals_number key expected before ≡ ok out
      → (out ≡ set_key key (of_number expected) before)
        × ((v : V) → get_key key before ≡ some v → equals_number v expected ≡ some true)
  unfolding pin_filter
  pin_filter_lem key expected before out e = elim (Option-cases (get_key key before)) [
    | inl new ↦ (ground (arith, e, new), (λ v h. absurd (ground (arith, h, new))))
    | inr (u, old) ↦ elim (Option-cases (equals_number u expected)) [
      | inl bad ↦ absurd (ground (arith, e, old, bad))
      | inr (true, same) ↦ (ground (arith, e, old, same), (λ v h. ground (arith, h, old, same)))
      | inr (false, other) ↦ absurd (ground (arith, e, old, other))
    ]
  ]

  pub record IsPinned (rt : WorldRuntime) (filters out : List (Text × V)) : Type 0 where
    pub world : get_key (codes "world_id") out ≡ some (of_number rt.world_id)
    pub release : get_key (codes "release_id") out ≡ some (of_number rt.release_id)
    pub others :
        (key : Text)
        → text_eq (codes "world_id") key ≡ false
        → text_eq (codes "release_id") key ≡ false
        → get_key key out ≡ get_key key filters
    pub agreed_world :
        (v : V)
        → get_key (codes "world_id") filters ≡ some v
        → equals_number v rt.world_id ≡ some true
    pub agreed_release :
        (v : V)
        → get_key (codes "release_id") filters ≡ some v
        → equals_number v rt.release_id ≡ some true

  -- Where enforce_world_search_filter returns a filter, it has the World and the release of the runtime,
  -- every other entry is as it was given, and what was given for these two agreed with them.
  pub enforce_filter-IsPinned :
      (rt : WorldRuntime) (filters out : List (Text × V))
      → enforce_filter of_number equals_number filters rt ≡ ok out
      → IsPinned rt filters out
  unfolding enforce_filter
  enforce_filter-IsPinned rt filters out e =
      elim (Result-cases
        (pin_filter of_number equals_number (codes "world_id") rt.world_id filters)) [
          | inr (f, bad) ↦ absurd (ground (arith, e, bad))
          | inl (mid, first) ↦
              let w = codes "world_id" in
              let r = codes "release_id" in
              let next : pin_filter of_number equals_number r rt.release_id mid ≡ ok out =
                ground (arith, e, first) in
              let (mid_is, given_world) = pin_filter_lem w rt.world_id filters mid first in
              let (out_is, given_release) = pin_filter_lem r rt.release_id mid out next in
              let value_w = of_number rt.world_id in
              let value_r = of_number rt.release_id in
              let at_out = λ (k : Text). ap (get_key k) out_is ∙ get_key-set_key k r value_r mid in
              let at_mid =
                λ (k : Text). ap (get_key k) mid_is ∙ get_key-set_key k w value_w filters in
              record {
                world = at_out w ∙ ground (arith, differ, at_mid w, text_eq_refl w);
                release = at_out r ∙ ground (arith, text_eq_refl r);
                others = λ key nw nr. at_out key ∙ ground (arith, nr, nw, at_mid key);
                agreed_world = given_world;
                agreed_release = λ v h. given_release v (at_mid r ∙ ground (arith, differ_back, h));
              }
        ]

module _ {V : Type 0} (str : V → Text) where
  abbrev overlay : Text → List (Text × V) → Option V → Option V
  overlay k [] d = d
  overlay k ((l, v) ∷ rest) d = overlay k rest (if text_eq l k then some v else d)

  stamp_all-overlay :
      (pairs document out : List (Text × V))
      → stamp_all str pairs document ≡ ok out
      → (k : Text) → get_key k out ≡ overlay k pairs (get_key k document)
  unfolding stamp_all
  stamp_all-overlay [] document out e k = ground (arith, e)
  stamp_all-overlay ((l, v) ∷ rest) document out e k =
      elim (Bool-cases (unlike str v (get_key l document))) [
        | inl bad ↦ absurd (ground (arith, e, bad))
        | inr fine ↦
            stamp_all-overlay rest (set_key l v document) out (ground (arith, e, fine)) k
            ∙ ap (overlay k rest) (get_key-set_key k l v document)
      ]

  head_agrees :
      (l : Text) (v : V) (rest document out : List (Text × V))
      → stamp_all str ((l, v) ∷ rest) document ≡ ok out
      → (stamp_all str rest (set_key l v document) ≡ ok out)
        × ((u : V) → get_key l document ≡ some u → str u ≡ str v)
  unfolding stamp_all
  head_agrees l v rest document out e = elim (Option-cases (get_key l document)) [
    | inl new ↦ (ground (arith, e, new), (λ u h. absurd (ground (arith, h, new))))
    | inr (u, old) ↦ elim (Bool-cases (text_eq (str u) (str v))) [
      | inl same ↦ (
        ground (arith, e, old, same),
        (λ x h. ground (arith, h, old, (text_eq_iff (str u) (str v)).0 same)),
      )
      | inr other ↦ absurd (ground (arith, e, old, other))
    ]
  ]

  release_kept :
      (v : V) (document : List (Text × V))
      → get_key (codes "release_id") (set_key (codes "world_id") v document)
        ≡ get_key (codes "release_id") document
  release_kept v document =
      get_key-set_key (codes "release_id") (codes "world_id") v document
      ∙ ground (arith, differ_back)

  pub record IsStamped (of_number : ℕ → V) (rt : WorldRuntime) (document out : List (Text × V))
      : Type 0 where
    pub world_entry : get_key (codes "world_id") out ≡ some (of_number rt.world_id)
    pub release_entry : get_key (codes "release_id") out ≡ some (of_number rt.release_id)
    pub own_world :
        (u : V) → get_key (codes "world_id") document ≡ some u → str u ≡ str (of_number rt.world_id)
    pub own_release :
        (u : V)
        → get_key (codes "release_id") document ≡ some u
        → str u ≡ str (of_number rt.release_id)

  -- Where stamp_world_search_document returns a document for a runtime, it has the World and the release of
  -- the runtime, and what was given for these two reads the same.
  pub stamp_world_search_document-IsStamped :
      {D : Type 0} (of_number : ℕ → V) (of_text : Text → V) (source_type source_id : Text)
      (rt : WorldRuntime) (document out : List (Text × V)) (s : Session D)
      → (stamp_world_search_document str of_number of_text document source_type source_id
          (some rt)
          s).0
        ≡ ok out
      → IsStamped of_number rt document out
  unfolding stamp_world_search_document pinned_runtime provenance text_eq
  stamp_world_search_document-IsStamped of_number of_text source_type source_id rt document out s
        e =
      let w = codes "world_id" in
      let r = codes "release_id" in
      let rest =
        (codes "source_type", of_text source_type) ∷ (codes "source_id", of_text source_id) ∷ [] in
      let all = (w, of_number rt.world_id) ∷ (r, of_number rt.release_id) ∷ rest in
      let overlaid = stamp_all-overlay all document out e in
      let (e', first) =
        head_agrees w (of_number rt.world_id) ((r, of_number rt.release_id) ∷ rest) document out
          e in
      let (e'', second) =
        head_agrees r (of_number rt.release_id) rest (set_key w (of_number rt.world_id) document)
          out e' in
      record {
        world_entry = overlaid w;
        release_entry = overlaid r;
        own_world = first;
        own_release = λ u h. second u (release_kept (of_number rt.world_id) document ∙ h);
      }
