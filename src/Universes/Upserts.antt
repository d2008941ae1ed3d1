-- ===== src/Universes/Upserts.antt =====
-- backend/konnaxion/worlds/services/universe_packs.py, _reconcile_topology_rows: update_or_create on relations.
use konnaxion_worlds.Base.{
  ◌≡◌, refl, sym, ◌∙◌, ap, subst, true, List, [], ◌∷◌, In, text_eq_iff, text_eq_refl, arith, inl,
  inr, ◌⊎◌, ◌↔◌, Bool-cases, ==_iff, ==_refl,
}
use konnaxion_worlds.Universes.{WorldRelation}
use konnaxion_worlds.Universes.Topology.{Edge, same_edge, edge_of, upsert}

pub same_edge_iff : (e f : Edge) → (same_edge e f ≡ true) ↔ (e ≡ f)
unfolding same_edge
same_edge_iff (a, b, t) (c, d, u) = (
  (λ h.
      let kinds : t ≡ u = (text_eq_iff t u).0 (ground (arith, h)) in
      let sources : a ≡ c = (==_iff a c).0 (ground (arith, h)) in
      let targets : b ≡ d = (==_iff b d).0 (ground (arith, h)) in
      rw (kinds, sources, targets) refl),
  (λ e.
      subst (λ f. same_edge (a, b, t) f ≡ true) e
        (ground (arith, ==_refl a, ==_refl b, text_eq_refl t))),
)

-- Upserts, by the rows that are there.
pub upsert-In : (r : WorldRelation) (xs : List WorldRelation) → In r (upsert edge_of r xs)
unfolding upsert
upsert-In r [] = inl refl
upsert-In r (x ∷ xs) = elim (Bool-cases (same_edge (edge_of x) (edge_of r))) [
  | inl t ↦ rw t (inl refl)
  | inr f ↦ rw f (inr (upsert-In r xs))
]

pub upsert-keeps :
    (r y : WorldRelation) (xs : List WorldRelation)
    → In y xs
    → In y (upsert edge_of r xs) ⊎ (edge_of y ≡ edge_of r)
unfolding upsert
upsert-keeps r y [] m = absurd m
upsert-keeps r y (x ∷ xs) (inl e) = elim (Bool-cases (same_edge (edge_of x) (edge_of r))) [
  | inl t ↦ inr (ap edge_of (sym e) ∙ (same_edge_iff (edge_of x) (edge_of r)).0 t)
  | inr f ↦ rw f (inl (inl e))
]
upsert-keeps r y (x ∷ xs) (inr m) = elim (Bool-cases (same_edge (edge_of x) (edge_of r))) [
  | inl t ↦ rw t (inl (inr m))
  | inr f ↦ elim (upsert-keeps r y xs m) [ inl n ↦ rw f (inl (inr n)) | inr e ↦ inr e ]
]
