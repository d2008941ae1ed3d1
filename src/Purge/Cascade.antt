-- ===== src/Purge/Cascade.antt =====
-- What deleting the row of a release does to the pointers of the Worlds and to the other releases.
use konnaxion_worlds.Base.{
  ℕ, ◌≡◌, ◌≢◌, refl, ap, sym, ◌∙◌, false, Option, none, some, List, [], ◌∷◌, In, find, remove, map,
  arith, ◌==◌, inl, inr, if◌then◌else◌,
}
use konnaxion_worlds.Models.{World, WorldRelease}
use konnaxion_worlds.Store.{world_id_of, release_id_of}
use konnaxion_worlds.Purge.{forget_parent, forget_current}
use konnaxion_worlds.Releases.Consistency.{Pointers}

module _ {A : Type 0} where
  In-map : (f : A → A) (b : A) (xs : List A) → In b (map f xs) → (a : A) × In a xs × (f a ≡ b)
  In-map f b [] m = elim m [ ]
  In-map f b (x ∷ xs) (inl e) = (x, inl (λ i. x), e)
  In-map f b (x ∷ xs) (inr m) = let (a, n, e) = In-map f b xs m in (a, inr n, e)

  In-remove :
      (id : A → ℕ) (i : ℕ) (a : A) (xs : List A) → In a (remove id i xs) → In a xs × (id a ≢ i)
  unfolding remove
  In-remove id i a [] m = elim m [ ]
  In-remove id i a (x ∷ xs) m = ground (arith, In-remove id i a xs)

-- The release `j` once the release `i` is gone: its parent is forgotten if that was `i`.
abbrev pub left_over : (i j : ℕ) → Option WorldRelease → Option WorldRelease
left_over i j none = none
left_over i j (some r) = if j == i then none else some (forget_parent i r)

pub find-cascade :
    (i j : ℕ) (releases : List WorldRelease)
    → find release_id_of j (map (forget_parent i) (remove release_id_of i releases))
      ≡ left_over i j (find release_id_of j releases)
unfolding find remove
find-cascade i j [] = ground arith
find-cascade i j (r ∷ rs) = ground (arith, find-cascade i j rs)

module _ {worlds : List World} {releases : List WorldRelease} (v : Pointers worlds releases)
    (i : ℕ) where
  still_pointed :
      (w : World) (j : ℕ)
      → (forget_current i w).current_release_id ≡ some j
      → (w.current_release_id ≡ some j) × ((j == i) ≡ false) × ((forget_current i w).id ≡ w.id)
  still_pointed w j h = ground arith

  still_marked :
      (w : World) (r : WorldRelease)
      → r.id ≢ i
      → w.current_release_id ≡ some r.id
      → (forget_current i w).current_release_id ≡ some (forget_parent i r).id
  still_marked w r other h = ground arith

  same_world : (w : World) → (forget_current i w).id ≡ w.id
  same_world w = ground arith

  same_release :
      (r : WorldRelease)
      → ((forget_parent i r).world_id ≡ r.world_id)
        × ((forget_parent i r).status ≡ r.status)
        × ((forget_parent i r).id ≡ r.id)
  same_release r = ground arith

  pub cascade-Pointers :
      Pointers
        (map (forget_current i) worlds)
        (map (forget_parent i) (remove release_id_of i releases))
  cascade-Pointers = record {
    pointed = λ w j m h.
        let (w0, m0, e) = In-map (forget_current i) w worlds m in
        let (p0, other, _) = still_pointed w0 j (ap (λ x. x.current_release_id) e ∙ h) in
        let (r, found, own, cur) = v.pointed w0 j m0 p0 in
        let (own', cur', _) = same_release r in
        (
          forget_parent i r,
          find-cascade i j releases ∙ rw (found, other) refl,
          own' ∙ own ∙ sym (same_world w0) ∙ ap world_id_of e,
          cur' ∙ cur,
        );
    marked = λ w r m n own cur.
        let (w0, m0, e) = In-map (forget_current i) w worlds m in
        let (r0, n0, f) = In-map (forget_parent i) r (remove release_id_of i releases) n in
        let (n1, other) = In-remove release_id_of i r0 releases n0 in
        let (own', cur', _) = same_release r0 in
        let points =
          v.marked w0 r0 m0 n1
            (sym own' ∙ ap (λ x. x.world_id) f ∙ own ∙ sym (ap world_id_of e) ∙ same_world w0)
            (sym cur' ∙ ap (λ x. x.status) f ∙ cur) in
        sym (ap (λ x. x.current_release_id) e)
        ∙ still_marked w0 r0 other points
        ∙ ap (λ x. some x.id) f;
  }
