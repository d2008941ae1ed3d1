-- ===== src/Releases/Numbering.antt =====
-- Release numbers, and what a created release record is.
use konnaxion_worlds.Base.{
  ℕ, ◌≤◌, ◌<◌, ◌≡◌, ◌≢◌, refl, ap, true, false, suc, sym, ◌∙◌, subst, Option, none, some, List, [],
  ◌∷◌, ◌++◌, arith, Text, text_eq, text_eq_iff, find, find-In, In-any, In, inl, inr, Bool-cases,
  Option-cases,
}
use konnaxion_worlds.Base.Exec.{ok, result_or}
use konnaxion_worlds.Models.{World, WorldRelease, ReleaseStatus}
use konnaxion_worlds.Naming.{TextLibrary}
use konnaxion_worlds.Store.{Store, clashes, get_world, breaks_uniqueness, world_id_of}
use konnaxion_worlds.Releases.{
  max_number, next_release_number, SeedPackRecord, new_release, create_release_record,
}

pub release_number-le-max :
    (w : ℕ) (releases : List WorldRelease) (r : WorldRelease)
    → In r releases
    → r.world_id ≡ w
    → r.release_number ≤ max_number w releases
unfolding max_number
release_number-le-max w [] r m e = elim m [ ]
release_number-le-max w (x ∷ xs) r (inl here) e = ground arith
release_number-le-max w (x ∷ xs) r (inr later) e =
    ground (arith, release_number-le-max w xs r later e)

-- The row is new to the table in every way that a constraint of WorldRelease asks for.
pub record IsFresh (r : WorldRelease) (releases : List WorldRelease) : Type 0 where
  pub number :
      (x : WorldRelease)
      → In x releases
      → x.world_id ≡ r.world_id
      → x.release_number < r.release_number
  pub domain_unused : (x : WorldRelease) → In x releases → x.domain_schema ≢ r.domain_schema
  pub ekoh_unused : (x : WorldRelease) → In x releases → x.ekoh_schema ≢ r.ekoh_schema
  pub distinct : r.domain_schema ≢ r.ekoh_schema

unique_texts :
    (r : WorldRelease) (releases : List WorldRelease)
    → breaks_uniqueness r releases ≡ false
    → ((x : WorldRelease) → In x releases → x.domain_schema ≢ r.domain_schema)
      × ((x : WorldRelease) → In x releases → x.ekoh_schema ≢ r.ekoh_schema)
      × (r.domain_schema ≢ r.ekoh_schema)
unfolding breaks_uniqueness
unique_texts r releases h = (
  (λ x m e. clash x m (rw (same e) (ground arith))),
  (λ x m e. clash x m (rw (same e) (ground arith))),
  (λ e. ground (arith, same e)),
)
  where
    same : {s t : Text} → s ≡ t → text_eq s t ≡ true
    same {s} {t} e = (text_eq_iff s t).1 e

    clash : (x : WorldRelease) → In x releases → clashes r x ≡ true → ⊥
    clash x m t = ground (arith, In-any (clashes r) x releases m t)

module _ (lib : TextLibrary) (now : ℕ) (world : World) (pack : SeedPackRecord) (parent : Option ℕ)
    (reason : Text) (s : Store) where
  abbrev made : World → WorldRelease
  made locked =
      new_release lib now s.next_release_id locked (next_release_number locked.id s.releases) pack
        parent reason

  refused_without_world :
      {r : WorldRelease}
      → find world_id_of world.id s.worlds ≡ none
      → (create_release_record lib now world pack parent reason s).0 ≢ ok r
  unfolding create_release_record get_world
  refused_without_world e h = ground arith

  refused_clash :
      (locked : World) {r : WorldRelease}
      → find world_id_of world.id s.worlds ≡ some locked
      → breaks_uniqueness (made locked) s.releases ≡ true
      → (create_release_record lib now world pack parent reason s).0 ≢ ok r
  unfolding create_release_record get_world
  refused_clash locked e b h = absurd (cc (rw (e, b) at h))

  created :
      (locked : World)
      → find world_id_of world.id s.worlds ≡ some locked
      → breaks_uniqueness (made locked) s.releases ≡ false
      → create_release_record lib now world pack parent reason s ≡ (
        ok (made locked),
        record s {
          releases = s.releases ++ made locked ∷ [];
          next_release_id = suc s.next_release_id;
        },
      )
  unfolding create_release_record get_world
  created locked e b = rw (e, b) refl

  made-IsFresh :
      (locked : World)
      → breaks_uniqueness (made locked) s.releases ≡ false
      → IsFresh (made locked) s.releases
  unfolding new_release next_release_number
  made-IsFresh locked b =
      let (d, k, n) = unique_texts (made locked) s.releases b in
      record {
        number = λ x m e. omega (arith, release_number-le-max locked.id s.releases x m e);
        domain_unused = d;
        ekoh_unused = k;
        distinct = n;
      }

  abbrev Created : WorldRelease → Store → Type 0
  Created r s' =
      (s'.releases ≡ s.releases ++ r ∷ [])
      × IsFresh r s.releases
      × (r.world_id ≡ world.id)
      × (r.status ≡ ReleaseStatus.building)
      × (r.id ≡ s.next_release_id)

  made-Created :
      (locked : World)
      → find world_id_of world.id s.worlds ≡ some locked
      → breaks_uniqueness (made locked) s.releases ≡ false
      → Created (made locked) (create_release_record lib now world pack parent reason s).1
  unfolding new_release
  made-Created locked e b = (
    ap (λ x. x.1.releases) (created locked e b),
    made-IsFresh locked b,
    (find-In world_id_of world.id s.worlds e).1,
    refl,
    refl,
  )

  -- The record that is created is the World's own, in state BUILDING, numbered above all of the
  -- World's releases so far, with schema names that no release has; the other rows are as they were.
  pub create_release_record-fresh :
      {r : WorldRelease}
      → (create_release_record lib now world pack parent reason s).0 ≡ ok r
      → Created r (create_release_record lib now world pack parent reason s).1
  create_release_record-fresh {r} h = elim (Option-cases (find world_id_of world.id s.worlds)) [
    | inl e ↦ absurd (refused_without_world e h)
    | inr (locked, e) ↦ elim (Bool-cases (breaks_uniqueness (made locked) s.releases)) [
      | inl b ↦ absurd (refused_clash locked e b h)
      | inr b ↦
          let same : made locked ≡ r =
            ap (result_or r) (sym (ap (λ x. x.0) (created locked e b)) ∙ h) in
          subst (λ x. Created x (create_release_record lib now world pack parent reason s).1) same
            (made-Created locked e b)
    ]
  ]
