-- ===== src/Releases/Consistency.antt =====
-- The invariant that ties the current-release pointers of the Worlds to the states of the releases.
use konnaxion_worlds.Base.{
  ℕ, ◌≡◌, ◌≢◌, refl, ap, sym, ◌∙◌, Option, none, some, List, In, find, put, from_option, In-put,
  find-put, Bool-cases, ==_iff, ==_refl, ◌==◌, inl, inr,
}
use konnaxion_worlds.Models.{World, WorldRelease, ReleaseStatus}
use konnaxion_worlds.Store.{Store, world_id_of, release_id_of}

-- `pointed`: a World's pointer leads to a release of its own that is CURRENT. `marked`: a release
-- that is CURRENT is the one that its World points to.
pub record Pointers (worlds : List World) (releases : List WorldRelease) : Type 0 where
  pub pointed :
      (w : World) (i : ℕ)
      → In w worlds
      → w.current_release_id ≡ some i
      → (r : WorldRelease) × (find release_id_of i releases ≡ some r)
        × (r.world_id ≡ w.id)
        × (r.status ≡ ReleaseStatus.current)
  pub marked :
      (w : World) (r : WorldRelease)
      → In w worlds
      → In r releases
      → r.world_id ≡ w.id
      → r.status ≡ ReleaseStatus.current
      → w.current_release_id ≡ some r.id

abbrev pub IsConsistent : Store → Type 0
IsConsistent s = Pointers s.worlds s.releases

-- The invariant for all Worlds but `k`, whose releases are none of them CURRENT.
pub record Others (k : ℕ) (worlds : List World) (releases : List WorldRelease) : Type 0 where
  pub pointed :
      (w : World) (i : ℕ)
      → In w worlds
      → w.id ≢ k
      → w.current_release_id ≡ some i
      → (r : WorldRelease) × (find release_id_of i releases ≡ some r)
        × (r.world_id ≡ w.id)
        × (r.status ≡ ReleaseStatus.current)
  pub marked :
      (w : World) (r : WorldRelease)
      → In w worlds
      → In r releases
      → w.id ≢ k
      → r.world_id ≡ w.id
      → r.status ≡ ReleaseStatus.current
      → w.current_release_id ≡ some r.id
  pub idle : (r : WorldRelease) → In r releases → r.world_id ≡ k → r.status ≢ ReleaseStatus.current

module _ {worlds : List World} {releases : List WorldRelease} (v : Pointers worlds releases)
    (locked : World) (listed : In locked worlds) where
  -- A World that points nowhere has no CURRENT release.
  pub unpointed-Others : locked.current_release_id ≡ none → Others locked.id worlds releases
  unpointed-Others e = record {
    pointed = λ w i m _ h. v.pointed w i m h;
    marked = λ w r m n _ o c. v.marked w r m n o c;
    idle = λ r m o c. absurd (cc (e, v.marked locked r listed m o c));
  }

  -- Once the release that a World points to is frozen, it has no CURRENT release.
  pub frozen-Others :
      (p : WorldRelease)
      → locked.current_release_id ≡ some p.id
      → find release_id_of p.id releases ≡ some p
      → p.world_id ≡ locked.id
      → Others locked.id worlds
          (put release_id_of (record p { status = ReleaseStatus.frozen }) releases)
  frozen-Others p e here own = record {
    pointed = λ w i m other h.
        let (r, found, o, c) = v.pointed w i m h in (r, kept w i r other found o, o, c);
    marked = λ w r m n other o c. elim (In-put release_id_of r frozen releases n) [
      | inl same ↦ absurd (cc (c, ap (λ (x : WorldRelease). x.status) same))
      | inr (old, _) ↦ v.marked w r m old o c
    ];
    idle = λ r n o c. elim (In-put release_id_of r frozen releases n) [
      | inl same ↦ cc (c, ap (λ (x : WorldRelease). x.status) same)
      | inr (old, differs) ↦
          differs (ap (from_option 0) (sym (v.marked locked r listed old o c) ∙ e))
    ];
  }
    where
      frozen : WorldRelease
      frozen = record p { status = ReleaseStatus.frozen }

      kept :
          (w : World) (i : ℕ) (r : WorldRelease)
          → w.id ≢ locked.id
          → find release_id_of i releases ≡ some r
          → r.world_id ≡ w.id
          → find release_id_of i (put release_id_of frozen releases) ≡ some r
      kept w i r other found o = elim (Bool-cases (p.id == i)) [
        | inr f ↦ rw (find-put, f) found
        | inl t ↦
            let same : ◌≡◌ {A = Option WorldRelease} (some p) (some r) =
              sym here ∙ ap (λ j. find release_id_of j releases) ((==_iff p.id i).0 t) ∙ found in
            absurd (other (sym o ∙ sym (ap (λ x. x.world_id) (ap (from_option p) same)) ∙ own))
      ]

-- A release of the World becomes CURRENT, and the World points to it.
pub promoted-Pointers :
    {worlds : List World} {releases : List WorldRelease} (moved : World) (promoted : WorldRelease)
    → Others moved.id worlds releases
    → (target : WorldRelease) → find release_id_of promoted.id releases ≡ some target
    → target.status ≢ ReleaseStatus.current
    → promoted.status ≡ ReleaseStatus.current
    → promoted.world_id ≡ moved.id
    → moved.current_release_id ≡ some promoted.id
    → Pointers (put world_id_of moved worlds) (put release_id_of promoted releases)
promoted-Pointers {worlds} {releases} moved promoted v target here waits c own points = record {
  pointed = λ w i m h. elim (In-put world_id_of w moved worlds m) [
    | inl same ↦ (
      promoted,
      found_new i (cc (h, points, ap (λ x. x.current_release_id) same)),
      own ∙ sym (ap world_id_of same),
      c,
    )
    | inr (old, other) ↦
        let (r, found, o, cr) = v.pointed w i old other h in (r, kept i r found cr, o, cr)
  ];
  marked = λ w r m n o cr. elim (In-put release_id_of r promoted releases n) [
    | inl new ↦ elim (In-put world_id_of w moved worlds m) [
      | inl same ↦
          ap (λ x. x.current_release_id) same ∙ points ∙ ap some (sym (ap release_id_of new))
      | inr (_, other) ↦ absurd (other (sym o ∙ ap (λ x. x.world_id) new ∙ own))
    ]
    | inr (old, _) ↦ elim (In-put world_id_of w moved worlds m) [
      | inl same ↦ absurd (v.idle r old (o ∙ ap world_id_of same) cr)
      | inr (listed, other) ↦ v.marked w r listed old other o cr
    ]
  ];
}
  where
    found_new :
        (i : ℕ)
        → ◌≡◌ {A = Option ℕ} (some i) (some promoted.id)
        → find release_id_of i (put release_id_of promoted releases) ≡ some promoted
    found_new i e = rw (ap (from_option 0) e) (rw (find-put, ==_refl, here) refl)

    kept :
        (i : ℕ) (r : WorldRelease)
        → find release_id_of i releases ≡ some r
        → r.status ≡ ReleaseStatus.current
        → find release_id_of i (put release_id_of promoted releases) ≡ some r
    kept i r found cr = elim (Bool-cases (promoted.id == i)) [
      | inr f ↦ rw (find-put, f) found
      | inl t ↦
          let same : ◌≡◌ {A = Option WorldRelease} (some target) (some r) =
            sym here
            ∙ ap (λ j. find release_id_of j releases) ((==_iff promoted.id i).0 t)
            ∙ found in
          absurd (waits (ap (λ x. x.status) (ap (from_option target) same) ∙ cr))
    ]
