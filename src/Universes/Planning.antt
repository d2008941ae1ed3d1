-- ===== src/Universes/Planning.antt =====
-- backend/konnaxion/worlds/services/universe_packs.py, the plan of finalize_universe_pack: which release of
-- every World has the content that the pack asks for.
use konnaxion_worlds.Base.{
  ◌↔◌, text_eq_iff, ==_iff, ◌≤◌, ◌≡◌, refl, sym, ap, subst, true, false, Option, none, some, List,
  [], ◌∷◌, In, Text, arith, get_key, inl, inr, Option-cases, Bool-cases, ◌⊎◌, leb, if◌then◌else◌,
}
use konnaxion_worlds.Base.Exec.{Result, ok, err, result_or}
use konnaxion_worlds.Models.{World, WorldRelease, ReleaseStatus}
use konnaxion_worlds.Store.{Failure}
use konnaxion_worlds.Seeds.{SeedPack}
use konnaxion_worlds.Universes.{PackWorld, Worlds, Packs}
use konnaxion_worlds.Universes.Finalize.{
  Plan, is_target, later_of, current_matches, matching_ready_release, planned, plan_row,
  plan_releases, seed_for,
}

module _ (world : World) (seed : SeedPack) where
  -- The release that is chosen is one of those that fit, none of which has a greater number.
  abbrev pub Chosen : List WorldRelease → Option WorldRelease → Type 0
  Chosen rs none = (q : WorldRelease) → In q rs → is_target world seed q ≡ false
  Chosen rs (some r) =
      In r rs
      × (is_target world seed r ≡ true)
      × ((q : WorldRelease)
          → In q rs
          → is_target world seed q ≡ true
          → q.release_number ≤ r.release_number)

  better_of_rest :
      (r : WorldRelease) (rs : List WorldRelease) (rest : Option WorldRelease)
      → Chosen rs rest
      → Chosen (r ∷ rs) (if is_target world seed r then some (later_of r rest) else rest)
  better_of_rest r rs none c = elim (Bool-cases (is_target world seed r)) [
    | inr f ↦ rw f (λ q m. elim m [ inl e ↦ rw (← e) f | inr n ↦ c q n ])
    | inl t ↦ rw t (
      inl refl,
      t,
      (λ q m e. elim m [
        | inl same ↦ rw (← same) (omega arith)
        | inr n ↦ absurd (ground (arith, c q n, e))
      ]),
    )
  ]
  better_of_rest r rs (some p) (listed, fits, top) = elim (Bool-cases (is_target world seed r)) [
    | inr f ↦ rw f (
      inr listed,
      fits,
      (λ q m e. elim m [ inl same ↦ absurd (ground (arith, same, e, f)) | inr n ↦ top q n e ]),
    )
    | inl t ↦ elim (Bool-cases (leb p.release_number r.release_number)) [
      | inl l ↦
          let same_row : later_of r (some p) ≡ r = rw l refl in
          rw t (
            subst (λ x. Chosen (r ∷ rs) (some x)) (sym same_row)
              (
                inl refl,
                t,
                (λ q m e. elim m [
                  | inl same ↦ rw (← same) (omega arith)
                  | inr n ↦ ground (arith, top q n e, l)
                ]),
              ))
      | inr g ↦
          let same_row : later_of r (some p) ≡ p = rw g refl in
          rw t (
            subst (λ x. Chosen (r ∷ rs) (some x)) (sym same_row)
              (
                inr listed,
                fits,
                (λ q m e. elim m [ inl same ↦ ground (arith, same, g) | inr n ↦ top q n e ]),
              ))
    ]
  ]

  pub matching_ready_release-Chosen :
      (rs : List WorldRelease) → Chosen rs (matching_ready_release rs world seed)
  unfolding matching_ready_release
  matching_ready_release-Chosen [] = λ q m. absurd m
  matching_ready_release-Chosen (r ∷ rs) =
      better_of_rest r rs (matching_ready_release rs world seed) (matching_ready_release-Chosen rs)

-- A release that may be promoted for a pack: the World's own, READY, and built from exactly this content.
abbrev pub Promotable : World → SeedPack → WorldRelease → Type 0
Promotable world seed r =
    (r.world_id ≡ world.id)
    × (r.seed_checksum ≡ seed.checksum)
    × (r.seed_version ≡ seed.version)
    × (r.status ≡ ReleaseStatus.ready)

is_target_iff :
    (world : World) (seed : SeedPack) (r : WorldRelease)
    → (is_target world seed r ≡ true) ↔ Promotable world seed r
is_target_iff world seed r = (
  (λ h. (
    (==_iff r.world_id world.id).0 (ground (arith, h)),
    (text_eq_iff r.seed_checksum seed.checksum).0 (ground (arith, h)),
    (text_eq_iff r.seed_version seed.version).0 (ground (arith, h)),
    ground (arith, h),
  )),
  (λ (a, b, c, d). ground (
    arith,
    (==_iff r.world_id world.id).1 a,
    (text_eq_iff r.seed_checksum seed.checksum).1 b,
    (text_eq_iff r.seed_version seed.version).1 c,
    d,
  )),
)

abbrev pub Newest : World → SeedPack → List WorldRelease → Option WorldRelease → Type 0
Newest world seed rs none = (q : WorldRelease) → In q rs → Promotable world seed q → ⊥
Newest world seed rs (some r) =
    In r rs
    × Promotable world seed r
    × ((q : WorldRelease) → In q rs → Promotable world seed q → q.release_number ≤ r.release_number)

best_of :
    (world : World) (seed : SeedPack) (rs : List WorldRelease) (o : Option WorldRelease)
    → Chosen world seed rs o
    → Newest world seed rs o
best_of world seed rs none c = λ q m p. absurd (cc (c q m, (is_target_iff world seed q).1 p))
best_of world seed rs (some r) (listed, fits, top) = (
  listed,
  (is_target_iff world seed r).0 fits,
  (λ q m p. top q m ((is_target_iff world seed q).1 p)),
)

-- The release that _matching_ready_release chooses belongs to the World, is READY, and has the checksum and
-- the version of the pack, and no release of which all this holds has a greater number. Where it chooses
-- none, it holds of none.
pub matching_ready_release-Newest :
    (world : World) (seed : SeedPack) (rs : List WorldRelease)
    → Newest world seed rs (matching_ready_release rs world seed)
matching_ready_release-Newest world seed rs =
    best_of world seed rs (matching_ready_release rs world seed)
      (matching_ready_release-Chosen world seed rs)

-- The releases that a plan promotes have the content of the packs, and belong to the Worlds.
abbrev pub Fits : List WorldRelease → Packs → Worlds → World × WorldRelease → Type 0
Fits releases resolved worlds t =
    (seed : SeedPack) × ((key : Text) × (get_key key worlds ≡ some t.0))
    × (get_key t.0.key resolved ≡ some seed)
    × In t.1 releases
    × (is_target t.0 seed t.1 ≡ true)

-- The World of a row serves the content of its pack, or is to be promoted to it, or is not ready.
abbrev pub Settled : List WorldRelease → Packs → Worlds → Plan → PackWorld → Type 0
Settled releases resolved worlds plan row =
    (w : World) × (seed : SeedPack) × (get_key row.world_key worlds ≡ some w)
    × (get_key w.key resolved ≡ some seed)
    × ((current_matches releases w seed ≡ true)
        ⊎ ((r : WorldRelease) × In (w, r) plan.targets)
        ⊎ In w.key plan.not_ready)

abbrev pub Sound : List WorldRelease → Packs → Worlds → List PackWorld → Plan → Type 0
Sound releases resolved worlds rows plan =
    ((t : World × WorldRelease) → In t plan.targets → Fits releases resolved worlds t)
    × ((row : PackWorld) → In row rows → Settled releases resolved worlds plan row)

module _ (releases : List WorldRelease) (resolved : Packs) (worlds : Worlds) where
  widened :
      (plan wider : Plan) (row : PackWorld)
      → ((t : World × WorldRelease) → In t plan.targets → In t wider.targets)
      → ((key : Text) → In key plan.not_ready → In key wider.not_ready)
      → Settled releases resolved worlds plan row
      → Settled releases resolved worlds wider row
  widened plan wider row more waits (w, seed, ew, es, x) = (
    w,
    seed,
    ew,
    es,
    elim x [
      | inl c ↦ inl c
      | inr (inl (r, m)) ↦ inr (inl (r, more (w, r) m))
      | inr (inr m) ↦ inr (inr (waits w.key m))
    ],
  )

  module _ (row : PackWorld) (rows : List PackWorld) (w : World) (seed : SeedPack)
      (ew : get_key row.world_key worlds ≡ some w) (es : get_key w.key resolved ≡ some seed)
      (plan : Plan) (sound : Sound releases resolved worlds rows plan) where
    extended :
        (wider : Plan)
        → ((t : World × WorldRelease) → In t plan.targets → In t wider.targets)
        → ((key : Text) → In key plan.not_ready → In key wider.not_ready)
        → Settled releases resolved worlds wider row
        → (other : PackWorld) → In other (row ∷ rows)
        → Settled releases resolved worlds wider other
    extended wider more waits own other m = elim m [
      | inl same ↦ subst (Settled releases resolved worlds wider) same own
      | inr n ↦ widened plan wider other more waits (sound.1 other n)
    ]

    planned-Sound :
        (o : Option WorldRelease)
        → Chosen w seed releases o
        → Sound releases resolved worlds (row ∷ rows) (planned w seed releases o plan)
    planned-Sound none c = elim (Bool-cases (current_matches releases w seed)) [
      | inl t ↦ rw t (sound.0, extended plan (λ t m. m) (λ key m. m) (w, seed, ew, es, inl t))
      | inr f ↦
          let wider : Plan = record plan { not_ready = w.key ∷ plan.not_ready } in
          rw f (
            sound.0,
            extended wider (λ t m. m) (λ key m. inr m) (w, seed, ew, es, inr (inr (inl refl))),
          )
    ]
    planned-Sound (some r) (listed, fits, top) =
        elim (Bool-cases (current_matches releases w seed)) [
          | inl t ↦ rw t (sound.0, extended plan (λ t m. m) (λ key m. m) (w, seed, ew, es, inl t))
          | inr f ↦
              let wider : Plan = record plan { targets = (w, r) ∷ plan.targets } in
              rw f (
                (λ t m. elim m [
                  | inl same ↦
                      subst (Fits releases resolved worlds) same
                        (seed, (row.world_key, ew), es, listed, fits)
                  | inr n ↦ sound.0 t n
                ]),
                extended wider (λ t m. inr m) (λ key m. m)
                    (w, seed, ew, es, inr (inl (r, inl refl))),
              )
        ]

  plan_row-Sound :
      (row : PackWorld) (rows : List PackWorld) (world : Option World)
      → get_key row.world_key worlds ≡ world
      → (rest : Result Failure Plan)
      → ((plan : Plan) → rest ≡ ok plan → Sound releases resolved worlds rows plan)
      → (plan : Plan) → plan_row releases world (seed_for resolved world) rest ≡ ok plan
      → Sound releases resolved worlds (row ∷ rows) plan
  plan_row-Sound row rows none ew rest sound plan h = absurd cc
  plan_row-Sound row rows (some w) ew (err e) sound plan h =
      elim (Option-cases (get_key w.key resolved)) [
        | inl none_found ↦ absurd (cc (rw none_found at h))
        | inr (seed, es) ↦ absurd (cc (rw es at h))
      ]
  plan_row-Sound row rows (some w) ew (ok before) sound plan h =
      elim (Option-cases (get_key w.key resolved)) [
        | inl none_found ↦ absurd (cc (rw none_found at h))
        | inr (seed, es) ↦
            subst (Sound releases resolved worlds (row ∷ rows)) (ap (result_or before) (rw es at h))
              (planned-Sound row rows w seed ew es before (sound before refl)
                (matching_ready_release releases w seed)
                (matching_ready_release-Chosen w seed releases))
      ]

  pub plan_releases-Sound :
      (rows : List PackWorld) (plan : Plan)
      → plan_releases releases resolved worlds rows ≡ ok plan
      → Sound releases resolved worlds rows plan
  unfolding plan_releases
  plan_releases-Sound [] plan h =
      subst (Sound releases resolved worlds []) (ap (result_or plan) h)
        ((λ t m. absurd m), (λ row m. absurd m))
  plan_releases-Sound (row ∷ rows) plan h =
      plan_row-Sound row rows (get_key row.world_key worlds) refl
        (plan_releases releases resolved worlds rows) (plan_releases-Sound rows) plan h
