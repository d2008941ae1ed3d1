-- ===== src/Tasks/Fanout.antt =====
-- The releases that a periodic job is sent to, and that the tasks are not refused.
use konnaxion_worlds.Base.{
  ℕ, ◌≡◌, ◌≢◌, ◌↔◌, ◌⊎◌, refl, subst, sym, ap, ◌∙◌, true, ◌&&◌, ◌==◌, some, List, [], ◌∷◌, In,
  In-keep, any, any-In, find, keep, arith, inl, inr,
}
use konnaxion_worlds.Base.Exec.{ok}
use konnaxion_worlds.Models.{World, WorldRelease, is_active, is_current}
use konnaxion_worlds.Access.{Registry}
use konnaxion_worlds.Store.{world_id_of, release_id_of}
use konnaxion_worlds.Tasks.{get_task_release, named_release, points_to, validate_task_ids, admitted}
use konnaxion_worlds.Tasks.Targets.{
  insert_world, by_id, serves, targets, current_world_release_targets,
}

In-insert_world : (a w : World) (ws : List World) → In a (insert_world w ws) ↔ ((a ≡ w) ⊎ In a ws)
unfolding insert_world
In-insert_world a w [] = ground arith
In-insert_world a w (v ∷ vs) = ground (arith, In-insert_world a w vs)

In-by_id : (a : World) (ws : List World) → In a (by_id ws) ↔ In a ws
unfolding by_id
In-by_id a [] = ground arith
In-by_id a (w ∷ ws) = ground (arith, In-insert_world a w (by_id ws), In-by_id a ws)

abbrev AimedAt : (k i : ℕ) → List World → Type 0
AimedAt k i ws = (w : World) × In w ws × (w.id ≡ k) × (w.current_release_id ≡ some i)

AimedAt-later : (k i : ℕ) (w : World) (ws : List World) → AimedAt k i ws → AimedAt k i (w ∷ ws)
AimedAt-later k i w ws (v, m, e, f) = (v, inr m, e, f)

head_or_tail :
    (k i : ℕ) (w : World) (ws : List World)
    → In (k, i) (targets (w ∷ ws))
    → ((w.id ≡ k) × (w.current_release_id ≡ some i)) ⊎ In (k, i) (targets ws)
unfolding targets
head_or_tail k i w ws m = ground (arith, m)

In-targets : (k i : ℕ) (ws : List World) → In (k, i) (targets ws) → AimedAt k i ws
unfolding targets
In-targets k i [] m = elim m [ ]
In-targets k i (w ∷ ws) m = elim (head_or_tail k i w ws m) [
  | inl (here, pointer) ↦ (w, inl refl, here, pointer)
  | inr rest ↦ AimedAt-later k i w ws (In-targets k i ws rest)
]

-- Unique numbers, none of them 0, and pointers of Worlds to their own releases, which clean() asks for.
pub record HasKeys (db : Registry) : Type 0 where
  pub world_row : (w : World) → In w db.worlds → find world_id_of w.id db.worlds ≡ some w
  pub release_row :
      (r : WorldRelease) → In r db.releases → find release_id_of r.id db.releases ≡ some r
  pub own_release :
      (w : World) (r : WorldRelease)
      → In w db.worlds
      → In r db.releases
      → w.current_release_id ≡ some r.id
      → r.world_id ≡ w.id
  pub positive :
      (w : World) (r : WorldRelease) → In w db.worlds → In r db.releases → (w.id ≢ 0) × (r.id ≢ 0)

current_row :
    (db : Registry) (w : World) (i : ℕ)
    → serves db w ≡ true
    → w.current_release_id ≡ some i
    → any (λ r. r.id == i && is_current r.status) db.releases ≡ true
unfolding serves
current_row db w i h e = ground (arith, h, e)

active : (db : Registry) (w : World) → serves db w ≡ true → is_active w.status ≡ true
unfolding serves
active db w h = ground (arith, h)

accepted_row :
    (db : Registry)
    → HasKeys db
    → (w : World) (r : WorldRelease) → In w db.worlds
    → In r db.releases
    → w.current_release_id ≡ some r.id
    → is_current r.status ≡ true
    → get_task_release db (some w.id) (some r.id) true ≡ ok r
unfolding get_task_release named_release points_to validate_task_ids admitted
accepted_row db keys w r m n pointer now = ground (
  arith,
  pointer,
  now,
  keys.world_row w m,
  keys.release_row r n,
  keys.own_release w r m n pointer,
  keys.positive w r m n,
)

-- Every pair that current_world_release_targets lists is an active World with the release that it points
-- to, and a task that is sent to the pair and asks for the current release is not refused, if no change
-- comes in between and the tables are sound: their numbers are unique and not 0, and a release that a World
-- points to is the World's own, which no key of the database says.
pub targets_accepted :
    (db : Registry) (k i : ℕ)
    → HasKeys db
    → In (k, i) (current_world_release_targets db)
    → (w : World) × In w db.worlds
      × (w.id ≡ k)
      × (is_active w.status ≡ true)
      × (r : WorldRelease) × (get_task_release db (some k) (some i) true ≡ ok r)
unfolding current_world_release_targets
targets_accepted db k i keys m =
    let (w, kept, same, pointer) = In-targets k i (keep (serves db) (by_id db.worlds)) m in
    let (listed, serving) = (In-keep (serves db) w (by_id db.worlds)).0 kept in
    let here : In w db.worlds = (In-by_id w db.worlds).0 listed in
    let (r, there, now) =
      any-In (λ r. r.id == i && is_current r.status) db.releases
        (current_row db w i serving pointer) in
    let number : r.id ≡ i = ground (arith, now) in
    let aimed : w.current_release_id ≡ some r.id = pointer ∙ ap some (sym number) in
    let done = accepted_row db keys w r here there aimed (ground (arith, now)) in
    (
      w,
      here,
      same,
      active db w serving,
      r,
      subst (λ j. get_task_release db (some k) (some j) true ≡ ok r) number
          (subst (λ j. get_task_release db (some j) (some r.id) true ≡ ok r) same done),
    )
