-- ===== src/Tasks/Targets.antt =====
-- backend/konnaxion/worlds/services/tasks.py, current_world_release_targets and
-- enqueue_for_current_releases: the releases that a periodic job is sent to.
use konnaxion_worlds.Base.{
  set_key, ℕ, ◌+◌, Bool, false, ◌&&◌, Option, none, some, List, [], ◌∷◌, ◌++◌, Text, codes, any,
  keep, leb, if◌then◌else◌, ◌==◌, ◌⊎◌, inl,
}
use konnaxion_worlds.Base.Exec.{Exec, pure, ◌>>◌}
use konnaxion_worlds.Models.{World, is_active, is_current}
use konnaxion_worlds.Access.{Registry}

-- order_by("id")
unfoldable pub insert_world : World → List World → List World
insert_world w [] = w ∷ []
insert_world w (v ∷ vs) =
    let rest = insert_world w vs in if leb w.id v.id then w ∷ v ∷ vs else v ∷ rest

unfoldable pub by_id : List World → List World
unfolding insert_world
by_id [] = []
by_id (w ∷ ws) = insert_world w (by_id ws)

abbrev current_at : Registry → Option ℕ → Bool
current_at db none = false
current_at db (some i) = any (λ r. r.id == i && is_current r.status) db.releases

-- status=ACTIVE, current_release__status=CURRENT, and current_release_id not NULL
unfoldable pub serves : Registry → World → Bool
serves db world = is_active world.status && current_at db world.current_release_id

abbrev target : World → Option ℕ → List (ℕ × ℕ)
target world none = []
target world (some i) = (world.id, i) ∷ []

unfoldable pub targets : List World → List (ℕ × ℕ)
targets [] = []
targets (w ∷ ws) = target w w.current_release_id ++ targets ws

unfoldable pub current_world_release_targets : Registry → List (ℕ × ℕ)
unfolding by_id serves targets
current_world_release_targets db = targets (keep (serves db) (by_id db.worlds))

abbrev named_queue : Option Text → Option Text
named_queue none = none
named_queue (some []) = none
named_queue (some (c ∷ cs)) = some (c ∷ cs)

-- A keyword argument of a task is a number, or something else.
pub record Message (V : Type 0) : Type 0 where
  pub kwargs : List (Text × (ℕ ⊎ V))
  pub queue : Option Text

module _ {V : Type 0} where
  unfoldable pub message : List (Text × (ℕ ⊎ V)) → Option Text → ℕ × ℕ → Message V
  unfolding set_key
  message common queue (world_id, release_id) = record {
    kwargs =
        set_key (codes "release_id") (inl release_id)
          (set_key (codes "world_id") (inl world_id) common);
    queue = named_queue queue;
  }

  -- What Celery does with a message is an argument.
  module _ {E Q : Type 0} (apply_async : Message V → Exec E Q Unit) where
    unfoldable pub enqueue_all :
        List (Text × (ℕ ⊎ V)) → Option Text → (scheduled : ℕ) → List (ℕ × ℕ) → Exec E Q ℕ
    unfolding message
    enqueue_all common queue scheduled [] = pure scheduled
    enqueue_all common queue scheduled (t ∷ ts) =
        apply_async (message common queue t) >> enqueue_all common queue (scheduled + 1) ts

    unfoldable pub enqueue_for_current_releases :
        Registry → List (Text × (ℕ ⊎ V)) → Option Text → Exec E Q ℕ
    unfolding enqueue_all current_world_release_targets
    enqueue_for_current_releases db common queue =
        enqueue_all common queue 0 (current_world_release_targets db)
