-- ===== src/Universes/QueueingTests.antt =====
-- A World whose next release has no job yet.
use konnaxion_worlds.Base.{
  ℕ, ◌≡◌, refl, ap, subst, true, false, none, some, [], ◌∷◌, Text, codes, text_eq, any, find, put,
  get_key, set_key, Option, Bool-cases, inl, inr, from_option,
}
use konnaxion_worlds.Base.Exec.{ok, err}
use konnaxion_worlds.Models.{Visibility, JobStatus}
use konnaxion_worlds.Store.{not_enqueued}
use konnaxion_worlds.Samples.{alpha, installation}
use konnaxion_worlds.Seeds.{SeedPack, is_blank}
use konnaxion_worlds.Seeds.Catalog.{row_of, find_row, find_pack}
use konnaxion_worlds.Universes.{PackWorld, UniversePack, Worlds, Packs}
use konnaxion_worlds.Universes.Ensuring.{find_universe, find_world, has_live_world}
use konnaxion_worlds.Universes.Queueing.{
  JobTable, Yard, aim_of, new_job, builds_for, amend_job, dispatch_job, queue_world, queue_rows,
  queue_universe_pack,
}
use konnaxion_worlds.Universes.Requeueing.{Repeats, queue_rows-Repeats}

abbrev seed : SeedPack
seed = record {
  manifest_path = codes "levis/worlds/alpha/world.yaml";
  world_key = codes "alpha";
  title = codes "Alpha";
  version = codes "1.1.0";
  scenario_schema_version = codes "v1";
  scenario_paths = codes "a.json" ∷ [];
  checksum = codes "cs";
}

abbrev row : PackWorld
row = record {
  world_key = codes "alpha";
  seed_pack_key = codes "alpha";
  seed_version = codes "1.1.0";
  title = codes "Alpha";
  visibility = Visibility.public;
}

abbrev worlds : Worlds
worlds = (codes "alpha", alpha) ∷ []

abbrev resolved : Packs
resolved = (codes "alpha", seed) ∷ []

abbrev table : JobTable
table = record { jobs = []; next_job_id = 3 }

abbrev apply_async : ℕ → Option Text
apply_async i = some (codes "task")

program : Unit {0}
unfolding text_eq any find put get_key set_key find_pack find_row find_universe find_world
    has_live_world builds_for amend_job dispatch_job queue_world queue_rows queue_universe_pack
program = tt

queues : queue_rows apply_async true installation.releases resolved worlds (row ∷ []) table ≡ (
  ok (3 ∷ []),
  record {
    jobs = record (new_job (aim_of alpha seed) 3) { celery_task_id = codes "task" } ∷ [];
    next_job_id = 4;
  },
)
unfolding program
queues = refl

-- A job that cannot be submitted is left as FAILED.
refuses : queue_rows (λ i. none) true installation.releases resolved worlds (row ∷ []) table ≡ (
  err not_enqueued,
  record {
    jobs = record (new_job (aim_of alpha seed) 3) { status = JobStatus.failed; error = true } ∷ [];
    next_job_id = 4;
  },
)
unfolding program
refuses = refl

abbrev pack : UniversePack
pack = record {
  universe_key = codes "other";
  title = codes "Other";
  version = codes "1.0.0";
  visibility = Visibility.public;
  default_world = none;
  worlds = record row { world_key = codes "gamma" } ∷ [];
  relations = [];
  subscriptions = [];
  checksum = codes "u";
}

abbrev yard : Yard
yard = record {
  realm = record {
    store = installation;
    universes = [];
    relations = [];
    subscriptions = [];
    next_universe_id = 2;
    next_world_id = 11;
  };
  table = table;
}

registers :
    (queue_universe_pack apply_async true (seed ∷ []) (row_of seed ∷ []) pack none yard).0
    ≡ ok (3 ∷ [])
unfolding program
registers = refl

filled : (key : Text) (s : SeedPack) → get_key key resolved ≡ some s → is_blank s.checksum ≡ false
unfolding get_key
filled key s h = elim (Bool-cases (text_eq (codes "alpha") key)) [
  | inl t ↦ subst (λ x. is_blank x.checksum ≡ false) (ap (from_option seed) (rw t at h)) refl
  | inr f ↦ absurd (cc (rw f at h))
]

requeued_example :
    Repeats apply_async true
      (queue_rows apply_async true installation.releases resolved worlds (row ∷ []))
      table
      (3 ∷ [])
requeued_example =
    queue_rows-Repeats apply_async true installation.releases resolved worlds filled (row ∷ [])
      table (ap (λ x. x.0) queues)
