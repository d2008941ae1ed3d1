-- ===== src/Tasks/Tests.antt =====
-- Tasks on the sample World, with a number for the rows of its release.
use konnaxion_worlds.Base.{
  set_key, ℕ, ◌≡◌, refl, subst, true, false, none, some, List, [], ◌∷◌, ◌++◌, codes, In, inl, inr,
  find, any, keep, text_eq, arith, map, Text, length,
}
use konnaxion_worlds.Base.Exec.{ok, err, Exec}
use konnaxion_worlds.Models.{World, WorldRelease, Universe, Lifecycle, Visibility, is_active}
use konnaxion_worlds.Access.{Registry, WorldRuntime, runtime_from_release}
use konnaxion_worlds.Naming.{validate_schema_name}
use konnaxion_worlds.Samples.{alpha, first_release}
use konnaxion_worlds.Scope.{Session, Scoped, world_db_scope, retry, unknown_task_context}
use konnaxion_worlds.Tasks.{
  validate_task_ids, locked_task_release, get_task_release, named_release, points_to, admitted,
  release_runtime, world_release_scope, call_task,
}
use konnaxion_worlds.Tasks.Targets.{
  insert_world, by_id, serves, targets, current_world_release_targets, Message, message,
  enqueue_all, enqueue_for_current_releases,
}
use konnaxion_worlds.Tasks.Pinning.{task_release_agree}
use konnaxion_worlds.Tasks.Retries.{HasNames, call_task-runs}
use konnaxion_worlds.Tasks.Fanout.{HasKeys, targets_accepted}
use konnaxion_worlds.Tasks.Messages.{ids_of, as_ids, Delivers, enqueue_for_current_releases-sends}

abbrev town : Universe
town = record {
  id = 1;
  key = codes "levis";
  title = codes "Levis";
  status = Lifecycle.active;
  visibility = Visibility.public;
  default_world_id = some 10;
  created_by_id = none;
}

abbrev release : WorldRelease
release = record first_release {
  domain_schema = codes "kx_w_a_r1";
  ekoh_schema = codes "kx_e_a_r1";
}

abbrev catalog : Registry
catalog = record {
  universes = town ∷ [];
  worlds = alpha ∷ [];
  releases = release ∷ [];
  universe_memberships = [];
  world_memberships = [];
}

abbrev Rows : Type 0
Rows = Registry × ℕ

abbrev registry_of : Rows → Registry
registry_of rows = rows.0

abbrev outside : Session Rows
outside = record {
  current_world_runtime = none;
  search_path = none;
  in_transaction = false;
  rows = (catalog, 3);
}

-- Writes a row, and asks to be run again.
abbrev retrying : Scoped Rows Unit
retrying s = (err (retry 5), record s { rows = (s.rows.0, 8) })

program : Unit {0}
unfolding call_task world_release_scope locked_task_release get_task_release named_release points_to
    admitted release_runtime validate_task_ids validate_schema_name world_db_scope find any keep
    text_eq runtime_from_release insert_world by_id serves targets current_world_release_targets
    message set_key enqueue_all enqueue_for_current_releases
program = tt

admitted_release : locked_task_release catalog 10 7 true ≡ ok release
unfolding program
admitted_release = refl

agree_example :
    get_task_release catalog (some 10) (some 7) true ≡ locked_task_release catalog 10 7 true
agree_example = task_release_agree catalog 10 7 true (omega arith) (omega arith)

abbrev runtime : WorldRuntime
unfolding runtime_from_release
runtime = runtime_from_release town alpha release

found_runtime : release_runtime catalog release ≡ ok runtime
unfolding program
found_runtime = refl

named : HasNames (codes "public") runtime
unfolding program
named = record { domain = refl; ekoh = refl; control = refl }

runs_example :
    ((call_task registry_of (codes "public") true (some 10) (some 7) retrying outside).0
      ≡ err (retry 5))
    × ((call_task registry_of (codes "public") true (some 10) (some 7) retrying outside).1.rows
        ≡ (catalog, 8))
    × ((call_task registry_of
          (codes "public")
          true
          (some 10)
          (some 7)
          retrying
          outside).1.current_world_runtime
        ≡ none)
runs_example =
    call_task-runs registry_of (codes "public") true retrying outside 10 7 release runtime
      (omega arith) (omega arith) refl admitted_release found_runtime named

no_release : get_task_release catalog (some 10) (some 9) true ≡ err unknown_task_context
unfolding program
no_release = refl

keyed : HasKeys catalog
unfolding program
keyed = record {
  world_row = λ w m. elim m [
    | inl e ↦ subst (λ (x : World). find (λ (y : World). y.id) x.id (alpha ∷ []) ≡ some x) e refl
    | inr n ↦ elim n [ ]
  ];
  release_row = λ r m. elim m [
    | inl e ↦
        subst (λ (x : WorldRelease). find (λ (y : WorldRelease). y.id) x.id (release ∷ []) ≡ some x)
          e refl
    | inr n ↦ elim n [ ]
  ];
  own_release = λ w r m n e. ground (arith, m, n);
  positive = λ w r m n. ground (arith, m, n);
}

listed : In (10, 7) (current_world_release_targets catalog)
unfolding program
listed = inl refl

accepted_example :
    (w : World) × In w catalog.worlds
    × (w.id ≡ 10)
    × (is_active w.status ≡ true)
    × (r : WorldRelease) × (get_task_release catalog (some 10) (some 7) true ≡ ok r)
accepted_example = targets_accepted catalog 10 7 keyed listed

-- A broker that takes every message.
abbrev take_message : Message Text → Exec Unit (List (Message Text)) Unit
take_message m q = (ok tt, q ++ m ∷ [])

abbrev log_of : List (Message Text) → List (Message Text)
log_of q = q

delivers : Delivers take_message log_of [] none
delivers m q = refl

sent_one :
    enqueue_for_current_releases take_message catalog [] none []
    ≡ (ok 1, message [] none (10, 7) ∷ [])
unfolding program
sent_one = refl

sends_example :
    ((message {V = Text} [] none (10, 7) ∷ [])
      ≡ ([] ++ map (message [] none) (current_world_release_targets catalog)))
    × (map ids_of (map (message {V = Text} [] none) (current_world_release_targets catalog))
        ≡ map as_ids (current_world_release_targets catalog))
    × (◌≡◌ {A = ℕ} 1 (length (current_world_release_targets catalog)))
sends_example =
    enqueue_for_current_releases-sends take_message log_of [] none delivers catalog []
      (message [] none (10, 7) ∷ []) 1 sent_one
