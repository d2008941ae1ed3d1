-- ===== src/Tasks/Messages.antt =====
-- The messages that enqueue_for_current_releases hands to Celery.
use konnaxion_worlds.Base.{
  set_key, get_key, get_key-set_key, ℕ, ◌+◌, ◌≡◌, ◌⊎◌, refl, subst, sym, ap, ◌∙◌, false, Option,
  some, List, [], ◌∷◌, ◌++◌, Text, codes, text_eq, text_eq_refl, map, length, arith, inl,
}
use mathlib.Core.List.{append_assoc, append-nil}
use konnaxion_worlds.Base.Exec.{Result, ok, err, Exec, Holds, continue}
use konnaxion_worlds.Access.{Registry}
use konnaxion_worlds.Tasks.Targets.{
  current_world_release_targets, Message, message, enqueue_all, enqueue_for_current_releases,
}

differ : text_eq (codes "release_id") (codes "world_id") ≡ false
unfolding text_eq
differ = refl

module _ {V : Type 0} where
  -- A message names the World and the release that it is for, whatever else the arguments name.
  pub message_ids :
      (common : List (Text × (ℕ ⊎ V))) (queue : Option Text) (k i : ℕ)
      → (get_key (codes "world_id") (message common queue (k, i)).kwargs ≡ some (inl k))
        × (get_key (codes "release_id") (message common queue (k, i)).kwargs ≡ some (inl i))
  unfolding message
  message_ids common queue k i =
      let named = set_key (codes "world_id") (inl k) common in
      ground (
        arith,
        get_key-set_key (codes "world_id") (codes "release_id") (inl i) named,
        get_key-set_key (codes "world_id") (codes "world_id") (inl k) common,
        get_key-set_key (codes "release_id") (codes "release_id") (inl i) named,
        text_eq_refl (codes "world_id"),
        text_eq_refl (codes "release_id"),
        differ,
      )

  -- The World and the release that a task reads from its message.
  abbrev pub ids_of : Message V → Option (ℕ ⊎ V) × Option (ℕ ⊎ V)
  ids_of m = (get_key (codes "world_id") m.kwargs, get_key (codes "release_id") m.kwargs)

  abbrev pub as_ids : ℕ × ℕ → Option (ℕ ⊎ V) × Option (ℕ ⊎ V)
  as_ids (k, i) = (some (inl k), some (inl i))

  messages_name :
      (common : List (Text × (ℕ ⊎ V))) (queue : Option Text) (ts : List (ℕ × ℕ))
      → map ids_of (map (message common queue) ts) ≡ map as_ids ts
  messages_name common queue [] = refl
  messages_name common queue ((k, i) ∷ ts) =
      let (a, b) = message_ids common queue k i in rw (a, b, messages_name common queue ts) refl

  module _ {E Q : Type 0} (apply_async : Message V → Exec E Q Unit) (sent : Q → List (Message V))
      (common : List (Text × (ℕ ⊎ V))) (queue : Option Text) where
    -- Celery takes a message at the end of what it has been sent, where it does not raise.
    abbrev pub Delivers : Type 0
    Delivers =
        (m : Message V) (q : Q)
        → Holds (λ (u : Unit) q'. sent q' ≡ (sent q ++ m ∷ [])) (apply_async m q)

    abbrev Sent : List (ℕ × ℕ) → ℕ → Q → ℕ → Q → Type 0
    Sent ts scheduled q n q' =
        (sent q' ≡ (sent q ++ map (message common queue) ts)) × (n ≡ scheduled + length ts)

    Sent-cons :
        (t : ℕ × ℕ) (ts : List (ℕ × ℕ)) (scheduled : ℕ) (q p : Q)
        → sent p ≡ (sent q ++ message common queue t ∷ [])
        → (x : Result E ℕ × Q) → Holds (Sent ts (scheduled + 1) p) x
        → Holds (Sent (t ∷ ts) scheduled q) x
    Sent-cons t ts scheduled q p new (ok n, q') (log, count) = (
      log
          ∙ ap (λ l. l ++ map (message common queue) ts) new
          ∙ append_assoc (sent q) (message common queue t ∷ []) (map (message common queue) ts),
      omega (arith, count),
    )
    Sent-cons t ts scheduled q p new (err e, q') h = tt

    after_one :
        (t : ℕ × ℕ) (ts : List (ℕ × ℕ)) (scheduled : ℕ) (q : Q) (x : Result E Unit × Q)
        → Holds (λ (u : Unit) p. sent p ≡ (sent q ++ message common queue t ∷ [])) x
        → ((p : Q)
            → Holds
                (Sent ts (scheduled + 1) p)
                (enqueue_all apply_async common queue (scheduled + 1) ts p))
        → Holds
            (Sent (t ∷ ts) scheduled q)
            (continue x (λ u. enqueue_all apply_async common queue (scheduled + 1) ts))
    after_one t ts scheduled q (ok u, p) new rest =
        Sent-cons t ts scheduled q p new (enqueue_all apply_async common queue (scheduled + 1) ts p)
          (rest p)
    after_one t ts scheduled q (err e, p) new rest = tt

    enqueue_all-Sent :
        Delivers
        → (ts : List (ℕ × ℕ)) (scheduled : ℕ) (q : Q)
        → Holds (Sent ts scheduled q) (enqueue_all apply_async common queue scheduled ts q)
    unfolding enqueue_all
    enqueue_all-Sent delivers [] scheduled q = (sym (append-nil (sent q)), omega arith)
    enqueue_all-Sent delivers (t ∷ ts) scheduled q =
        after_one t ts scheduled q (apply_async (message common queue t) q)
          (delivers (message common queue t) q) (enqueue_all-Sent delivers ts (scheduled + 1))

    -- Where enqueue_for_current_releases returns, Celery has been sent one message for every pair that
    -- current_world_release_targets lists, in that order and nothing else: each has the pair's World under
    -- world_id and the pair's release under release_id, whatever the common arguments have there. The
    -- returned number is the number of pairs. (Celery takes what it is sent, where it does not raise.)
    pub enqueue_for_current_releases-sends :
        Delivers
        → (db : Registry) (q q' : Q) (n : ℕ)
        → enqueue_for_current_releases apply_async db common queue q ≡ (ok n, q')
        → (sent q' ≡ (sent q ++ map (message common queue) (current_world_release_targets db)))
          × (map ids_of (map (message common queue) (current_world_release_targets db))
              ≡ map as_ids (current_world_release_targets db))
          × (n ≡ length (current_world_release_targets db))
    unfolding enqueue_for_current_releases
    enqueue_for_current_releases-sends delivers db q q' n e =
        let all =
          subst (Holds (Sent (current_world_release_targets db) 0 q)) e
            (enqueue_all-Sent delivers (current_world_release_targets db) 0 q) in
        (all.0, messages_name common queue (current_world_release_targets db), omega (arith, all.1))
