-- ===== src/Copy/Stepping.antt =====
-- The invariant of the sweep, and that a round keeps it.
use konnaxion_worlds.Base.{
  suc, ◌-◌, ◌≡◌, refl, ap, sym, ◌∙◌, subst, Bool, true, false, ◌&&◌, ◌||◌, List, [], ◌∷◌, ◌++◌, inl,
  inr, Text, text_eq_refl, length, any, keep, arith, Bool-cases, if◌then◌else◌, ◌==◌,
}
use konnaxion_worlds.Plane.{contains}
use konnaxion_worlds.Copy.{Sweep, parents, children, relax_all, place, first_sweep}
use konnaxion_worlds.Copy.Counting.{
  contains-append, contains-keep, IsDistinct, keep-IsDistinct, left, left-pos, left-snoc,
}
use konnaxion_worlds.Copy.Sweeping.{
  distinct-front, append_nil, append_assoc, relax_all-indegree, relax_all-ordered, relax_all-queue,
  relax_all-IsDistinct,
}

module _ (child_of : Text → Text → Bool) (tables : List Text) where
  -- Every parent of a listed table stands before it, or in `seen`.
  abbrev pub ParentsFirst : List Text → List Text → Type 0
  ParentsFirst seen [] = Unit
  ParentsFirst seen (t ∷ ts) =
      ((p : Text) → contains p tables ≡ true → child_of t p ≡ true → contains p seen ≡ true)
      × ParentsFirst (seen ++ t ∷ []) ts

  ParentsFirst-snoc :
      (seen ts : List Text) (t : Text)
      → ParentsFirst seen ts
      → ((p : Text)
          → contains p tables ≡ true
          → child_of t p ≡ true
          → contains p (seen ++ ts) ≡ true)
      → ParentsFirst seen (ts ++ t ∷ [])
  ParentsFirst-snoc seen [] t h last =
      ((λ p m e. subst (λ l. contains p l ≡ true) (append_nil seen) (last p m e)), tt)
  ParentsFirst-snoc seen (u ∷ ts) t h last = (
    h.0,
    ParentsFirst-snoc (seen ++ u ∷ []) ts t h.1
        (λ p m e. subst (λ l. contains p l ≡ true) (append_assoc seen (u ∷ []) ts) (last p m e)),
  )

  pub record Inv (s : Sweep) : Type 0 where
    pub distinct : IsDistinct (s.ordered ++ s.queue)
    pub known : (t : Text) → contains t (s.ordered ++ s.queue) ≡ true → contains t tables ≡ true
    pub counts :
        (t : Text)
        → contains t tables ≡ true
        → s.indegree t ≡ left s.ordered (parents child_of tables t)
    pub settled :
        (t : Text)
        → contains t tables ≡ true
        → s.indegree t ≡ 0
        → contains t (s.ordered ++ s.queue) ≡ true
    pub waiting : (t : Text) → contains t (s.ordered ++ s.queue) ≡ true → s.indegree t ≡ 0
    pub sorted : ParentsFirst [] s.ordered

  module _ (unique : IsDistinct tables) where
    left-none : (ts : List Text) → left [] ts ≡ length ts
    unfolding keep contains any
    left-none [] = refl
    left-none (t ∷ ts) = ap suc (left-none ts)

    pub first_sweep-Inv : Inv (first_sweep child_of tables)
    unfolding contains any
    first_sweep-Inv = record {
      distinct = keep-IsDistinct (λ t. length (parents child_of tables t) == 0) tables unique;
      known = λ t m.
          ground (arith, contains-keep (λ t. length (parents child_of tables t) == 0) t tables);
      counts = λ t m. sym (left-none (parents child_of tables t));
      settled = λ t m e.
          contains-keep (λ t. length (parents child_of tables t) == 0) t tables
          ∙ ground (arith, m, e);
      waiting = λ t m.
          ground (arith, contains-keep (λ t. length (parents child_of tables t) == 0) t tables);
      sorted = tt;
    }

    module _ (s : Sweep) (table : Text) (rest : List Text) (h : Inv s)
        (e : s.queue ≡ table ∷ rest) where
      abbrev mid : Sweep
      mid = place child_of tables table rest s

      abbrev next : Sweep
      next = relax_all child_of tables (children child_of tables table) mid

      same_list : (s.ordered ++ s.queue) ≡ (mid.ordered ++ mid.queue)
      same_list = ap (λ q. s.ordered ++ q) e ∙ append_assoc s.ordered (table ∷ []) rest

      mid-distinct : IsDistinct (mid.ordered ++ mid.queue)
      mid-distinct = subst IsDistinct same_list h.distinct

      -- Listed now: placed, this table included, or queued.
      listed :
          (t : Text)
          → contains t (s.ordered ++ s.queue) ≡ (contains t mid.ordered || contains t rest)
      listed t = ap (contains t) same_list ∙ contains-append t mid.ordered rest

      table_listed : contains table mid.ordered ≡ true
      unfolding contains any
      table_listed =
          contains-append table s.ordered (table ∷ []) ∙ ground (arith, text_eq_refl table)

      table_known : contains table tables ≡ true
      table_known = h.known table (listed table ∙ rw table_listed refl)

      table_new : contains table s.ordered ≡ false
      table_new =
          distinct-front s.ordered table rest
            (subst IsDistinct (ap (λ q. s.ordered ++ q) e) h.distinct)

      is_child :
          (t : Text)
          → contains t (children child_of tables table) ≡ (contains t tables && child_of t table)
      is_child t = contains-keep (λ child. child_of child table) t tables

      is_parent :
          (t : Text)
          → contains table (parents child_of tables t) ≡ (contains table tables && child_of t table)
      is_parent t = contains-keep (child_of t) table tables

      children_distinct : IsDistinct (children child_of tables table)
      children_distinct = keep-IsDistinct (λ child. child_of child table) tables unique

      degree :
          (t : Text)
          → next.indegree t ≡ (
              if contains t (children child_of tables table)
              then s.indegree t - 1
              else s.indegree t)
      degree t =
          relax_all-indegree child_of tables (children child_of tables table) mid t
            children_distinct

      now_listed :
          (t : Text)
          → contains t (next.ordered ++ next.queue) ≡ (
              contains t mid.ordered
              || (contains t rest
                  || (contains t (children child_of tables table) && s.indegree t == 1)))
      now_listed t =
          contains-append t next.ordered next.queue
          ∙ ap (λ o. contains t o || contains t next.queue)
              (relax_all-ordered child_of tables (children child_of tables table) mid)
          ∙ ap (λ b. contains t mid.ordered || b)
              (relax_all-queue child_of tables (children child_of tables table) mid t
                children_distinct)

      pub same_ordered : next.ordered ≡ mid.ordered
      same_ordered = relax_all-ordered child_of tables (children child_of tables table) mid

      before :
          (p : Text)
          → contains p tables ≡ true
          → child_of table p ≡ true
          → contains p s.ordered ≡ true
      before p m c = elim (Bool-cases (contains p s.ordered)) [
        | inl t ↦ t
        | inr n ↦
            let some_left =
              left-pos s.ordered p (parents child_of tables table) n
                (contains-keep (child_of table) p tables ∙ rw (m, c) refl) in
            let none_left = h.waiting table (listed table ∙ rw table_listed refl) in
            absurd (omega (arith, some_left, none_left, h.counts table table_known))
      ]

      pub step-Inv : Inv next
      step-Inv = record {
        distinct =
            subst (λ o. IsDistinct (o ++ next.queue)) (sym same_ordered)
              (relax_all-IsDistinct child_of tables (children child_of tables table) mid
                children_distinct
                (λ t m one. ground (arith, one, ap (contains t) same_list, h.waiting t))
                mid-distinct);
        known = λ t m. ground (arith, now_listed t, is_child t, listed t, h.known t);
        counts = λ t m.
            degree t
            ∙ ground (
              arith,
              m,
              h.counts t m,
              is_child t,
              is_parent t,
              table_known,
              left-snoc s.ordered table (parents child_of tables t) table_new
                  (keep-IsDistinct (child_of t) tables unique),
            )
            ∙ ap (λ o. left o (parents child_of tables t)) (sym same_ordered);
        settled = λ t m zero_now.
            ground (arith, m, zero_now, now_listed t, degree t, listed t, h.settled t m);
        waiting = λ t m. ground (arith, m, now_listed t, degree t, listed t, h.waiting t);
        sorted =
            subst (ParentsFirst []) (sym same_ordered)
              (ParentsFirst-snoc [] s.ordered table h.sorted before);
      }
