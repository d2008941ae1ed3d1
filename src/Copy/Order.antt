-- ===== src/Copy/Order.antt =====
-- The sweep ends with an empty queue, and what its list is.
use konnaxion_worlds.Base.{
  ℕ, zero, suc, ◌+◌, ◌≤◌, ◌≡◌, ◌⊎◌, refl, ap, sym, ◌∙◌, subst, Bool, true, List, [], ◌∷◌, ◌++◌, inl,
  inr, Text, text_eq, text_eq_iff, length, length-append, any, arith, Bool-cases,
}
use konnaxion_worlds.Base.Exec.{ok}
use konnaxion_worlds.Plane.{contains}
use konnaxion_worlds.Copy.{
  Sweep, parents, children, relax_all, place, sweep, first_sweep, copy_order,
}
use konnaxion_worlds.Copy.Counting.{IsDistinct, pigeonhole, left}
use konnaxion_worlds.Copy.Sweeping.{append_nil}
use konnaxion_worlds.Copy.Stepping.{ParentsFirst, Inv, first_sweep-Inv, step-Inv, same_ordered}

List-cases : (q : List Text) → (q ≡ []) ⊎ ((t : Text) × (rest : List Text) × (q ≡ t ∷ rest))
List-cases [] = inl refl
List-cases (t ∷ rest) = inr (t, rest, refl)

module _ (child_of : Text → Text → Bool) (tables : List Text) (unique : IsDistinct tables) where
  -- A table is placed in every round, and there are no more than the given ones.
  exhausted : (s : Sweep) → Inv child_of tables s → length tables ≤ length s.ordered → s.queue ≡ []
  exhausted s h full = elim (List-cases s.queue) [
    | inl e ↦ e
    | inr (t, rest, e) ↦ absurd (
        omega (
          arith,
          pigeonhole (s.ordered ++ s.queue) tables h.distinct h.known,
          length-append s.ordered s.queue,
          ap length e,
        ))
  ]

  abbrev Done : Sweep → Type 0
  Done t = Inv child_of tables t × (t.queue ≡ [])

  after : (fuel : ℕ) → Sweep → List Text → Sweep
  after fuel s [] = s
  after fuel s (t ∷ rest) =
      sweep child_of tables fuel
        (relax_all child_of tables (children child_of tables t) (place child_of tables t rest s))

  sweep_lem :
      (fuel : ℕ) (s : Sweep)
      → Inv child_of tables s
      → length tables ≤ length s.ordered + fuel
      → Inv child_of tables (sweep child_of tables fuel s)
        × ((sweep child_of tables fuel s).queue ≡ [])
  unfolding sweep after
  sweep_lem zero s h enough = (h, exhausted s h (omega arith))
  sweep_lem (suc fuel) s h enough = elim (List-cases s.queue) [
    | inl e ↦ subst Done (sym (ap (after fuel s) e)) (h, e)
    | inr (t, rest, e) ↦
        let next =
          relax_all child_of tables (children child_of tables t) (place child_of tables t rest s) in
        let placed =
          ap length (same_ordered child_of tables unique s t rest h e)
          ∙ length-append s.ordered (t ∷ []) in
        subst Done (sym (ap (after fuel s) e)) (
          sweep_lem fuel next (step-Inv child_of tables unique s t rest h e)
            (omega (arith, placed, enough)))
  ]

  abbrev pub swept : Sweep
  swept = sweep child_of tables (length tables) (first_sweep child_of tables)

  -- The fuel that copy_order gives is enough.
  swept_lem : Inv child_of tables swept × (swept.queue ≡ [])
  swept_lem =
      sweep_lem (length tables) (first_sweep child_of tables)
        (first_sweep-Inv child_of tables unique) (omega arith)

  -- Once the loop of _copy_order has run for as many rounds as there are tables, its queue is empty, so
  -- that it ends, if no table is given twice.
  pub sweep-ends : (sweep child_of tables (length tables) (first_sweep child_of tables)).queue ≡ []
  sweep-ends = swept_lem.1

  swept_queue : (t : Text) → contains t (swept.ordered ++ swept.queue) ≡ contains t swept.ordered
  swept_queue t =
      ap (λ q. contains t (swept.ordered ++ q)) swept_lem.1
      ∙ ap (contains t) (append_nil swept.ordered)

  pub placed_distinct : IsDistinct swept.ordered
  placed_distinct =
      subst IsDistinct (append_nil swept.ordered)
        (subst (λ q. IsDistinct (swept.ordered ++ q)) swept_lem.1 (swept_lem.0).distinct)

  pub placed_known : (t : Text) → contains t swept.ordered ≡ true → contains t tables ≡ true
  placed_known t m = (swept_lem.0).known t (swept_queue t ∙ m)

  -- A table whose parents have all been placed has been placed.
  pub placed :
      (t : Text)
      → contains t tables ≡ true
      → left swept.ordered (parents child_of tables t) ≡ 0
      → contains t swept.ordered ≡ true
  placed t m none_left =
      sym (swept_queue t) ∙ (swept_lem.0).settled t m ((swept_lem.0).counts t m ∙ none_left)

  -- A list that has room for one more does not hold all tables.
  all_placed :
      length swept.ordered ≡ length tables
      → (t : Text) → contains t tables ≡ true
      → contains t swept.ordered ≡ true
  unfolding contains any
  all_placed full t m = elim (Bool-cases (contains t swept.ordered)) [
    | inl e ↦ e
    | inr new ↦ absurd (
        omega (
          arith,
          full,
          pigeonhole (t ∷ swept.ordered) tables (new, placed_distinct) (λ u h. more t m u h),
        ))
  ]
    where
      more :
          (t : Text)
          → contains t tables ≡ true
          → (u : Text) → contains u (t ∷ swept.ordered) ≡ true
          → contains u tables ≡ true
      more t m u h = elim (Bool-cases (text_eq t u)) [
        | inl e ↦ subst (λ x. contains x tables ≡ true) ((text_eq_iff t u).0 e) m
        | inr f ↦ placed_known u (ground (arith, h, f))
      ]

  -- What copy_schema_data relies on.
  pub record IsCopyOrder (order : List Text) : Type 0 where
    pub once : IsDistinct order
    pub complete : (t : Text) → contains t order ≡ contains t tables
    pub parents_first : ParentsFirst child_of tables [] order

  ok-swept :
      (order : List Text)
      → copy_order child_of tables ≡ ok order
      → (swept.ordered ≡ order) × (length swept.ordered ≡ length tables)
  unfolding copy_order
  ok-swept order e = ground (arith, e)

  -- The order that _copy_order returns lists every given table once and no other, each behind all the
  -- tables that its foreign keys name, if no table is given twice.
  pub copy_order-IsCopyOrder :
      (order : List Text) → copy_order child_of tables ≡ ok order → IsCopyOrder order
  copy_order-IsCopyOrder order e =
      let answer = ok-swept order e in
      subst IsCopyOrder answer.0 (record {
        once = placed_distinct;
        complete = λ t. both t (all_placed answer.1 t);
        parents_first = (swept_lem.0).sorted;
      })
    where
      both :
          (t : Text)
          → (contains t tables ≡ true → contains t swept.ordered ≡ true)
          → contains t swept.ordered ≡ contains t tables
      both t h = ground (arith, h, placed_known t)
