-- ===== src/Copy/Progress.antt =====
-- When _copy_order returns an order and when it raises.
use konnaxion_worlds.Base.{
  ℕ, zero, suc, ◌≤◌, ◌<◌, ◌≡◌, ◌≢◌, subst, Bool, true, false, not, ◌&&◌, List, inl, inr, Text,
  length, keep, arith, Bool-cases, ◌==◌,
}
use konnaxion_worlds.Base.Exec.{ok, err}
use konnaxion_worlds.Plane.{contains}
use konnaxion_worlds.Copy.{parents, sweep, first_sweep, copy_order}
use konnaxion_worlds.Copy.Counting.{
  contains-keep, IsDistinct, pigeonhole, left, left-pos, left-zero, find-left,
}
use konnaxion_worlds.Copy.Order.{placed, placed_distinct, placed_known}

module _ (child_of : Text → Text → Bool) (tables : List Text) (unique : IsDistinct tables) where
  abbrev pub final : List Text
  final = (sweep child_of tables (length tables) (first_sweep child_of tables)).ordered

  abbrev pub Ranked : (Text → ℕ) → Type 0
  Ranked rank =
      (child parent : Text)
      → contains child tables ≡ true
      → contains parent tables ≡ true
      → child_of child parent ≡ true
      → rank parent < rank child

  placed_after :
      (t : Text)
      → contains t tables ≡ true
      → ((p : Text) → contains p tables ≡ true → child_of t p ≡ true → contains p final ≡ true)
      → contains t final ≡ true
  placed_after t m before =
      placed child_of tables unique t m
        (left-zero final (parents child_of tables t) (λ p h. parent p h (before p)))
    where
      parent :
          (p : Text)
          → contains p (parents child_of tables t) ≡ true
          → (contains p tables ≡ true → child_of t p ≡ true → contains p final ≡ true)
          → contains p final ≡ true
      parent p h b = ground (arith, h, contains-keep (child_of t) p tables, b)

  below :
      (rank : Text → ℕ)
      → Ranked rank
      → (n : ℕ) (t : Text) → rank t < n
      → contains t tables ≡ true
      → contains t final ≡ true
  below rank ranked zero t lt m = absurd (omega (arith, lt))
  below rank ranked (suc n) t lt m =
      placed_after t m (λ p h c. below rank ranked n p (omega (arith, lt, ranked t p m h c)) h)

  full_length :
      ((t : Text) → contains t tables ≡ true → contains t final ≡ true)
      → length final ≡ length tables
  full_length all = omega (
    arith,
    pigeonhole final tables (placed_distinct child_of tables unique)
        (placed_known child_of tables unique),
    pigeonhole tables final unique all,
  )

  -- _copy_order returns an order, and raises nothing, if no table is given twice and the tables can be
  -- ranked so that the table that a foreign key names ranks below the table that has the key.
  pub copy_order-returns : (rank : Text → ℕ) → Ranked rank → copy_order child_of tables ≡ ok final
  unfolding copy_order
  copy_order-returns rank ranked =
      ground (arith, full_length (λ t m. below rank ranked (suc (rank t)) t (omega arith) m))

  abbrev missing_of : List Text
  missing_of = keep (λ t. not (contains t final)) tables

  -- What the error names: some tables, each with a foreign key to one of them.
  pub record IsCyclic (missing : List Text) : Type 0 where
    pub some_left : 1 ≤ length missing
    pub each_waits :
        (t : Text)
        → contains t missing ≡ true
        → (p : Text) × (contains p missing ≡ true) × (child_of t p ≡ true)

  err-swept :
      (missing : List Text)
      → copy_order child_of tables ≡ err missing
      → (missing_of ≡ missing) × (length final ≢ length tables)
  unfolding copy_order
  err-swept missing e = ground (arith, e)

  is_missing : (t : Text) → contains t missing_of ≡ (contains t tables && not (contains t final))
  is_missing t = contains-keep (λ u. not (contains u final)) t tables

  waits :
      (t : Text)
      → contains t tables ≡ true
      → contains t final ≡ false
      → 1 ≤ left final (parents child_of tables t)
  waits t m new = ground (arith, placed child_of tables unique t m, new)

  still_waits :
      (t : Text)
      → ((p : Text) × (contains p (parents child_of tables t) ≡ true) × (contains p final ≡ false))
      → (p : Text) × (contains p missing_of ≡ true) × (child_of t p ≡ true)
  still_waits t (p, m, new) = (
    p,
    ground (arith, is_missing p, contains-keep (child_of t) p tables, m, new),
    ground (arith, contains-keep (child_of t) p tables, m),
  )

  -- Where _copy_order raises, if no table is given twice, the tables that its error names are not
  -- none, and each of them has a foreign key to a table that is among them: there is a cycle.
  pub copy_order-IsCyclic :
      (missing : List Text) → copy_order child_of tables ≡ err missing → IsCyclic missing
  copy_order-IsCyclic missing e =
      let answer = err-swept missing e in
      subst IsCyclic answer.0 (record {
        some_left = some_left answer.1;
        each_waits = λ t m.
            let there : contains t tables ≡ true = ground (arith, m, is_missing t) in
            let new : contains t final ≡ false = ground (arith, m, is_missing t) in
            still_waits t (find-left final (parents child_of tables t) (waits t there new));
      })
    where
      some_left : length final ≢ length tables → 1 ≤ length missing_of
      some_left short = elim (Bool-cases (length missing_of == 0)) [
        | inl none ↦ absurd (
            short (
              full_length (λ t m. elim (Bool-cases (contains t final)) [
                | inl e' ↦ e'
                | inr new ↦ absurd (ground (arith, none, left-pos final t tables new m))
              ])))
        | inr some ↦ ground (arith, some)
      ]
