-- ===== src/Copy/Sweeping.antt =====
-- One pass over the children of a table that has been placed.
use konnaxion_worlds.Base.{
  ◌-◌, ◌≡◌, refl, ap, subst, Bool, true, false, ◌&&◌, ◌||◌, List, [], ◌∷◌, ◌++◌, inl, inr, Text,
  text_eq, text_eq_iff, text_eq_refl, any, arith, Bool-cases, if◌then◌else◌, ◌==◌,
}
use konnaxion_worlds.Plane.{contains}
use konnaxion_worlds.Copy.{Sweep, relax, relax_all}
use konnaxion_worlds.Copy.Counting.{contains-append, IsDistinct, snoc-IsDistinct, text_eq_comm}

pub distinct-front :
    (xs : List Text) (t : Text) (ys : List Text) → IsDistinct (xs ++ t ∷ ys) → contains t xs ≡ false
unfolding contains any
distinct-front [] t ys d = refl
distinct-front (x ∷ xs) t ys d = ground (
  arith,
  text_eq_refl t,
  text_eq_comm x t,
  contains-append x xs (t ∷ ys),
  distinct-front xs t ys d.1,
)

pub append_nil : (xs : List Text) → (xs ++ []) ≡ xs
append_nil [] = refl
append_nil (x ∷ xs) = ap (λ l. x ∷ l) (append_nil xs)

pub append_assoc : (xs ys zs : List Text) → (xs ++ (ys ++ zs)) ≡ ((xs ++ ys) ++ zs)
append_assoc [] ys zs = refl
append_assoc (x ∷ xs) ys zs = ap (λ l. x ∷ l) (append_assoc xs ys zs)

module _ (child_of : Text → Text → Bool) (tables : List Text) where
  -- The degree of a table after a pass over `cs`: one less for a table in it.
  pub relax_all-indegree :
      (cs : List Text) (s : Sweep) (t : Text)
      → IsDistinct cs
      → (relax_all child_of tables cs s).indegree t
        ≡ (if contains t cs then s.indegree t - 1 else s.indegree t)
  unfolding relax_all relax contains any
  relax_all-indegree [] s t d = refl
  relax_all-indegree (c ∷ cs) s t d = elim (Bool-cases (text_eq c t)) [
    | inl e ↦
        let seen : contains t cs ≡ false =
          subst (λ x. contains x cs ≡ false) ((text_eq_iff c t).0 e) d.0 in
        ground
          (arith, seen, text_eq_comm c t, relax_all-indegree cs (relax child_of tables c s) t d.1)
    | inr f ↦
        ground (arith, text_eq_comm c t, relax_all-indegree cs (relax child_of tables c s) t d.1)
  ]

  pub relax_all-ordered :
      (cs : List Text) (s : Sweep) → (relax_all child_of tables cs s).ordered ≡ s.ordered
  unfolding relax_all relax
  relax_all-ordered [] s = refl
  relax_all-ordered (c ∷ cs) s = relax_all-ordered cs (relax child_of tables c s)

  -- A table is queued after the pass if it was, or if the pass took its last parent.
  pub relax_all-queue :
      (cs : List Text) (s : Sweep) (t : Text)
      → IsDistinct cs
      → contains t (relax_all child_of tables cs s).queue
        ≡ (contains t s.queue || (contains t cs && s.indegree t == 1))
  unfolding relax_all relax contains any
  relax_all-queue [] s t d = ground arith
  relax_all-queue (c ∷ cs) s t d = elim (Bool-cases (text_eq c t)) [
    | inl e ↦
        let same : c ≡ t = (text_eq_iff c t).0 e in
        let seen : contains t cs ≡ false = subst (λ x. contains x cs ≡ false) same d.0 in
        ground (
          arith,
          seen,
          ap s.indegree same,
          contains-append t s.queue (c ∷ []),
          relax_all-queue cs (relax child_of tables c s) t d.1,
        )
    | inr f ↦ ground (
      arith,
      text_eq_comm c t,
      contains-append t s.queue (c ∷ []),
      relax_all-queue cs (relax child_of tables c s) t d.1,
    )
  ]

  pub relax_all-IsDistinct :
      (cs : List Text) (s : Sweep)
      → IsDistinct cs
      → ((t : Text)
          → contains t cs ≡ true
          → s.indegree t ≡ 1
          → contains t (s.ordered ++ s.queue) ≡ false)
      → IsDistinct (s.ordered ++ s.queue)
      → IsDistinct (s.ordered ++ (relax_all child_of tables cs s).queue)
  unfolding relax_all relax contains any
  relax_all-IsDistinct [] s d new h = h
  relax_all-IsDistinct (c ∷ cs) s d new h =
      relax_all-IsDistinct cs (relax child_of tables c s) d.1 later grown
    where
      grown : IsDistinct (s.ordered ++ (relax child_of tables c s).queue)
      grown = elim (Bool-cases (s.indegree c == 1)) [
        | inr f ↦ rw f h
        | inl t ↦
            rw (t, append_assoc s.ordered s.queue (c ∷ []))
              (snoc-IsDistinct (s.ordered ++ s.queue) c h
                (new c (ground (arith, text_eq_refl c)) (ground (arith, t))))
      ]

      later :
          (t : Text)
          → contains t cs ≡ true
          → (relax child_of tables c s).indegree t ≡ 1
          → contains t (s.ordered ++ (relax child_of tables c s).queue) ≡ false
      later t m one = elim (Bool-cases (text_eq c t)) [
        | inl e ↦ absurd (cc (m, d.0, (text_eq_iff c t).0 e))
        | inr f ↦ ground (
          arith,
          f,
          text_eq_comm c t,
          new t (ground arith),
          contains-append t s.ordered s.queue,
          contains-append t s.ordered (s.queue ++ c ∷ []),
          contains-append t s.queue (c ∷ []),
        )
      ]
