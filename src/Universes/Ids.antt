-- ===== src/Universes/Ids.antt =====
-- backend/konnaxion/worlds/services/universe_packs.py, _ensure_universe_worlds: the numbers of Worlds.
use konnaxion_worlds.Base.{
  ℕ, ◌+◌, ◌<◌, ◌≡◌, refl, sym, subst, none, some, List, [], ◌∷◌, ◌++◌, In, Text, text_eq,
  text_eq_iff, find, find-In, find-put, In-put, In-append_split, put, arith, inl, inr, Option-cases,
  Bool-cases, is_some, if◌then◌else◌, ◌==◌,
}
use konnaxion_worlds.Models.{World}
use konnaxion_worlds.Store.{Store, world_id_of}
use konnaxion_worlds.Serving.{serving, pointer_of}
use konnaxion_worlds.Universes.Ensuring.{find_world}
use konnaxion_worlds.Universes.Served.{key_of, key_at}

-- Worlds are found by their numbers, and the next number is free.
abbrev pub HasIds : List World → ℕ → Type 0
HasIds ws next =
    ((w : World) → In w ws → find world_id_of w.id ws ≡ some w)
    × ((w : World) → In w ws → w.id < next)

-- No World serves another release or has another key, and no release has changed.
abbrev pub Carries : Store → Store → Type 0
Carries s t =
    ((k : ℕ) → serving t k ≡ serving s k)
    × ((k : ℕ) (key : Text) → key_at s k ≡ some key → key_at t k ≡ some key)
    × (t.releases ≡ s.releases)

find-append :
    (k : ℕ) (w : World) (ws : List World)
    → find world_id_of k (ws ++ w ∷ []) ≡ (
        if is_some (find world_id_of k ws)
        then find world_id_of k ws
        else if w.id == k
        then some w
        else none)
unfolding find
find-append k w [] = ground arith
find-append k w (x ∷ xs) = ground (arith, find-append k w xs)

pub pointer-append :
    (k : ℕ) (w : World) (ws : List World)
    → w.current_release_id ≡ none
    → pointer_of (find world_id_of k (ws ++ w ∷ [])) ≡ pointer_of (find world_id_of k ws)
pointer-append k w ws h = elim (Option-cases (find world_id_of k ws)) [
  | inr (x, e) ↦ rw (find-append, e) refl
  | inl e ↦ elim (Bool-cases (w.id == k)) [
    | inl t ↦ rw (find-append, e, t) h
    | inr f ↦ rw (find-append, e, f) refl
  ]
]

pub key-append :
    (k : ℕ) (w : World) (ws : List World) (key : Text)
    → key_of (find world_id_of k ws) ≡ some key
    → key_of (find world_id_of k (ws ++ w ∷ [])) ≡ some key
key-append k w ws key h = elim (Option-cases (find world_id_of k ws)) [
  | inr (x, e) ↦ rw (find-append, e) (rw e at h)
  | inl e ↦ absurd (cc (rw e at h))
]

pub find_world-In :
    (key : Text) (ws : List World) {w : World}
    → find_world key ws ≡ some w
    → In w ws × (w.key ≡ key)
unfolding find_world
find_world-In key [] h = absurd cc
find_world-In key (x ∷ xs) {w} h = elim (Bool-cases (text_eq x.key key)) [
  | inl t ↦ ground (arith, (text_eq_iff x.key key).0 t)
  | inr f ↦ ground (arith, f, find_world-In key xs {w = w})
]

module _ (ws : List World) (next : ℕ) (v : HasIds ws next) where
  fresh : find world_id_of next ws ≡ none
  fresh = elim (Option-cases (find world_id_of next ws)) [
    | inl e ↦ e
    | inr (w, e) ↦
        let (listed, same) = find-In world_id_of next ws e in
        absurd (ground (arith, v.1 w listed, same))
  ]

  pub appended-HasIds : (w : World) → w.id ≡ next → HasIds (ws ++ w ∷ []) (next + 1)
  appended-HasIds w e = (
    (λ x m. elim (In-append_split x ws (w ∷ []) m) [
      | inl n ↦ ground (arith, find-append x.id w ws, v.0 x n)
      | inr (inl same) ↦
          let free : find world_id_of w.id ws ≡ none = rw e fresh in
          subst (λ y. find world_id_of y.id (ws ++ w ∷ []) ≡ some y) same
            (ground (arith, find-append w.id w ws, free))
      | inr (inr n) ↦ absurd n
    ]),
    (λ x m. elim (In-append_split x ws (w ∷ []) m) [
      | inl n ↦ omega (arith, v.1 x n)
      | inr (inl same) ↦ subst (λ y. y.id < next + 1) same (omega (arith, e))
      | inr (inr n) ↦ absurd n
    ]),
  )

  pub saved-HasIds :
      (w : World)
      → find world_id_of w.id ws ≡ some w
      → (u : World) → u.id ≡ w.id
      → HasIds (put world_id_of u ws) next
  saved-HasIds w found u same =
      let here : find world_id_of u.id ws ≡ some w = rw same found in
      (
        (λ x m. elim (In-put world_id_of x u ws m) [
          | inl e ↦
              subst (λ y. find world_id_of y.id (put world_id_of u ws) ≡ some y) (sym e)
                (ground (arith, find-put world_id_of u.id u ws, here))
          | inr (n, other) ↦ ground (arith, find-put world_id_of x.id u ws, v.0 x n, other)
        ]),
        (λ x m. elim (In-put world_id_of x u ws m) [
          | inl e ↦
              subst (λ y. y.id < next) (sym e)
                (omega (arith, same, v.1 w (find-In world_id_of w.id ws found).0))
          | inr (n, other) ↦ v.1 x n
        ]),
      )
