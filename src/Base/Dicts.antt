-- ===== src/Base/Dicts.antt =====
-- Dicts with texts for keys, in the order of insertion.
use mathlib.Core.Path.{◌≡◌, subst}
use mathlib.Core.Logic.{inl, inr}
use mathlib.Core.Bool.{false}
use mathlib.Core.Option.{Option, none, some}
use mathlib.Core.List.{List, [], ◌∷◌}
use native.Mathlib.Omega.{arith}
use konnaxion_worlds.Base.Tests.{if◌then◌else◌, Bool-cases}
use konnaxion_worlds.Base.Chars.{Text, text_eq, text_eq_iff, text_eq_refl}

module _ {V : Type 0} where
  -- d[key] = value, which keeps the place of a key that is there
  unfoldable pub set_key : Text → V → List (Text × V) → List (Text × V)
  set_key key value [] = (key, value) ∷ []
  set_key key value ((k, v) ∷ rest) =
      let others = set_key key value rest in
      if text_eq k key then (key, value) ∷ rest else (k, v) ∷ others

  unfoldable pub get_key : Text → List (Text × V) → Option (V)
  get_key key [] = none
  get_key key ((k, v) ∷ rest) = if text_eq k key then some v else get_key key rest

  pub get_key-set_key :
      (k l : Text) (v : V) (d : List (Text × V))
      → get_key k (set_key l v d) ≡ (if text_eq l k then some v else get_key k d)
  unfolding get_key set_key
  get_key-set_key k l v [] = ground arith
  get_key-set_key k l v ((m, w) ∷ d) = elim (Bool-cases (text_eq m l)) [
    | inl e ↦
        let same : m ≡ l = (text_eq_iff m l).0 e in
        rw same (ground (arith, get_key-set_key k l v d, text_eq_refl l))
    | inr f ↦ elim (Bool-cases (text_eq l k)) [
      | inl e ↦
          let same : l ≡ k = (text_eq_iff l k).0 e in
          let other : text_eq m k ≡ false = subst (λ x. text_eq m x ≡ false) same f in
          ground (arith, f, e, other, get_key-set_key k l v d)
      | inr g ↦ ground (arith, f, g, get_key-set_key k l v d)
    ]
  ]
