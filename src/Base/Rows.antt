-- ===== src/Base/Rows.antt =====
-- Tables as lists of rows. A row is found by its number, and a save replaces the row that has it.
use Prim.Native.Nat.{ℕ}
use mathlib.Core.Path.{◌≡◌, refl, subst}
use mathlib.Core.Logic.{◌≢◌, ◌⊎◌, inl, inr}
use mathlib.Core.Option.{Option, none, some}
use mathlib.Core.List.{List, [], ◌∷◌}
use native.Mathlib.Omega.{arith}
use konnaxion_worlds.Base.Tests.{◌==◌, ==_iff, if◌then◌else◌, is_some, Bool-cases}
use konnaxion_worlds.Base.Lists.{In}

module _ {A : Type 0} (id : A → ℕ) where
  -- objects.filter(pk=i).first()
  unfoldable pub find : ℕ → List A → Option A
  find i [] = none
  find i (x ∷ xs) = if id x == i then some x else find i xs

  -- row.save()
  unfoldable pub put : A → List A → List A
  put r [] = []
  put r (x ∷ xs) = (if id x == id r then r else x) ∷ put r xs

  -- row.delete()
  unfoldable pub remove : ℕ → List A → List A
  remove i [] = []
  remove i (x ∷ xs) = let rest = remove i xs in if id x == i then rest else x ∷ rest

  pub find-put :
      (i : ℕ) (r : A) (xs : List A)
      → find i (put r xs)
        ≡ (if id r == i then (if is_some (find i xs) then some r else none) else find i xs)
  unfolding find put
  find-put i r [] = ground arith
  find-put i r (x ∷ xs) = ground (arith, find-put i r xs)

  pub find-remove :
      (i j : ℕ) (xs : List A) → find i (remove j xs) ≡ (if i == j then none else find i xs)
  unfolding find remove
  find-remove i j [] = ground arith
  find-remove i j (x ∷ xs) = ground (arith, find-remove i j xs)

  pub find-In : (i : ℕ) (xs : List A) {r : A} → find i xs ≡ some r → In r xs × (id r ≡ i)
  unfolding find
  find-In i [] h = cc
  find-In i (x ∷ xs) {r} h = ground (arith, find-In i xs {r = r})

  pub In-put : (a r : A) (xs : List A) → In a (put r xs) → (a ≡ r) ⊎ (In a xs × (id a ≢ id r))
  unfolding put
  In-put a r [] m = elim m [ ]
  In-put a r (x ∷ xs) (inl e) = ground arith
  In-put a r (x ∷ xs) (inr m) = ground (arith, In-put a r xs m)

  pub In-put_other : (a r : A) (xs : List A) → In a xs → id a ≢ id r → In a (put r xs)
  unfolding put
  In-put_other a r [] m h = elim m [ ]
  In-put_other a r (x ∷ xs) (inl e) h = ground arith
  In-put_other a r (x ∷ xs) (inr m) h = inr (In-put_other a r xs m h)

  -- What is read of a row stays as it is where the saved row reads the same.
  pub read-put :
      {C : Type 0} (read : Option A → C) (r w : A) (xs : List A)
      → find (id r) xs ≡ some w
      → read (some r) ≡ read (some w)
      → (k : ℕ) → read (find k (put r xs)) ≡ read (find k xs)
  read-put read r w xs found same k = elim (Bool-cases (id r == k)) [
    | inr f ↦ rw (find-put k r xs, f) refl
    | inl t ↦
        let here : find k xs ≡ some w =
          subst (λ i. find i xs ≡ some w) ((==_iff (id r) k).0 t) found in
        rw (find-put k r xs, t, here) same
  ]
