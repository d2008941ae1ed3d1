-- ===== src/Base/Exec.antt =====
-- Code that reads and writes a store and may raise: what was written before a raise stays written,
-- unless a transaction takes it back.
use mathlib.Core.Path.{◌≡◌, refl, ap, subst}
use mathlib.Core.Logic.{◌⊎◌, inl, inr}

pub data Result {ℓ} (E A : Type ℓ) : Type ℓ where
  ok : A → Result E A
  err : E → Result E A

abbrev pub result_or {ℓ} : {E A : Type ℓ} → A → Result E A → A
result_or d (ok a) = a
result_or d (err e) = d

abbrev error_or {ℓ} : {E A : Type ℓ} → E → Result E A → E
error_or d (ok a) = d
error_or d (err e) = e

pub Result-cases {ℓ} :
    {E A : Type ℓ} (r : Result E A) → ((a : A) × (r ≡ ok a)) ⊎ ((e : E) × (r ≡ err e))
Result-cases (ok a) = inl (a, refl)
Result-cases (err e) = inr (e, refl)

-- A step that may raise, with no store.
module _ {ℓ} {E A B : Type ℓ} where
  abbrev pub and_then : Result E A → (A → Result E B) → Result E B
  and_then (err e) next = err e
  and_then (ok a) next = next a

  pub and_then-ok :
      (x : Result E A) (next : A → Result E B) {b : B}
      → and_then x next ≡ ok b
      → (a : A) × (x ≡ ok a) × (next a ≡ ok b)
  and_then-ok (ok a) next h = (a, refl, h)
  and_then-ok (err e) next h = absurd cc

abbrev pub Exec {ℓ} : Type ℓ → Type ℓ → Type ℓ → Type ℓ
Exec E S A = S → Result E A × S

module _ {ℓ} {E S A : Type ℓ} where
  abbrev pub pure : A → Exec E S A
  pure a s = (ok a, s)

  abbrev pub raise : E → Exec E S A
  raise e s = (err e, s)

  abbrev pub settle : S → Result E A × S → Result E A × S
  settle s (ok a, s') = (ok a, s')
  settle s (err e, s') = (err e, s)

  -- with transaction.atomic(): a raise restores the store that was there at the entry.
  abbrev pub atomic : Exec E S A → Exec E S A
  atomic m s = settle s (m s)

  abbrev pub recover : Result E A × S → (E → Exec E S A) → Result E A × S
  recover (ok a, s') handler = (ok a, s')
  recover (err e, s') handler = handler e s'

  -- try: m  except Exception as e: handler(e)
  abbrev pub try_except : Exec E S A → (E → Exec E S A) → Exec E S A
  try_except m handler s = recover (m s) handler

module _ {ℓ} {E S A B : Type ℓ} where
  abbrev pub continue : Result E A × S → (A → Exec E S B) → Result E B × S
  continue (ok a, s') f = f a s'
  continue (err e, s') f = (err e, s')

  infixl 5 ◌>>=◌ ◌>>◌
  abbrev pub ◌>>=◌ : Exec E S A → (A → Exec E S B) → Exec E S B
  ◌>>=◌ m f s = continue (m s) f

  abbrev pub ◌>>◌ : Exec E S A → Exec E S B → Exec E S B
  ◌>>◌ m n s = continue (m s) (λ _. n)

-- A transaction that raises leaves no trace in the store.
pub atomic-err {ℓ} :
    {E S A : Type ℓ} (m : Exec E S A) (s : S) {e : E} → (atomic m s).0 ≡ err e → (atomic m s).1 ≡ s
atomic-err {E = E} {S} {A} m s h = restored (m s) h
  where
    restored : (r : Result E A × S) {e : E} → (settle s r).0 ≡ err e → (settle s r).1 ≡ s
    restored (ok a, s') h = cc
    restored (err e, s') h = λ i. s

-- What holds of the value and the store of a run that returns.
module _ {ℓ κ} {E S : Type ℓ} where
  abbrev pub Holds : {A : Type ℓ} → (A → S → Type κ) → Result E A × S → Type κ
  Holds P (ok a, s) = P a s
  Holds P (err e, s) = Unit

  pub Holds-ok :
      {A : Type ℓ} (P : A → S → Type κ) (x : Result E A × S) {a : A}
      → Holds P x
      → x.0 ≡ ok a
      → P a x.1
  Holds-ok P (ok b, s) {a} h e = subst (λ y. P y s) (ap (result_or b) e) h
  Holds-ok P (err b, s) h e = absurd cc

  pub bind-Holds :
      {A B : Type ℓ} (P : B → S → Type κ) (x : Result E A × S) (f : A → Exec E S B)
      → ((a : A) (s : S) → Holds P (f a s))
      → Holds P (continue x f)
  bind-Holds P (ok a, s) f h = h a s
  bind-Holds P (err e, s) f h = tt

  pub recover-Holds :
      {A : Type ℓ} (P : A → S → Type κ) (x : Result E A × S) (handler : E → Exec E S A)
      → Holds P x
      → ((e : E) (s : S) → Holds P (handler e s))
      → Holds P (recover x handler)
  recover-Holds P (ok a, s) handler h k = h
  recover-Holds P (err e, s) handler h k = k e s

-- A run that returns is made of runs that return.
module _ {ℓ} {E S A B : Type ℓ} where
  pub continue-ok :
      (x : Result E A × S) (f : A → Exec E S B) {b : B}
      → (continue x f).0 ≡ ok b
      → (a : A) × (x.0 ≡ ok a) × (continue x f ≡ f a x.1) × ((f a x.1).0 ≡ ok b)
  continue-ok (ok a, s) f h = (a, refl, refl, h)
  continue-ok (err e, s) f h = absurd cc

  pub continue-at :
      (x : Result E A × S) (f : A → Exec E S B) {a : A} → x.0 ≡ ok a → continue x f ≡ f a x.1
  continue-at (ok b, s) f h = ap (λ r. f (result_or b r) s) h
  continue-at (err e, s) f h = absurd cc

  pub continue-err :
      (x : Result E A × S) (f : A → Exec E S B) {e : E} → x.0 ≡ err e → continue x f ≡ (err e, x.1)
  continue-err (ok a, s) f h = absurd cc
  continue-err (err d, s) f {e} h = ap (λ r. (r, s)) (as_err d h)
    where
      as_err :
          (d : E) {e : E}
          → ◌≡◌ {A = Result E A} (err d) (err e)
          → ◌≡◌ {A = Result E B} (err d) (err e)
      as_err d h = ap (λ r. err (error_or d r)) h

pub settle-ok {ℓ} :
    {E S A : Type ℓ} (s : S) (x : Result E A × S) {a : A} → (settle s x).0 ≡ ok a → settle s x ≡ x
settle-ok s (ok a, s') h = refl
settle-ok s (err e, s') h = absurd cc

-- What every step of a run keeps, the run keeps, whether it returns or raises.
module _ {ℓ κ} {E S : Type ℓ} (P : S → Type κ) where
  pub continue-keeps :
      {A B : Type ℓ} (x : Result E A × S) (f : A → Exec E S B)
      → P x.1
      → ((a : A) (s : S) → P s → P (f a s).1)
      → P (continue x f).1
  continue-keeps (ok a, s) f h k = k a s h
  continue-keeps (err e, s) f h k = h

  pub settle-keeps : {A : Type ℓ} (s : S) (x : Result E A × S) → P s → P x.1 → P (settle s x).1
  settle-keeps s (ok a, s') h k = k
  settle-keeps s (err e, s') h k = h
