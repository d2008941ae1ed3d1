-- ===== src/Copy/Counting.antt =====
-- Lists of names without repetition: membership as a test, counting, and the pigeonhole principle.
use konnaxion_worlds.Base.{
  ℕ, ◌-◌, ◌≤◌, ◌<◌, ◌≡◌, ◌↔◌, inl, inr, refl, sym, ◌∙◌, subst, Bool, true, false, not, ◌&&◌, ◌||◌,
  List, [], ◌∷◌, ◌++◌, Text, text_eq, text_eq_iff, text_eq_refl, length, any, keep, In, arith,
  Bool-cases, if◌then◌else◌,
}
use konnaxion_worlds.Plane.{contains}

pub contains_iff : (t : Text) (ts : List Text) → (contains t ts ≡ true) ↔ In t ts
unfolding contains any
contains_iff t [] = ground arith
contains_iff t (u ∷ ts) = ground (arith, contains_iff t ts, text_eq_iff u t)

pub contains-append :
    (t : Text) (xs ys : List Text) → contains t (xs ++ ys) ≡ (contains t xs || contains t ys)
unfolding contains any
contains-append t [] ys = refl
contains-append t (x ∷ xs) ys = ground (arith, contains-append t xs ys)

pub contains-keep :
    (p : Text → Bool) (t : Text) (ts : List Text) → contains t (keep p ts) ≡ (contains t ts && p t)
unfolding contains any keep
contains-keep p t [] = refl
contains-keep p t (u ∷ ts) = elim (Bool-cases (text_eq u t)) [
  | inl e ↦
      let same : u ≡ t = (text_eq_iff u t).0 e in
      rw same (ground (arith, contains-keep p t ts, text_eq_refl t))
  | inr f ↦ ground (arith, contains-keep p t ts)
]

abbrev pub IsDistinct : List Text → Type 0
IsDistinct [] = Unit
IsDistinct (t ∷ ts) = (contains t ts ≡ false) × IsDistinct ts

pub keep-IsDistinct : (p : Text → Bool) (ts : List Text) → IsDistinct ts → IsDistinct (keep p ts)
unfolding keep
keep-IsDistinct p [] d = tt
keep-IsDistinct p (t ∷ ts) d = ground (arith, contains-keep p t ts, keep-IsDistinct p ts d.1)

pub text_eq_comm : (a b : Text) → text_eq a b ≡ text_eq b a
text_eq_comm a b = elim (Bool-cases (text_eq a b)) [
  | inl e ↦ e ∙ sym ((text_eq_iff b a).1 (sym ((text_eq_iff a b).0 e)))
  | inr f ↦ elim (Bool-cases (text_eq b a)) [
    | inl e ↦ absurd (cc (f, (text_eq_iff a b).1 (sym ((text_eq_iff b a).0 e))))
    | inr g ↦ f ∙ sym g
  ]
]

pub snoc-IsDistinct :
    (xs : List Text) (t : Text) → IsDistinct xs → contains t xs ≡ false → IsDistinct (xs ++ t ∷ [])
unfolding contains any
snoc-IsDistinct [] t d new = (refl, tt)
snoc-IsDistinct (x ∷ xs) t d new =
    ground (arith, contains-append x xs (t ∷ []), text_eq_comm x t, snoc-IsDistinct xs t d.1)

length-keep : (p : Text → Bool) (ts : List Text) → length (keep p ts) ≤ length ts
unfolding keep
length-keep p [] = omega arith
length-keep p (t ∷ ts) = ground (arith, length-keep p ts)

length-without :
    (x : Text) (ys : List Text)
    → contains x ys ≡ true
    → length (keep (λ y. not (text_eq y x)) ys) < length ys
unfolding contains any keep
length-without x [] h = absurd cc
length-without x (y ∷ ys) h =
    ground (arith, length-keep (λ y. not (text_eq y x)) ys, length-without x ys)

-- A list without repetition whose members all stand in another is no longer than it.
pub pigeonhole :
    (xs ys : List Text)
    → IsDistinct xs
    → ((t : Text) → contains t xs ≡ true → contains t ys ≡ true)
    → length xs ≤ length ys
unfolding contains any
pigeonhole [] ys d sub = omega arith
pigeonhole (x ∷ xs) ys d sub =
    let rest = pigeonhole xs (keep (λ y. not (text_eq y x)) ys) d.1 kept in
    let shorter = length-without x ys (sub x (ground (arith, text_eq_refl x))) in
    omega (arith, rest, shorter)
  where
    kept : (t : Text) → contains t xs ≡ true → contains t (keep (λ y. not (text_eq y x)) ys) ≡ true
    kept t m = elim (Bool-cases (text_eq t x)) [
      | inl e ↦ absurd (cc (d.0, m, (text_eq_iff t x).0 e))
      | inr f ↦
          contains-keep (λ y. not (text_eq y x)) t ys ∙ ground (arith, sub t (ground arith), f)
    ]

-- How many of the names are not in `done`.
abbrev pub left : List Text → List Text → ℕ
left done names = length (keep (λ t. not (contains t done)) names)

pub left-pos :
    (done : List Text) (t : Text) (names : List Text)
    → contains t done ≡ false
    → contains t names ≡ true
    → 1 ≤ left done names
unfolding contains any keep
left-pos done t [] new m = absurd cc
left-pos done t (n ∷ names) new m = elim (Bool-cases (text_eq n t)) [
  | inl e ↦ let same : n ≡ t = (text_eq_iff n t).0 e in rw same (ground arith)
  | inr f ↦ ground (arith, left-pos done t names new)
]

-- A new name in `done` is one name less that is left, if it is one of them.
pub left-snoc :
    (done : List Text) (t : Text) (names : List Text)
    → contains t done ≡ false
    → IsDistinct names
    → left (done ++ t ∷ []) names
      ≡ (if contains t names then left done names - 1 else left done names)
unfolding contains any keep
left-snoc done t [] new d = refl
left-snoc done t (n ∷ names) new d = elim (Bool-cases (text_eq n t)) [
  | inl e ↦
      let same : n ≡ t = (text_eq_iff n t).0 e in
      let seen : contains t names ≡ false = subst (λ x. contains x names ≡ false) same d.0 in
      let unseen : contains n done ≡ false = subst (λ x. contains x done ≡ false) (sym same) new in
      ground (
        arith,
        seen,
        unseen,
        contains-append n done (t ∷ []),
        text_eq_comm n t,
        left-snoc done t names new d.1,
      )
  | inr f ↦ ground (
    arith,
    contains-append n done (t ∷ []),
    text_eq_comm n t,
    left-snoc done t names new d.1,
    left-pos done t names new,
  )
]

pub left-zero :
    (done names : List Text)
    → ((t : Text) → contains t names ≡ true → contains t done ≡ true)
    → left done names ≡ 0
unfolding contains any keep
left-zero done [] all = refl
left-zero done (n ∷ names) all = ground (
  arith,
  all n (ground (arith, text_eq_refl n)),
  left-zero done names (λ t m. all t (ground (arith, m))),
)

pub find-left :
    (done names : List Text)
    → 1 ≤ left done names
    → (p : Text) × (contains p names ≡ true) × (contains p done ≡ false)
unfolding keep contains any
find-left done [] some = absurd (omega (arith, some))
find-left done (n ∷ names) some = elim (Bool-cases (contains n done)) [
  | inl e ↦ later (find-left done names (ground (arith, some, e)))
  | inr new ↦ (n, ground (arith, text_eq_refl n), new)
]
  where
    later :
        ((p : Text) × (contains p names ≡ true) × (contains p done ≡ false))
        → (p : Text) × (contains p (n ∷ names) ≡ true) × (contains p done ≡ false)
    later (p, m, new) = (p, ground (arith, m), new)
