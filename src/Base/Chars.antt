-- ===== src/Base/Chars.antt =====
-- Text as the list of its code points: literals, equality, str(int) and the classes of characters
-- that the program's patterns name.
use Prim.Native.Char.{code}
use Prim.Native.Nat.{ℕ, zero, suc, ◌+◌, ◌-◌, ◌*◌, ◌/◌, ◌%◌, ◌^◌, ◌≤◌, ◌<◌}
use Prim.Native.String.{String}
use mathlib.Core.Path.{◌≡◌, refl, ap}
use mathlib.Core.Logic.{◌↔◌, inl, inr}
use mathlib.Core.Bool.{Bool, true, false, ◌&&◌}
use mathlib.Core.List.{List, [], ◌∷◌, ◌++◌}
use native.Mathlib.Nat.{pow-suc}
use native.Mathlib.Omega.{arith}
use konnaxion_worlds.Base.Tests.{◌==◌, leb, ltb, if◌then◌else◌, Bool-cases}
use konnaxion_worlds.Base.Lists.{All, All-append, length, length-append}

abbrev pub Text : Type 0
Text = List ℕ

-- The code points of a literal.
abbrev pub codes : String → Text
codes String.[] = []
codes (String.◌∷◌ c s) = code c ∷ codes s

unfoldable pub text_eq : Text → Text → Bool
text_eq [] [] = true
text_eq [] (d ∷ t) = false
text_eq (c ∷ s) [] = false
text_eq (c ∷ s) (d ∷ t) = (c == d) && text_eq s t

pub text_eq_iff : (s t : Text) → (text_eq s t ≡ true) ↔ (s ≡ t)
unfolding text_eq
text_eq_iff [] [] = ((λ _. refl), (λ _. refl))
text_eq_iff [] (d ∷ t) = ((λ h. cc), (λ h. cc))
text_eq_iff (c ∷ s) [] = ((λ h. cc), (λ h. cc))
text_eq_iff (c ∷ s) (d ∷ t) = ground (arith, text_eq_iff s t)

pub text_eq_refl : (s : Text) → text_eq s s ≡ true
text_eq_refl s = (text_eq_iff s s).1 refl

abbrev pub is_digit : ℕ → Bool
is_digit c = leb b'0' c && leb c b'9'

abbrev pub is_lower : ℕ → Bool
is_lower c = leb b'a' c && leb c b'z'

abbrev pub is_upper : ℕ → Bool
is_upper c = leb b'A' c && leb c b'Z'

abbrev pub Digits : Text → Type 0
Digits = All (λ c. is_digit c ≡ true)

abbrev head_or : ℕ → Text → ℕ
head_or d [] = d
head_or d (c ∷ s) = c

abbrev pub drop_head : Text → Text
drop_head [] = []
drop_head (c ∷ s) = s

-- str(n), for n ≥ 0. The fuel `n + 1` is above the number of digits.
show_digits : ℕ → ℕ → Text
show_digits zero n = []
show_digits (suc fuel) n =
    let front = show_digits fuel (n / 10) in
    if ltb n 10 then (b'0' + n) ∷ [] else front ++ (b'0' + n % 10) ∷ []

unfoldable pub show : ℕ → Text
unfolding show_digits
show n = show_digits (suc n) n

pub value : ℕ → Text → ℕ
value acc [] = acc
value acc (c ∷ s) = value (acc * 10 + (c - b'0')) s

value-append : (acc : ℕ) (s t : Text) → value acc (s ++ t) ≡ value (value acc s) t
unfolding value
value-append acc [] t = refl
value-append acc (c ∷ s) t = value-append (acc * 10 + (c - b'0')) s t

value-show_digits : (fuel n : ℕ) → n < fuel → value 0 (show_digits fuel n) ≡ n
unfolding show_digits value
value-show_digits zero n h = absurd (omega arith)
value-show_digits (suc fuel) n h = ground (
  arith,
  value-show_digits fuel (n / 10),
  value-append 0 (show_digits fuel (n / 10)) ((b'0' + n % 10) ∷ []),
)

-- Reading the digits back gives the number, so distinct numbers print differently.
pub value-show : (n : ℕ) → value 0 (show n) ≡ n
unfolding show
value-show n = value-show_digits (suc n) n (omega arith)

pub show_injective : (m n : ℕ) → show m ≡ show n → m ≡ n
show_injective m n e = cc (value-show m, value-show n, ap (value 0) e)

show_digits-Digits : (fuel n : ℕ) → Digits (show_digits fuel n)
unfolding show_digits
show_digits-Digits zero n = tt
show_digits-Digits (suc fuel) n = elim (Bool-cases (ltb n 10)) [
  | inl last ↦ rw last (ground arith, tt)
  | inr more ↦ rw more (
      All-append (λ c. is_digit c ≡ true) (show_digits fuel (n / 10)) ((b'0' + n % 10) ∷ [])
        (show_digits-Digits fuel (n / 10)) (ground arith, tt))
]

pub show-Digits : (n : ℕ) → Digits (show n)
unfolding show
show-Digits n = show_digits-Digits (suc n) n

length-show_digits : (k fuel n : ℕ) → n < 10 ^ suc k → length (show_digits fuel n) ≤ suc k
unfolding show_digits
length-show_digits k zero n h = omega arith
length-show_digits zero (suc fuel) n h = elim (Bool-cases (ltb n 10)) [
  | inl last ↦ rw last (omega arith)
  | inr more ↦ absurd (ground arith)
]
length-show_digits (suc k) (suc fuel) n h = elim (Bool-cases (ltb n 10)) [
  | inl last ↦ rw last (omega arith)
  | inr more ↦ rw more (
      omega (
        arith,
        length-append (show_digits fuel (n / 10)) ((b'0' + n % 10) ∷ []),
        length-show_digits k fuel (n / 10) (omega (arith, pow-suc 10 (suc k))),
      ))
]

-- A number below 10 ^ k has at most k digits, for k > 0.
pub length-show : (k n : ℕ) → n < 10 ^ suc k → length (show n) ≤ suc k
unfolding show
length-show k n h = length-show_digits k (suc n) n h

-- Two texts that begin with digits and then have the same separator agree in both parts.
pub tens_split :
    (c : ℕ) (a b s t : Text)
    → is_digit c ≡ false
    → Digits a
    → Digits b
    → a ++ c ∷ s ≡ b ++ c ∷ t
    → (a ≡ b) × (s ≡ t)
tens_split c [] [] s t hc ha hb e = (refl, ap (drop_head) e)
tens_split c [] (y ∷ b) s t hc ha hb e = absurd (cc (hb.0, hc))
tens_split c (x ∷ a) [] s t hc ha hb e = absurd (cc (ha.0, hc))
tens_split c (x ∷ a) (y ∷ b) s t hc ha hb e =
    let (p, q) = tens_split c a b s t hc ha.1 hb.1 (ap drop_head e) in (cc p, q)

pub append_cancel : (p s t : Text) → p ++ s ≡ p ++ t → s ≡ t
append_cancel [] s t e = e
append_cancel (c ∷ p) s t e = append_cancel p s t (ap drop_head e)
