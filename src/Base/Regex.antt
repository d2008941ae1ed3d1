-- ===== src/Base/Regex.antt =====
-- The text operations of `re` and `str` that the program uses: substitution of runs, strip, slices.
use Prim.Native.Nat.{ℕ, zero, suc, ◌≤◌}
use mathlib.Core.Path.{◌≡◌, refl}
use mathlib.Core.Logic.{inl, inr}
use mathlib.Core.Bool.{Bool, true, false, not, ◌&&◌}
use mathlib.Core.List.{[], ◌∷◌}
use native.Mathlib.Omega.{arith}
use konnaxion_worlds.Base.Tests.{if◌then◌else◌, Bool-cases}
use konnaxion_worlds.Base.Lists.{All, length}
use konnaxion_worlds.Base.Chars.{Text}

-- re.sub("[^…]+", "_", s) for the class `p`: each run outside of it becomes one underscore. The
-- flag says that the character before was outside too.
unfoldable pub sub_runs : (ℕ → Bool) → Bool → Text → Text
sub_runs p in_run [] = []
sub_runs p in_run (c ∷ s) =
    let rest = sub_runs p (not (p c)) s in
    if p c then c ∷ rest else if in_run then rest else b'_' ∷ rest

-- s.lstrip(chars)
unfoldable pub lstrip : (ℕ → Bool) → Text → Text
lstrip p [] = []
lstrip p (c ∷ s) = let rest = lstrip p s in if p c then rest else c ∷ s

abbrev is_empty : Text → Bool
is_empty [] = true
is_empty (c ∷ s) = false

-- s.rstrip(chars)
unfoldable pub rstrip : (ℕ → Bool) → Text → Text
rstrip p [] = []
rstrip p (c ∷ s) = let rest = rstrip p s in if is_empty rest && p c then [] else c ∷ rest

-- s.strip(chars)
unfoldable pub strip : (ℕ → Bool) → Text → Text
unfolding lstrip rstrip
strip p s = rstrip p (lstrip p s)

-- s[:n]
unfoldable pub take : ℕ → Text → Text
take zero s = []
take (suc n) [] = []
take (suc n) (c ∷ s) = c ∷ take n s

-- s or fallback
abbrev pub or_else : Text → Text → Text
or_else [] d = d
or_else (c ∷ s) d = c ∷ s

unfoldable pub all_chars : (ℕ → Bool) → Text → Bool
all_chars p [] = true
all_chars p (c ∷ s) = p c && all_chars p s

pub all_chars_iff : (p : ℕ → Bool) (s : Text) → All (λ c. p c ≡ true) s → all_chars p s ≡ true
unfolding all_chars
all_chars_iff p [] h = refl
all_chars_iff p (c ∷ s) h = ground (arith, all_chars_iff p s)

module _ (P : ℕ → Type 0) where
  pub All-sub_runs :
      (p : ℕ → Bool) (in_run : Bool) (s : Text)
      → ((c : ℕ) → p c ≡ true → P c)
      → P b'_'
      → All P (sub_runs p in_run s)
  unfolding sub_runs
  All-sub_runs p in_run [] h u = tt
  All-sub_runs p in_run (c ∷ s) h u = elim (Bool-cases (p c)) [
    | inl inside ↦ rw inside (h c inside, All-sub_runs p false s h u)
    | inr outside ↦ rw outside (run in_run _ (All-sub_runs p true s h u))
  ]
    where
      run : (b : Bool) (rest : Text) → All P rest → All P (if b then rest else b'_' ∷ rest)
      run true rest a = a
      run false rest a = (u, a)

  All-lstrip : (p : ℕ → Bool) (s : Text) → All P s → All P (lstrip p s)
  unfolding lstrip
  All-lstrip p [] h = tt
  All-lstrip p (c ∷ s) h = elim (Bool-cases (p c)) [
    | inl t ↦ rw t (All-lstrip p s h.1)
    | inr t ↦ rw t h
  ]

  All-rstrip : (p : ℕ → Bool) (s : Text) → All P s → All P (rstrip p s)
  unfolding rstrip
  All-rstrip p [] h = tt
  All-rstrip p (c ∷ s) h = elim (Bool-cases (is_empty (rstrip p s) && p c)) [
    | inl t ↦ rw t tt
    | inr t ↦ rw t (h.0, All-rstrip p s h.1)
  ]

  pub All-strip : (p : ℕ → Bool) (s : Text) → All P s → All P (strip p s)
  unfolding strip
  All-strip p s h = All-rstrip p (lstrip p s) (All-lstrip p s h)

  pub All-take : (n : ℕ) (s : Text) → All P s → All P (take n s)
  unfolding take
  All-take zero s h = tt
  All-take (suc n) [] h = tt
  All-take (suc n) (c ∷ s) h = (h.0, All-take n s h.1)

  pub All-or_else : (s d : Text) → All P s → All P d → All P (or_else s d)
  All-or_else [] d hs hd = hd
  All-or_else (c ∷ s) d hs hd = hs

pub length-take : (n : ℕ) (s : Text) → length (take n s) ≤ n
unfolding take
length-take zero s = omega arith
length-take (suc n) [] = omega arith
length-take (suc n) (c ∷ s) = omega (arith, length-take n s)
