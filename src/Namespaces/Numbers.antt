-- ===== src/Namespaces/Numbers.antt =====
-- Names that begin with the numbers of a World and of a release.
use konnaxion_worlds.Base.{
  ℕ, ◌≡◌, ◌≢◌, ◌⊎◌, inl, inr, false, ◌∷◌, ◌++◌, Text, show, show_injective, show-Digits, tens_split,
  append_cancel, is_digit,
}
use konnaxion_worlds.Access.{WorldRuntime}

pub record IsSame (a b : WorldRuntime) : Type 0 where
  pub world : a.world_id ≡ b.world_id
  pub release : a.release_id ≡ b.release_id

-- Another World, or another release of the same.
abbrev pub IsOther : WorldRuntime → WorldRuntime → Type 0
IsOther a b = (a.world_id ≢ b.world_id) ⊎ (a.release_id ≢ b.release_id)

pub numbers_lem :
    (before between : Text) (c d : ℕ) (a b : WorldRuntime) (s t : Text)
    → is_digit c ≡ false
    → is_digit d ≡ false
    → (before ++ (show a.world_id ++ c ∷ (between ++ (show a.release_id ++ d ∷ s))))
      ≡ (before ++ (show b.world_id ++ c ∷ (between ++ (show b.release_id ++ d ∷ t))))
    → IsSame a b
numbers_lem before between c d a b s t hc hd e =
    let (worlds, rest) =
      tens_split c (show a.world_id) (show b.world_id) (between ++ (show a.release_id ++ d ∷ s))
        (between ++ (show b.release_id ++ d ∷ t)) hc (show-Digits a.world_id)
        (show-Digits b.world_id) (append_cancel before _ _ e) in
    let (releases, last) =
      tens_split d (show a.release_id) (show b.release_id) s t hd (show-Digits a.release_id)
        (show-Digits b.release_id) (append_cancel between _ _ rest) in
    record {
      world = show_injective a.world_id b.world_id worlds;
      release = show_injective a.release_id b.release_id releases;
    }

pub IsOther-differs : (a b : WorldRuntime) → IsOther a b → ¬ IsSame a b
IsOther-differs a b (inl world) same = world same.world
IsOther-differs a b (inr release) same = release same.release
