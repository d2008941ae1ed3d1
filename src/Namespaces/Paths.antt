-- ===== src/Namespaces/Paths.antt =====
-- What a path of world_media_path is made of.
use konnaxion_worlds.Base.{
  ℕ, ◌≡◌, ◌≢◌, ◌↔◌, inl, inr, refl, ap, sym, subst, true, false, List, [], ◌∷◌, ◌++◌, Text, codes,
  show, All, any, keep, text_eq, text_eq_iff, Bool-cases, arith, ◌==◌, length, ◌≤◌,
}
use konnaxion_worlds.Base.Exec.{Result-cases, result_or, ok}
use konnaxion_worlds.Base.Regex.{strip, or_else}
use konnaxion_worlds.Access.{WorldRuntime}
use konnaxion_worlds.Namespaces.{
  split_slash, push_char, parts_or, path_of, prefix_of, is_component, path_parts, slashes,
  safe_relative_parts, join_slash, media_prefix, last_part, safe_name, media_path,
}

-- A component of a path: not empty, not ".", and without a slash.
abbrev pub IsPlain : Text → Type 0
IsPlain p = (is_component p ≡ true) × All (λ c. c ≢ b'/') p

push_All :
    (c : ℕ) (ts : List Text)
    → c ≢ b'/'
    → All (All (λ d. d ≢ b'/')) ts
    → All (All (λ d. d ≢ b'/')) (push_char c ts)
push_All c [] hc h = ((hc, tt), tt)
push_All c (t ∷ ts) hc h = ((hc, h.0), h.1)

split_slash-All : (s : Text) → All (All (λ d. d ≢ b'/')) (split_slash s)
unfolding split_slash
split_slash-All [] = (tt, tt)
split_slash-All (c ∷ s) = elim (Bool-cases (c == b'/')) [
  | inl e ↦ rw e (tt, split_slash-All s)
  | inr f ↦ rw f (push_All c (split_slash s) (ground (arith, f)) (split_slash-All s))
]

keep-IsPlain : (ts : List Text) → All (All (λ d. d ≢ b'/')) ts → All IsPlain (keep is_component ts)
unfolding keep
keep-IsPlain [] h = tt
keep-IsPlain (t ∷ ts) h = elim (Bool-cases (is_component t)) [
  | inl e ↦ rw (e, All) ((e, h.0), keep-IsPlain ts h.1)
  | inr f ↦ rw (f, All) (keep-IsPlain ts h.1)
]

pub path_parts-IsPlain : (s : Text) → All IsPlain (path_parts s)
unfolding path_parts
path_parts-IsPlain s = keep-IsPlain (split_slash s) (split_slash-All s)

-- What is allowed in a category: no step to a parent.
abbrev pub IsInner : Text → Type 0
IsInner p = IsPlain p × (p ≢ codes "..")

IsInner-All :
    (ps : List Text)
    → All IsPlain ps
    → any (λ part. text_eq part (codes "..")) ps ≡ false
    → All IsInner ps
unfolding any
IsInner-All [] h none = tt
IsInner-All (p ∷ ps) h none = elim (Bool-cases (text_eq p (codes ".."))) [
  | inl e ↦ absurd (ground (arith, none, e))
  | inr f ↦ (
    (h.0, λ e. cc (f, (text_eq_iff p (codes "..")).1 e)),
    IsInner-All ps h.1 (ground (arith, none, f)),
  )
]

abbrev Inside : List Text → Type 0
Inside ps = (1 ≤ length ps) × All IsInner ps

module _ (fallback : Text) (inner : IsInner fallback) where
  parts_or-Inside :
      (raw : Text) (parts answer : List Text)
      → All IsPlain parts
      → parts_or fallback raw parts ≡ ok answer
      → Inside answer
  parts_or-Inside [] parts answer h e =
      subst Inside (ap (result_or []) e) (omega arith, (inner, tt))
  parts_or-Inside (c ∷ raw) [] answer h e = absurd (ground (arith, e))
  parts_or-Inside (c ∷ raw) (p ∷ ps) answer h e =
      elim (Bool-cases (any (λ part. text_eq part (codes "..")) (p ∷ ps))) [
        | inl up ↦ absurd (ground (arith, e, up))
        | inr fine ↦
            let same : (p ∷ ps) ≡ answer = ground (arith, e, fine) in
            subst Inside same (omega arith, IsInner-All (p ∷ ps) h fine)
      ]

  safe_relative_parts-Inside :
      (value : Text) (parts : List Text)
      → safe_relative_parts value fallback ≡ ok parts
      → Inside parts
  unfolding safe_relative_parts
  safe_relative_parts-Inside value parts e =
      let raw = strip (λ (c : ℕ). c == b'/') (slashes value) in
      parts_or-Inside raw (path_parts raw) parts (path_parts-IsPlain raw) e

files : IsInner (codes "files")
unfolding text_eq
files = ((refl, ground arith), ground arith)

-- The path is that of the release, some inner components, and a last one.
pub record IsUnder (rt : WorldRuntime) (filename path : Text) : Type 0 where
  pub inner : List Text
  pub name : Text
  pub written :
      path
      ≡ join_slash
          (codes "worlds" ∷ show rt.world_id ∷ codes "releases" ∷ show rt.release_id ∷ inner)
        ++ b'/' ∷ name
  pub some_inner : 1 ≤ length inner
  pub inner_plain : All IsInner inner
  pub name_plain : IsPlain name
  pub name_parent : (name ≡ codes "..") ↔ (last_part (path_parts (slashes filename)) ≡ codes "..")

last_part-IsPlain :
    (ps : List Text) → All IsPlain ps → IsPlain (or_else (last_part ps) (codes "file"))
unfolding text_eq
last_part-IsPlain [] h = (refl, ground arith)
last_part-IsPlain ([] ∷ []) h = absurd (ground (arith, h.0.0))
last_part-IsPlain ((c ∷ p) ∷ []) h = h.0
last_part-IsPlain (p ∷ q ∷ ps) h = last_part-IsPlain (q ∷ ps) h.1

name_is_parent : (l : Text) → (or_else l (codes "file") ≡ codes "..") ↔ (l ≡ codes "..")
name_is_parent [] = ground arith
name_is_parent (c ∷ l) = ((λ e. e), (λ e. e))

ok_path :
    (filename category : Text) (rt : WorldRuntime) (path : Text)
    → media_path filename category rt ≡ ok path
    → (parts : List Text) × (safe_relative_parts category (codes "files") ≡ ok parts)
      × (path
          ≡ join_slash
              (codes "worlds" ∷ show rt.world_id ∷ codes "releases" ∷ show rt.release_id ∷ parts)
            ++ b'/' ∷ safe_name filename)
unfolding media_path media_prefix
ok_path filename category rt path e =
    elim (Result-cases (safe_relative_parts category (codes "files"))) [
      | inl (parts, f) ↦
          let h : path_of (safe_name filename) (prefix_of rt (ok parts)) ≡ ok path =
            subst (λ r. path_of (safe_name filename) (prefix_of rt r) ≡ ok path) f e in
          (parts, f, sym (ap (result_or []) h))
      | inr (refusal, f) ↦ absurd (ground (arith, e, f))
    ]

-- Where world_media_path returns a path, it is worlds/<world>/releases/<release>/ of the runtime, then
-- one or more components of the category, then a last one. All are nonempty, without a slash and
-- not "."; those of the category are not "..", but the last one is ".." exactly where the given file name
-- ends in "..".
pub media_path-IsUnder :
    (filename category : Text) (rt : WorldRuntime) (path : Text)
    → media_path filename category rt ≡ ok path
    → IsUnder rt filename path
unfolding safe_name
media_path-IsUnder filename category rt path e =
    let (parts, safe, written) = ok_path filename category rt path e in
    let inside = safe_relative_parts-Inside (codes "files") files category parts safe in
    let last = last_part (path_parts (slashes filename)) in
    record {
      inner = parts;
      name = safe_name filename;
      written = written;
      some_inner = inside.0;
      inner_plain = inside.1;
      name_plain =
          last_part-IsPlain (path_parts (slashes filename)) (path_parts-IsPlain (slashes filename));
      name_parent = name_is_parent last;
    }
