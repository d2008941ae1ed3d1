-- ===== src/Middleware/Routes.antt =====
-- The keys that a path and a host name name are read back.
use konnaxion_worlds.Base.{
  ℕ, suc, ◌-◌, ◌≤◌, ◌≡◌, ◌≢◌, refl, ap, sym, ◌∙◌, true, false, some, List, [], ◌∷◌, ◌++◌, Text,
  codes, text_eq, text_eq_iff, text_eq_refl, length, length-append, any, All, ◌==◌, Bool-cases,
  arith, inl, inr,
}
use konnaxion_worlds.Base.Regex.{take}
use konnaxion_worlds.Namespaces.{split_slash, push_char}
use konnaxion_worlds.Middleware.{
  is_key_inner, ends_alnum, is_key, without_newline, closing, match_route, drop, ends_with,
  key_under, from_root,
}

ends_alnum-All : (s : Text) → ends_alnum s ≡ true → All (λ c. is_key_inner c ≡ true) s
ends_alnum-All [] h = tt
ends_alnum-All (c ∷ []) h = (ground (arith, h), tt)
ends_alnum-All (c ∷ d ∷ s) h = (ground (arith, h), ends_alnum-All (d ∷ s) (ground (arith, h)))

is_key-All : (s : Text) → is_key s ≡ true → All (λ c. is_key_inner c ≡ true) s
unfolding is_key
is_key-All [] h = tt
is_key-All (c ∷ []) h = (ground (arith, h), tt)
is_key-All (c ∷ d ∷ s) h = (ground (arith, h), ends_alnum-All (d ∷ s) (ground (arith, h)))

split_slash-key :
    (k rest : Text)
    → All (λ c. is_key_inner c ≡ true) k
    → split_slash (k ++ b'/' ∷ rest) ≡ k ∷ split_slash rest
unfolding split_slash
split_slash-key [] rest h = refl
split_slash-key (c ∷ k) rest h =
    let other : (c == b'/') ≡ false = ground (arith, h.0) in
    rw (split_slash-key k rest h.1, other) refl

split_slash-last : (k : Text) → All (λ c. is_key_inner c ≡ true) k → split_slash k ≡ k ∷ []
unfolding split_slash
split_slash-last [] h = refl
split_slash-last (c ∷ k) h =
    let other : (c == b'/') ≡ false = ground (arith, h.0) in rw (split_slash-last k h.1, other) refl

without_newline-key : (k : Text) → All (λ c. is_key_inner c ≡ true) k → without_newline k ≡ k
without_newline-key [] h = refl
without_newline-key (c ∷ []) h = ground (arith, h.0)
without_newline-key (c ∷ d ∷ s) h = ap (λ t. c ∷ t) (without_newline-key (d ∷ s) h.1)

push_char-some : (c : ℕ) (ts : List Text) → 1 ≤ length (push_char c ts)
push_char-some c [] = omega arith
push_char-some c (t ∷ ts) = omega arith

split_slash-some : (s : Text) → 1 ≤ length (split_slash s)
unfolding split_slash
split_slash-some [] = omega arith
split_slash-some (c ∷ s) = elim (Bool-cases (c == b'/')) [
  | inl e ↦ rw e (omega arith)
  | inr f ↦ rw f (push_char-some c (split_slash s))
]

named_route :
    (u w : Text) (tail : List Text)
    → is_key u ≡ true
    → is_key w ≡ true
    → closing w tail ≡ w
    → from_root ([] ∷ codes "api" ∷ codes "u" ∷ u ∷ codes "w" ∷ w ∷ tail)
      ≡ some (record { universe_key = some u; world_key = w })
unfolding text_eq
named_route u w tail hu hw last = rw (last, hu, hw) refl

-- The path /api/u/<universe>/w/<world>/<rest> of two keys, and the shorter /api/u/<universe>/w/<world>, name
-- this Universe and this World.
pub match_route-keys :
    (universe_key world_key rest : Text)
    → is_key universe_key ≡ true
    → is_key world_key ≡ true
    → (match_route
          (codes "/api/u/" ++ (universe_key ++ (codes "/w/" ++ (world_key ++ b'/' ∷ rest))))
        ≡ some (record { universe_key = some universe_key; world_key = world_key }))
      × (match_route (codes "/api/u/" ++ (universe_key ++ (codes "/w/" ++ world_key)))
          ≡ some (record { universe_key = some universe_key; world_key = world_key }))
unfolding match_route
match_route-keys u w rest hu hw = (
  ap from_root (
        cut (w ++ b'/' ∷ rest)
        ∙ ap (λ l. [] ∷ codes "api" ∷ codes "u" ∷ u ∷ codes "w" ∷ l)
            (split_slash-key w rest (is_key-All w hw)))
      ∙ named_route u w (split_slash rest) hu hw
          (closing_more (split_slash rest) (split_slash-some rest)),
  ap from_root (
        cut w
        ∙ ap (λ l. [] ∷ codes "api" ∷ codes "u" ∷ u ∷ codes "w" ∷ l)
            (split_slash-last w (is_key-All w hw)))
      ∙ named_route u w [] hu hw (without_newline-key w (is_key-All w hw)),
)
  where
    cut :
        (s : Text)
        → split_slash (codes "/api/u/" ++ (u ++ (codes "/w/" ++ s)))
          ≡ [] ∷ codes "api" ∷ codes "u" ∷ u ∷ codes "w" ∷ split_slash s
    cut s =
        ap (λ l. [] ∷ codes "api" ∷ codes "u" ∷ l)
          (split_slash-key u (codes "w/" ++ s) (is_key-All u hu))

    closing_more : (ts : List Text) → 1 ≤ length ts → closing w ts ≡ w
    closing_more [] more = absurd (omega (arith, more))
    closing_more (t ∷ ts) more = refl

take-length : (a b : Text) → take (length a) (a ++ b) ≡ a
unfolding take
take-length [] b = refl
take-length (c ∷ a) b = ap (λ s. c ∷ s) (take-length a b)

drop-length : (a b : Text) → drop (length a) (a ++ b) ≡ b
unfolding drop
drop-length [] b = refl
drop-length (c ∷ a) b = drop-length a b

before_suffix : (a b : Text) → length (a ++ b) - length b ≡ length a
before_suffix a b = omega (arith, length-append a b)

ends_with-append : (a b : Text) → ends_with (a ++ b) b ≡ true
unfolding ends_with
ends_with-append a b =
    rw (before_suffix a b, drop-length a b, text_eq_refl b) (ground (arith, length-append a b))

no_dots : (k : Text) → All (λ c. is_key_inner c ≡ true) k → any (λ c. c == b'.') k ≡ false
unfolding any
no_dots [] h = refl
no_dots (c ∷ k) h = ground (arith, h.0, no_dots k h.1)

same_head : (a b s : Text) → (a ++ s) ≡ (b ++ s) → a ≡ b
same_head a b s e =
    let lengths : length a ≡ length b =
      omega (arith, ap length e, length-append a s, length-append b s) in
    sym (take-length a s)
    ∙ (ap (take (length a)) e ∙ (ap (λ n. take n (b ++ s)) lengths ∙ take-length b s))

longer : (k base : Text) → text_eq (k ++ b'.' ∷ base) base ≡ false
longer k base = elim (Bool-cases (text_eq (k ++ b'.' ∷ base) base)) [
  | inr f ↦ f
  | inl e ↦ absurd (
      omega (
        arith,
        ap length ((text_eq_iff (k ++ b'.' ∷ base) base).0 e),
        length-append k (b'.' ∷ base),
      ))
]

not_www :
    (k base : Text) → k ≢ codes "www" → text_eq (k ++ b'.' ∷ base) (codes "www." ++ base) ≡ false
not_www k base other = elim (Bool-cases (text_eq (k ++ b'.' ∷ base) (codes "www." ++ base))) [
  | inr f ↦ f
  | inl e ↦ absurd (
      other (
        same_head k (codes "www") (b'.' ∷ base)
          ((text_eq_iff (k ++ b'.' ∷ base) (codes "www." ++ base)).0 e)))
]

-- The host name <universe>.<domain> of a key but www names this Universe, where the domain is the first
-- of the base domains.
pub key_under-host :
    (universe_key base : Text) (domains : List Text)
    → is_key universe_key ≡ true
    → universe_key ≢ codes "www"
    → key_under (base ∷ domains) (universe_key ++ b'.' ∷ base) ≡ some universe_key
unfolding key_under
key_under-host k base domains hk other =
    let host = k ++ b'.' ∷ base in
    let subdomain : take (length host - suc (length base)) host ≡ k =
      ap (λ n. take n host) (before_suffix k (b'.' ∷ base)) ∙ take-length k (b'.' ∷ base) in
    rw
      (
        longer k base,
        not_www k base other,
        ends_with-append k (b'.' ∷ base),
        subdomain,
        no_dots k (is_key-All k hk),
        hk,
      )
      refl
