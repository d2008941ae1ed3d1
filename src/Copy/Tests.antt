-- ===== src/Copy/Tests.antt =====
-- The order of three tables with foreign keys, and of two that refer to each other.
use konnaxion_worlds.Base.{
  ℕ, ◌≡◌, refl, subst, ◌∙◌, true, false, Bool, arith, if◌then◌else◌, List, [], ◌∷◌, Text, text_eq,
  text_eq_refl, text_eq_iff, codes, length, any, keep, none,
}
use konnaxion_worlds.Base.Exec.{ok, err}
use konnaxion_worlds.Plane.{ForeignKey, SchemaState, contains}
use konnaxion_worlds.Copy.{
  base_tables, edge, sweep, relax, relax_all, first_sweep, copy_order, schema_copy_order,
}
use konnaxion_worlds.Copy.Counting.{text_eq_comm, IsDistinct}
use konnaxion_worlds.Copy.Order.{sweep-ends, IsCopyOrder, copy_order-IsCopyOrder}
use konnaxion_worlds.Copy.Progress.{
  final, Ranked, copy_order-returns, IsCyclic, copy_order-IsCyclic,
}

abbrev key_of : (child parent : Text) → ForeignKey
key_of child parent = record {
  child_table = child;
  parent_schema = codes "domain";
  parent_table = parent;
}

abbrev tables : List Text
tables = codes "answer" ∷ codes "person" ∷ codes "question" ∷ []

abbrev keys : List ForeignKey
keys =
    key_of (codes "answer") (codes "question")
    ∷ key_of (codes "answer") (codes "person")
    ∷ key_of (codes "question") (codes "person")
    ∷ key_of (codes "person") (codes "person")
    ∷ []

abbrev round_keys : List ForeignKey
round_keys =
    key_of (codes "answer") (codes "question") ∷ key_of (codes "question") (codes "answer") ∷ keys

abbrev state : SchemaState
state = record {
  canary = none;
  tables = codes "kx_world_canary" ∷ tables;
  migrations = [];
  foreign_keys = keys;
}

abbrev ordered : List Text
ordered = codes "person" ∷ codes "question" ∷ codes "answer" ∷ []

tables_distinct : IsDistinct tables
unfolding contains any text_eq
tables_distinct = (refl, (refl, (refl, tt)))

schema_copy_order_example : schema_copy_order (codes "domain") state ≡ ok ordered
unfolding schema_copy_order copy_order sweep relax relax_all edge base_tables contains any keep
    text_eq
schema_copy_order_example = refl

in_order : copy_order (edge (codes "domain") keys) tables ≡ ok ordered
unfolding copy_order sweep relax relax_all edge contains any keep text_eq
in_order = refl

abbrev edges : Text → Text → Bool
edges = edge (codes "domain") keys

sweep_example : (sweep edges tables (length tables) (first_sweep edges tables)).queue ≡ []
sweep_example = sweep-ends edges tables tables_distinct

abbrev rank : Text → ℕ
rank t = if text_eq (codes "answer") t then 2 else if text_eq (codes "question") t then 1 else 0

apart : (a b t : Text) → text_eq a b ≡ false → text_eq a t ≡ true → text_eq b t ≡ false
apart a b t ne e = text_eq_comm b t ∙ subst (λ x. text_eq x b ≡ false) ((text_eq_iff a t).0 e) ne

together : (a t u : Text) → text_eq a t ≡ true → text_eq a u ≡ true → text_eq t u ≡ true
together a t u e f = subst (λ x. text_eq x u ≡ true) ((text_eq_iff a t).0 e) f

differ_answer : text_eq (codes "answer") (codes "question") ≡ false
unfolding text_eq
differ_answer = refl

differ_person :
    (text_eq (codes "person") (codes "answer") ≡ false)
    × (text_eq (codes "person") (codes "question") ≡ false)
unfolding text_eq
differ_person = (refl, refl)

ranked : Ranked edges tables tables_distinct rank
unfolding edge any
ranked child parent m n e = ground (
  arith,
  e,
  apart (codes "answer") (codes "question") parent differ_answer,
  apart (codes "person") (codes "answer") parent differ_person.0,
  apart (codes "person") (codes "question") parent differ_person.1,
  apart (codes "answer") (codes "question") child differ_answer,
  together (codes "person") child parent,
  text_eq_refl (codes "domain"),
)

ranked_example : copy_order edges tables ≡ ok (final edges tables tables_distinct)
ranked_example = copy_order-returns edges tables tables_distinct rank ranked

order_example : IsCopyOrder edges tables tables_distinct ordered
order_example = copy_order-IsCopyOrder edges tables tables_distinct ordered in_order

in_circle :
    copy_order (edge (codes "domain") round_keys) tables
    ≡ err (codes "answer" ∷ codes "question" ∷ [])
unfolding copy_order sweep relax relax_all edge contains any keep text_eq
in_circle = refl

circle_example :
    IsCyclic
      (edge (codes "domain") round_keys)
      tables
      tables_distinct
      (codes "answer" ∷ codes "question" ∷ [])
circle_example =
    copy_order-IsCyclic (edge (codes "domain") round_keys) tables tables_distinct
      (codes "answer" ∷ codes "question" ∷ []) in_circle
