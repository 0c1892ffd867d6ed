-- ===== src/Server/Docker/Attributes.antt =====
-- The text of an actor's attributes.
use qnapexporter.Base.{
  ◌++◌, false, List, [], ◌∷◌, has_prefix, is_empty, if◌then◌else◌, Bool-cases, inl, inr, Text,
  codes, ◌≡◌, refl, ap, ◌∙◌, append_assoc, append-nil,
}
use qnapexporter.Server.Docker.{attributes_loop, format_docker_actor_attributes}

-- The attributes that are shown.
pub shown : List (Text × Text) → List Text
shown [] = []
shown ((k, v) ∷ attr) =
    if has_prefix k (codes "com.docker.") then shown attr else (k ++ (codes "=" ++ v)) ∷ shown attr

pub with_commas : List Text → Text
with_commas [] = []
with_commas (p ∷ ps) = codes "," ++ (p ++ with_commas ps)

-- Texts with a comma between any two.
pub comma_separated : List Text → Text
unfolding with_commas
comma_separated [] = []
comma_separated (p ∷ ps) = p ++ with_commas ps

is_empty-pair : (s k v : Text) → is_empty (s ++ (k ++ (codes "=" ++ v))) ≡ false
is_empty-pair [] [] v = refl
is_empty-pair [] (c ∷ k) v = refl
is_empty-pair (c ∷ s) k v = refl

attributes_loop-rest :
    (s : Text) (attr : List (Text × Text))
    → is_empty s ≡ false
    → attributes_loop s attr ≡ s ++ with_commas (shown attr)
unfolding attributes_loop shown with_commas
attributes_loop-rest s [] h = rw append-nil
attributes_loop-rest s ((k, v) ∷ attr) h = elim (Bool-cases (has_prefix k (codes "com.docker."))) [
  | inl hidden ↦ rw (hidden, attributes_loop, shown) (attributes_loop-rest s attr h)
  | inr plain ↦
      let part = k ++ (codes "=" ++ v) in
      rw (plain, attributes_loop, shown)
        (rw h (
          attributes_loop-rest ((s ++ codes ",") ++ part) attr (is_empty-pair (s ++ codes ",") k v)
          ∙ rw (append_assoc, append_assoc) refl))
]

from_empty : (attr : List (Text × Text)) → attributes_loop [] attr ≡ comma_separated (shown attr)
unfolding attributes_loop shown comma_separated
from_empty [] = refl
from_empty ((k, v) ∷ attr) = elim (Bool-cases (has_prefix k (codes "com.docker."))) [
  | inl hidden ↦ rw (hidden, attributes_loop, shown) (from_empty attr)
  | inr plain ↦
      rw (plain, attributes_loop, shown)
        (attributes_loop-rest (k ++ (codes "=" ++ v)) attr (is_empty-pair [] k v))
]

-- The text of the attributes, for any order of the map, is the pairs whose key has not the prefix
-- `com.docker.`, in that order, with a comma between any two, in parentheses.
pub format_docker_actor_attributes-shown :
    (attr : List (Text × Text))
    → format_docker_actor_attributes attr ≡ codes "(" ++ (comma_separated (shown attr) ++ codes ")")
unfolding format_docker_actor_attributes
format_docker_actor_attributes-shown attr =
    ap (λ t. codes "(" ++ (t ++ codes ")")) (from_empty attr)
