-- ===== src/Notifications/Annotator/Tags.antt =====
-- `mergeTags` against the list of first occurrences.
use qnapexporter.Base.{
  ◌++◌, true, false, List, [], ◌∷◌, if◌then◌else◌, same_iff, same_refl, Text, ◌≡◌, refl, ap, ◌∙◌,
  sym, arith, append-nil, append_assoc, Bool-cases, inl, inr,
}
use qnapexporter.Notifications.Annotator.{has_key, merge_loop, merge_tags}

-- The entries that are no keys.
minus : List Text → List Text → List Text
minus keys [] = []
minus keys (e ∷ l) = if has_key e keys then minus keys l else e ∷ minus keys l

-- The first occurrence of each entry, in order.
pub firsts : List Text → List Text
unfolding minus
firsts [] = []
firsts (x ∷ xs) = x ∷ minus (x ∷ []) (firsts xs)

abbrev pub Distinct : List Text → Type 0
Distinct [] = Unit
Distinct (x ∷ xs) = (has_key x xs ≡ false) × Distinct xs

minus-minus : (x : Text) (keys l : List Text) → minus keys (minus (x ∷ []) l) ≡ minus (x ∷ keys) l
unfolding minus
minus-minus x keys [] = refl
minus-minus x keys (e ∷ l) = ground (arith, minus-minus x keys l)

minus_known :
    (x : Text) (keys l : List Text) → has_key x keys ≡ true → minus (x ∷ keys) l ≡ minus keys l
unfolding minus
minus_known x keys [] h = refl
minus_known x keys (e ∷ l) h = ground (arith, minus_known x keys l h, same_iff x e)

minus-nil : (l : List Text) → minus [] l ≡ l
unfolding minus
minus-nil [] = refl
minus-nil (e ∷ l) = ap (◌∷◌ e) (minus-nil l)

merge_loop-minus :
    (keys list entries : List Text)
    → merge_loop keys list entries ≡ list ++ minus keys (firsts entries)
unfolding merge_loop minus firsts
merge_loop-minus keys list [] = sym (append-nil list)
merge_loop-minus keys list (x ∷ xs) = elim (Bool-cases (has_key x keys)) [
  | inl old ↦
      rw (old, merge_loop, minus)
        (merge_loop-minus keys list xs
          ∙ ap (λ r. list ++ r)
              (sym (minus-minus x keys (firsts xs) ∙ minus_known x keys (firsts xs) old)))
  | inr new ↦
      rw (new, merge_loop, minus)
        (merge_loop-minus (x ∷ keys) (list ++ x ∷ []) xs
          ∙ append_assoc list (x ∷ []) (minus (x ∷ keys) (firsts xs))
          ∙ ap (λ r. list ++ x ∷ r) (sym (minus-minus x keys (firsts xs))))
]

has_key-minus :
    (x : Text) (keys l : List Text)
    → has_key x (minus keys l) ≡ (if has_key x keys then false else has_key x l)
unfolding minus
has_key-minus x keys [] = ground arith
has_key-minus x keys (e ∷ l) = ground (arith, has_key-minus x keys l, same_iff e x)

Distinct-minus : (keys l : List Text) → Distinct l → Distinct (minus keys l)
unfolding minus
Distinct-minus keys [] h = tt
Distinct-minus keys (e ∷ l) (he, hl) =
    ground (arith, Distinct-minus keys l hl, has_key-minus e keys l)

firsts-Distinct : (l : List Text) → Distinct (firsts l)
unfolding firsts
firsts-Distinct [] = tt
firsts-Distinct (x ∷ xs) = (
  rw (has_key-minus x (x ∷ []) (firsts xs), same_refl x),
  Distinct-minus (x ∷ []) (firsts xs) (firsts-Distinct xs),
)

has_key-firsts : (x : Text) (l : List Text) → has_key x (firsts l) ≡ has_key x l
unfolding firsts
has_key-firsts x [] = refl
has_key-firsts x (e ∷ l) =
    ground (arith, has_key-minus x (e ∷ []) (firsts l), has_key-firsts x l, same_iff e x)

-- The merged tags are the first occurrences in the two lists one behind the other, in order; no tag
-- stands there twice, and a tag stands there exactly if it stands in one of the lists.
pub merge_tags-firsts :
    (t1 t2 : List Text)
    → (merge_tags t1 t2 ≡ firsts (t1 ++ t2))
      × Distinct (merge_tags t1 t2)
      × ((x : Text) → has_key x (merge_tags t1 t2) ≡ has_key x (t1 ++ t2))
unfolding merge_tags
merge_tags-firsts t1 t2 =
    let merged : merge_tags t1 t2 ≡ firsts (t1 ++ t2) =
      merge_loop-minus [] [] (t1 ++ t2) ∙ minus-nil (firsts (t1 ++ t2)) in
    (merged, rw merged (firsts-Distinct (t1 ++ t2)), λ x. rw merged (has_key-firsts x (t1 ++ t2)))
