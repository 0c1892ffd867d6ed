-- ===== src/Notifications/TagExtractor/Laws.antt =====
-- What `Extract` of the notification centre returns, and when it panics.
use qnapexporter.Base.{
  ℕ, zero, suc, ◌+◌, ◌<◌, ◌++◌, ◌==◌, ==_iff, ◌∙◌, List, [], ◌∷◌, none, some, true, Text, index,
  length, take, drop, All, Run, panicked, returned, ◌≡◌, ◌≢◌, refl, ap, arith, append-nil,
  append_assoc, length-drop, length-append, ◌≤◌, ◌-◌, sym, Option-cases, take-append_length,
  Bool-cases, inl, inr,
}
use native.Mathlib.Nat.{zero-add, suc-add}
use qnapexporter.Notifications.TagExtractor.{close, extract_loop, extract_tags}

-- `[tag] ` for each tag, one behind the other.
abbrev pub bracketed : List Text → Text
bracketed [] = []
bracketed (t ∷ ts) = b'[' ∷ (t ++ b']' ∷ b' ' ∷ bracketed ts)

bracketed-append : (ts us : List Text) → bracketed (ts ++ us) ≡ bracketed ts ++ bracketed us
bracketed-append [] us = refl
bracketed-append (t ∷ ts) us = simp (bracketed-append ts us, append_assoc)

-- A text at which the loop stops: it is not empty, and no tag stands at its front.
abbrev pub IsPlain : Text → Type 0
IsPlain [] = ⊥
IsPlain (c ∷ s) = (c ≡ b'[') → index s close ≡ none

abbrev pub LacksBracket : Text → Type 0
LacksBracket = All (λ c. c ≢ b']')

index_split :
    (s : Text) {k : ℕ} → index s close ≡ some k → s ≡ take k s ++ b']' ∷ b' ' ∷ drop (suc (suc k)) s
unfolding index
index_split [] h = cc
index_split (x ∷ []) h = ground arith
index_split (x ∷ y ∷ s) {k = zero} h = ground arith
index_split (x ∷ y ∷ s) {k = suc k} h =
    let later : index (y ∷ s) close ≡ some k = ground arith in
    ap (◌∷◌ x) (index_split (y ∷ s) later)

index_lacks : (t r : Text) → LacksBracket t → index (t ++ b']' ∷ b' ' ∷ r) close ≡ some (length t)
unfolding index
index_lacks [] r h = refl
index_lacks (c ∷ t) r (hc, ht) = ground (arith, index_lacks t r ht)

drop_past : (t r : Text) → drop (suc (suc (length t))) (t ++ b']' ∷ b' ' ∷ r) ≡ r
drop_past [] r = refl
drop_past (c ∷ t) r = drop_past t r

-- One round: the tag in front is taken off.
loop_tag :
    (fuel : ℕ) (t r : Text) (tags : List Text)
    → LacksBracket t
    → extract_loop (suc fuel) (b'[' ∷ (t ++ b']' ∷ b' ' ∷ r)) tags
      ≡ extract_loop fuel r (tags ++ t ∷ [])
unfolding extract_loop
loop_tag fuel t r tags h = rw (index_lacks t r h, extract_loop, take-append_length t, drop_past t r)

loop_plain :
    (fuel : ℕ) (rest : Text) (tags : List Text)
    → IsPlain rest
    → extract_loop (suc fuel) rest tags ≡ returned (rest, tags)
unfolding extract_loop
loop_plain fuel [] tags h = absurd h
loop_plain fuel (c ∷ s) tags h = ground (arith, h)

-- How `Extract` can end: with a plain rest behind the tags, or with a panic where nothing is left.
pub data Outcome (a : Text) (r : Run (Text × List Text)) : Type 0 where
  finished :
      (found : List Text) (rest : Text)
      → a ≡ bracketed found ++ rest
      → IsPlain rest
      → r ≡ returned (rest, found)
      → Outcome a r
  crashed : (found : List Text) → a ≡ bracketed found → r ≡ panicked → Outcome a r

respell :
    (tags : List Text) (s : Text) {k : ℕ}
    → index s close ≡ some k
    → bracketed tags ++ b'[' ∷ s ≡ bracketed (tags ++ take k s ∷ []) ++ drop (suc (suc k)) s
respell tags s {k} e =
    let eq = index_split s e in
    simp (bracketed-append tags (take k s ∷ []), append_assoc)
      (ap (λ u. bracketed tags ++ b'[' ∷ u) eq)

loop_step :
    (fuel c : ℕ) (s : Text) (tags : List Text) {k : ℕ}
    → (c == b'[') ≡ true
    → index s close ≡ some k
    → extract_loop (suc fuel) (c ∷ s) tags
      ≡ extract_loop fuel (drop (suc (suc k)) s) (tags ++ take k s ∷ [])
unfolding extract_loop
loop_step fuel c s tags p e = rw (p, e, extract_loop)

loop-Outcome :
    (fuel : ℕ) (a : Text) (tags : List Text)
    → length a < fuel
    → Outcome (bracketed tags ++ a) (extract_loop fuel a tags)
loop-Outcome zero a tags h = absurd (omega arith)
loop-Outcome (suc fuel) [] tags h =
    crashed tags (append-nil (bracketed tags)) (unfold extract_loop in refl)
loop-Outcome (suc fuel) (c ∷ s) tags h = elim (Bool-cases (c == b'[')) [
  | inr no_tag ↦
      let plain : IsPlain (c ∷ s) = λ e. absurd (ground arith) in
      finished tags (c ∷ s) refl plain (loop_plain fuel (c ∷ s) tags plain)
  | inl tag ↦ elim (Option-cases (index s close)) [
    | inl e ↦
        let plain : IsPlain (c ∷ s) = λ _. e in
        finished tags (c ∷ s) refl plain (loop_plain fuel (c ∷ s) tags plain)
    | inr (k, e) ↦
        let r = drop (suc (suc k)) s in
        let ih =
          loop-Outcome fuel r (tags ++ take k s ∷ [])
            (omega (arith, length-drop (suc (suc k)) s)) in
        rw ((==_iff c b'[').0 tag, respell tags s e) (rw (loop_step fuel b'[' s tags refl e) ih)
  ]
]

-- `Extract` always ends, with no more rounds than the text has bytes. It returns the tags that
-- stand in brackets at the front and a rest that is plain, which together spell the text; or it
-- panics, and then the text is nothing but tags in brackets.
pub extract-Outcome : (a : Text) → Outcome a (extract_tags a)
unfolding extract_tags
extract-Outcome a = loop-Outcome (suc (length a)) a [] (omega arith)

loop-bracketed :
    (ts : List Text) (rest : Text) (fuel : ℕ) (tags : List Text)
    → All LacksBracket ts
    → extract_loop (length ts + fuel) (bracketed ts ++ rest) tags
      ≡ extract_loop fuel rest (tags ++ ts)
loop-bracketed [] rest fuel tags h = rw (zero-add, append-nil)
loop-bracketed (t ∷ ts) rest fuel tags (ht, hts) =
    rw (suc-add, append_assoc, loop_tag _ t (bracketed ts ++ rest) tags ht)
      (loop-bracketed ts rest fuel (tags ++ t ∷ []) hts ∙ rw append_assoc)

length-bracketed : (ts : List Text) (rest : Text) → length ts ≤ length (bracketed ts ++ rest)
length-bracketed [] rest = omega arith
length-bracketed (t ∷ ts) rest = omega (
  arith,
  length-append (bracketed (t ∷ ts)) rest,
  length-append t (b']' ∷ b' ' ∷ bracketed ts),
  length-append (bracketed ts) rest,
  length-bracketed ts rest,
)

-- The run over a text that begins with tags in brackets is the run over what follows them.
extract-behind :
    (ts : List Text) (rest : Text)
    → All LacksBracket ts
    → (fuel : ℕ) × (extract_tags (bracketed ts ++ rest) ≡ extract_loop (suc fuel) rest ts)
unfolding extract_tags
extract-behind ts rest h =
    let n = length (bracketed ts ++ rest) in
    let fuel = n - length ts in
    let enough : suc n ≡ length ts + suc fuel = omega (arith, length-bracketed ts rest) in
    (fuel, rw enough (loop-bracketed ts rest (suc fuel) [] h))

-- Tags that hold no closing bracket, written in brackets before a plain rest, are read back: the
-- rest and the tags, in order.
pub extract-bracketed :
    (ts : List Text) (rest : Text)
    → All LacksBracket ts
    → IsPlain rest
    → extract_tags (bracketed ts ++ rest) ≡ returned (rest, ts)
extract-bracketed ts rest h plain =
    let (fuel, e) = extract-behind ts rest h in e ∙ loop_plain fuel rest ts plain

-- With nothing behind the tags the code panics, whatever the tags are, even with none.
pub extract-panicked :
    (ts : List Text) → All LacksBracket ts → extract_tags (bracketed ts) ≡ panicked
extract-panicked ts h =
    let (fuel, e) = extract-behind ts [] h in
    ap extract_tags (sym (append-nil (bracketed ts))) ∙ e ∙ (unfold extract_loop in refl)
