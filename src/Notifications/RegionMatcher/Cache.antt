-- ===== src/Notifications/RegionMatcher/Cache.antt =====
-- The cache as a window on what was added.
use qnapexporter.Base.{
  ℕ, ◌+◌, ◌-◌, ◌≤◌, ◌++◌, List, [], ◌∷◌, ltb, Text, length, drop, ℤ, ◌≡◌, arith, length-append,
  length-drop, drop-append, drop-drop, sym, ap, ◌∙◌, append_assoc, append-nil, Bool-cases, inl, inr,
  ltb→lt,
}
use qnapexporter.Notifications.RegionMatcher.{CacheEntry, RegionMatcher, add}

-- Never more entries than the configured size.
abbrev pub IsBounded : RegionMatcher → Type 0
IsBounded c = length c.cache ≤ c.cache_size

-- The entries that a history leaves in a window of the size.
abbrev pub window : ℕ → List CacheEntry → List CacheEntry
window size history = drop (length history - size) history

pub add_all : RegionMatcher → List CacheEntry → RegionMatcher
add_all c [] = c
add_all c (e ∷ es) = add_all (add c e.id e.annotation) es

pub add-IsBounded : (c : RegionMatcher) (id : ℤ) (a : Text) → IsBounded c → IsBounded (add c id a)
unfolding add
add-IsBounded c id a h = ground (
  arith,
  length-append c.cache (record { id = id; annotation = a } ∷ []),
  length-drop 1 (c.cache ++ record { id = id; annotation = a } ∷ []),
)

pub add-window :
    (c : RegionMatcher) (e : CacheEntry)
    → IsBounded c
    → (add c e.id e.annotation).cache ≡ window c.cache_size (c.cache ++ e ∷ [])
unfolding add
add-window c e h =
    let l = c.cache ++ e ∷ [] in
    let size = length-append c.cache (e ∷ []) in
    elim (Bool-cases (ltb c.cache_size (length l))) [
      | inl over ↦
          let one : length l - c.cache_size ≡ 1 =
            omega (arith, ltb→lt c.cache_size (length l) over) in
          rw (over, one)
      | inr fits ↦ let none : length l - c.cache_size ≡ 0 = ground arith in rw (fits, none)
    ]

pub cache_size-add :
    (c : RegionMatcher) (id : ℤ) (a : Text) → (add c id a).cache_size ≡ c.cache_size
unfolding add
cache_size-add c id a = ground arith

window-window-append :
    (size : ℕ) (h es : List CacheEntry) → window size (window size h ++ es) ≡ window size (h ++ es)
window-window-append size h es =
    let k = length h - size in
    let n = length (drop k h ++ es) - size in
    let same_end : k + n ≡ length (h ++ es) - size =
      omega (arith, length-append (drop k h) es, length-append h es, length-drop k h) in
    ap (drop n) (sym (drop-append k h es (omega arith)))
    ∙ drop-drop n k (h ++ es)
    ∙ ap (λ m. drop m (h ++ es)) same_end

-- After any run of additions to a bounded cache it holds exactly the most recent entries of all that
-- was there and was added, in order and as many as the configured size.
pub add_all-window :
    (c : RegionMatcher) (es : List CacheEntry)
    → IsBounded c
    → (add_all c es).cache ≡ window c.cache_size (c.cache ++ es)
unfolding add_all
add_all-window c [] h =
    let none : length (c.cache ++ []) - c.cache_size ≡ 0 =
      omega (arith, length-append c.cache []) in
    rw none (sym (append-nil c.cache))
add_all-window c (e ∷ es) h =
    add_all-window (add c e.id e.annotation) es (add-IsBounded c e.id e.annotation h)
    ∙ (rw (cache_size-add, add-window c e h)
        (window-window-append c.cache_size (c.cache ++ e ∷ []) es
          ∙ ap (window c.cache_size) (append_assoc c.cache (e ∷ []) es)))
