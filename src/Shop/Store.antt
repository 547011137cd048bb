-- ===== src/Shop/Store.antt =====
-- An association list with the operations of Redis, and the laws that the cache relies on.
use ecommerce_sales_agent.Prelude.{
  ◌≡◌, refl, true, false, Option, none, some, List, [], ◌∷◌, ◌++◌, if◌then◌else◌, inl, inr,
  Bool-cases, any,
}
use ecommerce_sales_agent.Text.{Text, codes, text_eq, text_eq→eq, text_eq_refl, starts_with}

abbrev pub Entries : Type 0
Entries = List (Text × Text)

abbrev pub lookup_key : Text → Entries → Option Text
lookup_key key [] = none
lookup_key key ((k, v) ∷ s) = if text_eq k key then some v else lookup_key key s

-- A pattern without its last character, the star.
abbrev pub without_star : Text → Text
without_star [] = []
without_star (c ∷ []) = []
without_star (c ∷ d ∷ s) = c ∷ without_star (d ∷ s)

abbrev pub keys_from : Text → Entries → List Text
keys_from pre [] = []
keys_from pre ((k, v) ∷ s) = if starts_with pre k then k ∷ keys_from pre s else keys_from pre s

abbrev pub keys_like : Text → Entries → List Text
keys_like pattern' s = keys_from (without_star pattern') s

abbrev pub without_keys : List Text → Entries → Entries
without_keys ks [] = []
without_keys ks ((k, v) ∷ s) =
    if any (λ j. text_eq j k) ks then without_keys ks s else (k, v) ∷ without_keys ks s

pub without_star-append : (pre : Text) → without_star (pre ++ codes "*") ≡ pre
without_star-append [] = refl
without_star-append (c ∷ []) = refl
without_star-append (c ∷ d ∷ s) = rw (without_star-append (d ∷ s)) refl

pub keys_from-lists :
    (pre k p : Text) (s : Entries)
    → lookup_key k s ≡ some p
    → starts_with pre k ≡ true
    → any (λ j. text_eq j k) (keys_from pre s) ≡ true
keys_from-lists pre k p [] e h = absurd (cc e)
keys_from-lists pre k p ((j, v) ∷ s) e h = elim (Bool-cases (text_eq j k)) [
  | inl same ↦ let eq = text_eq→eq j k same in rw (eq, h, text_eq_refl k) refl
  | inr other ↦ elim (Bool-cases (starts_with pre j)) [
    | inl listed ↦ rw (listed, other) (keys_from-lists pre k p s (rw other at e) h)
    | inr unlisted ↦ rw unlisted (keys_from-lists pre k p s (rw other at e) h)
  ]
]

pub without_keys-removes :
    (ks : List Text) (k : Text) (s : Entries)
    → any (λ j. text_eq j k) ks ≡ true
    → lookup_key k (without_keys ks s) ≡ none
without_keys-removes ks k [] h = refl
without_keys-removes ks k ((j, v) ∷ s) h = elim (Bool-cases (any (λ i. text_eq i j) ks)) [
  | inl gone ↦ rw gone (without_keys-removes ks k s h)
  | inr stays ↦ elim (Bool-cases (text_eq j k)) [
    | inl same ↦
        let clear : any (λ i. text_eq i k) ks ≡ false = rw (← text_eq→eq j k same) stays in
        absurd (cc (clear, h))
    | inr other ↦ rw (stays, other) (without_keys-removes ks k s h)
  ]
]

pub without_keys-keeps :
    (ks : List Text) (k p : Text) (s : Entries)
    → lookup_key k (without_keys ks s) ≡ some p
    → any (λ j. text_eq j k) ks ≡ false
    → lookup_key k s ≡ some p
without_keys-keeps ks k p [] e h = e
without_keys-keeps ks k p ((j, v) ∷ s) e h = elim (Bool-cases (text_eq j k)) [
  | inl same ↦
      let stays : any (λ i. text_eq i j) ks ≡ false = rw (text_eq→eq j k same) h in
      rw same (rw (stays, same) at e)
  | inr other ↦ elim (Bool-cases (any (λ i. text_eq i j) ks)) [
    | inl gone ↦ rw other (without_keys-keeps ks k p s (rw gone at e) h)
    | inr stays ↦ rw other (without_keys-keeps ks k p s (rw (stays, other) at e) h)
  ]
]

pub without_keys-lookup :
    (ks : List Text) (k p : Text) (s : Entries)
    → lookup_key k (without_keys ks s) ≡ some p
    → lookup_key k s ≡ some p
without_keys-lookup ks k p s e = elim (Bool-cases (any (λ j. text_eq j k) ks)) [
  | inl gone ↦ absurd (cc (without_keys-removes ks k s gone, e))
  | inr stays ↦ without_keys-keeps ks k p s e stays
]
