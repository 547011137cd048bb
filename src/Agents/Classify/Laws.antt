-- ===== src/Agents/Classify/Laws.antt =====
-- The order of the rules decides.
use ecommerce_sales_agent.Prelude.{
  ◌≡◌, refl, true, false, some, List, [], ◌∷◌, ◌++◌, inl, inr, Bool-cases, All, arith, ◌∙◌, ap,
}
use ecommerce_sales_agent.Text.{Text, lower}
use ecommerce_sales_agent.Agents.State.{IntentName}
use ecommerce_sales_agent.Agents.Classify.{
  Rule, hits, first_match, or_then, or_unknown, intent_rules, multilingual_fallback_rules,
  classify_intent,
}

-- No keyword of the rule is in the message.
abbrev pub Misses : Text → Rule → Type 0
Misses message (intent, kws) = hits message kws ≡ false

-- A rule of the table after rules that miss gives the answer.
first_match-append :
    (message : Text) (before after : List Rule) (intent : IntentName) (kws : List Text)
    → All (Misses message) before
    → hits message kws ≡ true
    → first_match message (before ++ ((intent, kws) ∷ after)) ≡ some intent
unfolding first_match
first_match-append message [] after intent kws h hit = ground arith
first_match-append message ((i, k) ∷ before) after intent kws (miss, h) hit =
    rw miss (first_match-append message before after intent kws h hit)

-- Two tables tried in turn are one table.
or_then-first_match :
    (message : Text) (xs ys : List Rule)
    → or_then (first_match message xs) (first_match message ys) ≡ first_match message (xs ++ ys)
unfolding first_match
or_then-first_match message [] ys = refl
or_then-first_match message ((i, kws) ∷ xs) ys = elim (Bool-cases (hits message kws)) [
  | inl hit ↦ rw hit refl
  | inr miss ↦ rw miss (or_then-first_match message xs ys)
]

classify_intent-eq :
    (message : Text)
    → classify_intent message
      ≡ or_unknown (first_match (lower message) (intent_rules ++ multilingual_fallback_rules))
unfolding classify_intent
classify_intent-eq message =
    ap or_unknown (or_then-first_match (lower message) intent_rules multilingual_fallback_rules)

-- The intent of a message is that of a rule of the English table followed by the Spanish one that
-- has a keyword in the lower-cased message, when no keyword of an earlier rule is in it.
pub classify_intent-first :
    (message : Text) (before after : List Rule) (intent : IntentName) (kws : List Text)
    → intent_rules ++ multilingual_fallback_rules ≡ before ++ ((intent, kws) ∷ after)
    → All (Misses (lower message)) before
    → hits (lower message) kws ≡ true
    → classify_intent message ≡ intent
classify_intent-first message before after intent kws e h hit =
    classify_intent-eq message
    ∙ ap (λ rules. or_unknown (first_match (lower message) rules)) e
    ∙ ap or_unknown (first_match-append (lower message) before after intent kws h hit)
