-- ===== src/Agents/Classify.antt =====
-- backend/app/agents/classify.py: the ordered keyword rules, English first, then Spanish.
pub mod Laws
use ecommerce_sales_agent.Prelude.{
  Bool, Option, none, some, List, [], ◌∷◌, String, any, map, if◌then◌else◌,
}
use ecommerce_sales_agent.Text.{Text, codes, contains, lower}
use ecommerce_sales_agent.Agents.State.{
  IntentName, product_search, product_details, category_browse, inventory_check,
  inventory_movements, unknown,
}

abbrev pub Rule : Type 0
Rule = IntentName × List Text

abbrev keywords : List String → List Text
keywords = map codes

abbrev pub intent_rules : List Rule
intent_rules =
    (
      inventory_movements,
      keywords ("movement" ∷ "movement history" ∷ "stock history" ∷ "stock movement" ∷ []),
    )
    ∷ (
      inventory_check,
      keywords ("in stock" ∷ "in-stock" ∷ "stock" ∷ "availability" ∷ "available" ∷ []),
    )
    ∷ (
      product_details,
      keywords (
          "details" ∷ "detail" ∷ "more about" ∷ "tell me about" ∷ "info about" ∷ "price"
          ∷ "how much" ∷ "cost" ∷ "cuánto" ∷ "cuesta" ∷ []),
    )
    ∷ (category_browse, keywords ("categories" ∷ "category" ∷ "browse" ∷ "catalog sections" ∷ []))
    ∷ (
      product_search,
      keywords (
          "search" ∷ "looking for" ∷ "find" ∷ "show me" ∷ "recommend" ∷ "suggest" ∷ "do you have"
          ∷ "do you sell" ∷ "i want" ∷ "i need" ∷ []),
    )
    ∷ []

abbrev pub multilingual_fallback_rules : List Rule
multilingual_fallback_rules =
    (
      inventory_movements,
      keywords ("historial de stock" ∷ "historial de inventario" ∷ "historial de movimientos" ∷ []),
    )
    ∷ (
      inventory_check,
      keywords (
          "hay stock" ∷ "hay existencias" ∷ "queda stock" ∷ "quedan existencias" ∷ "en stock"
          ∷ "disponible" ∷ "disponibilidad" ∷ []),
    )
    ∷ (
      product_details,
      keywords ("dime más sobre" ∷ "dime mas sobre" ∷ "detalles de" ∷ "más información sobre" ∷ []),
    )
    ∷ (
      category_browse,
      keywords ("qué categorías" ∷ "que categorías" ∷ "ver categorías" ∷ "categorías" ∷ []),
    )
    ∷ (
      product_search,
      keywords (
          "estás buscando" ∷ "estás vendiendo" ∷ "tienen" ∷ "tienes" ∷ "quiero" ∷ "quieres"
          ∷ "necesito" ∷ "busco" ∷ "buscando" ∷ "vendes" ∷ "muéstrame" ∷ "muestrame" ∷ "recomienda"
          ∷ "recomiéndame" ∷ "recomiendame" ∷ "sugiere" ∷ "sugiéreme" ∷ "sugereme"
          ∷ "dónde puedo comprar" ∷ "donde puedo comprar" ∷ []),
    )
    ∷ []

-- `any(kw in message for kw in keywords)`
abbrev pub hits : Text → List Text → Bool
hits message kws = any (λ kw. contains kw message) kws

-- One loop over a rule table: the intent of the first rule that has a keyword in the message.
pub first_match : Text → List Rule → Option IntentName
first_match message [] = none
first_match message ((intent, kws) ∷ rules) =
    if hits message kws then some intent else first_match message rules

abbrev or_unknown : Option IntentName → IntentName
or_unknown none = unknown
or_unknown (some intent) = intent

abbrev or_then : Option IntentName → Option IntentName → Option IntentName
or_then none later = later
or_then (some intent) later = some intent

unfoldable pub classify_intent : Text → IntentName
unfolding first_match lower contains
classify_intent customer_message =
    let message = lower customer_message in
    or_unknown
      (or_then (first_match message intent_rules) (first_match message multilingual_fallback_rules))
