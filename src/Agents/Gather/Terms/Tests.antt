-- ===== src/Agents/Gather/Terms/Tests.antt =====
-- Runs of the extraction on messages.
use ecommerce_sales_agent.Prelude.{◌≡◌, refl, none, some, [], ◌∷◌}
use ecommerce_sales_agent.Text.{codes}
use ecommerce_sales_agent.Exec.{ok, err}
use ecommerce_sales_agent.Inventra.Errors.{value_error}
use ecommerce_sales_agent.Agents.Gather.Terms.{
  extract_id, extract_search_term, zero_result_fallback_terms, canonicalize_term, alias_terms_for,
}

ids :
    (extract_id (codes "details of 12 or 7") ≡ ok (some 7))
    × (extract_id (codes "details") ≡ ok none)
    × (extract_id (codes "details of m²  ²") ≡ err value_error)
unfolding extract_id
ids = (refl, refl, refl)

terms :
    (extract_search_term (codes "Do you have any Samsung phones?") ≡ some (codes "samsung phones"))
    × (extract_search_term (codes "Show me TS-001, please!") ≡ some (codes "ts-001"))
    × (extract_search_term (codes "do you have the") ≡ none)
unfolding extract_search_term
terms = (refl, refl, refl)

ladders :
    (zero_result_fallback_terms (codes "Samsung phones") (some (codes "samsung phones"))
      ≡ codes "samsung" ∷ codes "phones" ∷ [])
    × (canonicalize_term (some (codes "cheap laptops")) ≡ some (codes "cheap laptop"))
    × (alias_terms_for (some (codes "auriculares baratos")) ≡ codes "category:Headphones" ∷ [])
unfolding zero_result_fallback_terms canonicalize_term alias_terms_for
ladders = (refl, refl, refl)
