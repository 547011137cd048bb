-- ===== src/Agents/Gather/Terms/Laws.antt =====
-- How many searches the fallbacks of a message ask for.
use ecommerce_sales_agent.Prelude.{
  suc, ◌+◌, ◌≤◌, Bool, true, false, Option, none, some, List, [], ◌∷◌, ◌++◌, arith, length,
  length-append, length-take, if◌then◌else◌, not, ◌&&◌, Bool-cases, inl, inr, is_nil, keep, map,
  ltb,
}
use ecommerce_sales_agent.Text.{Text, text_eq, lower, strip, split}
use ecommerce_sales_agent.Agents.Gather.Terms.{
  extend, significant, zero_result_fallback_terms, collect_aliases, alias_terms_for, add_alias,
  alias_value_for, member, or_empty, tokens_of, longest_first,
}

length-extend :
    (ladder toks : List Text) → length (extend ladder toks) ≤ length ladder + length toks
unfolding extend
length-extend ladder [] = omega arith
length-extend ladder (tok ∷ toks) = elim (Bool-cases (member (lower tok) (map lower ladder))) [
  | inl old ↦ rw old (omega (arith, length-extend ladder toks))
  | inr new ↦
      rw new
        (omega (arith, length-extend (ladder ++ (tok ∷ [])) toks, length-append ladder (tok ∷ [])))
]

length-tokens_of : (term : Option Text) → length (tokens_of term) ≤ 2
unfolding significant
length-tokens_of none = omega arith
length-tokens_of (some t) =
    omega (arith, length-take 2 (longest_first (keep (λ u. ltb 2 (length u)) (split t))))

-- The zero-result ladder has at most three terms, whatever the message and the extracted term.
pub length-zero_result_fallback_terms :
    (message : Text) (term : Option Text) → length (zero_result_fallback_terms message term) ≤ 3
unfolding zero_result_fallback_terms
length-zero_result_fallback_terms message term =
    split_on (not (is_nil (strip message)) && not (text_eq (lower (strip message)) (or_empty term)))
  where
    split_on :
        (b : Bool) → length (extend (if b then strip message ∷ [] else []) (tokens_of term)) ≤ 3
    split_on true =
        omega (arith, length-extend (strip message ∷ []) (tokens_of term), length-tokens_of term)
    split_on false = omega (arith, length-extend [] (tokens_of term), length-tokens_of term)

length-add_alias :
    (o : Option Text) (found : List Text) → length (add_alias o found) ≤ suc (length found)
length-add_alias none found = omega arith
length-add_alias (some v) found = split_on (member v found)
  where
    split_on : (b : Bool) → length (if b then found else found ++ (v ∷ [])) ≤ suc (length found)
    split_on true = omega arith
    split_on false = omega (arith, length-append found (v ∷ []))

length-collect_aliases :
    (found toks : List Text) → length (collect_aliases found toks) ≤ length found + length toks
unfolding collect_aliases
length-collect_aliases found [] = omega arith
length-collect_aliases found (tok ∷ toks) = omega (
  arith,
  length-collect_aliases (add_alias (alias_value_for tok) found) toks,
  length-add_alias (alias_value_for tok) found,
)

-- At most two aliases are tried after the ladder.
pub length-alias_terms_for : (term : Option Text) → length (alias_terms_for term) ≤ 2
unfolding alias_terms_for
length-alias_terms_for none = omega arith
length-alias_terms_for (some t) =
    omega (arith, length-collect_aliases [] (significant t), length-tokens_of (some t))
