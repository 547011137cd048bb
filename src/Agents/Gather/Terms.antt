-- ===== src/Agents/Gather/Terms.antt =====
-- gather.py: the terms that are searched for, all pure functions of the message.
pub mod Laws
mod Tests
use ecommerce_sales_agent.Prelude.{
  ℕ, Bool, true, false, not, ◌||◌, ◌&&◌, Option, none, some, List, [], ◌∷◌, ◌++◌, map, leb, ltb,
  if◌then◌else◌, length, take, any, keep, is_nil, String,
}
use ecommerce_sales_agent.Text.{
  Text, codes, text_eq, lower, strip, strip_of, one_of, split, join, starts_with, replace, is_digit,
  is_upper, isdigit, int_of,
}
use ecommerce_sales_agent.Exec.{Result, ok, err}
use ecommerce_sales_agent.Inventra.Errors.{Exc, value_error}

abbrev last : List Text → Option Text
last [] = none
last (t ∷ []) = some t
last (t ∷ u ∷ ts) = last (u ∷ ts)

abbrev parsed_id : Option ℕ → Result Exc (Option ℕ)
parsed_id none = err value_error
parsed_id (some n) = ok (some n)

abbrev id_of : Option Text → Result Exc (Option ℕ)
id_of none = ok none
id_of (some tok) = parsed_id (int_of tok)

-- `_extract_id`: `isdigit` accepts digits that `int` refuses.
unfoldable pub extract_id : Text → Result Exc (Option ℕ)
unfolding split isdigit int_of
extract_id message = id_of (last (keep isdigit (split message)))

abbrev search_fillers : List Text
search_fillers = map codes (
    "i'm looking for" ∷ "im looking for" ∷ "do you have" ∷ "do you sell" ∷ "show me" ∷ "search for"
    ∷ "find me" ∷ "looking for" ∷ "recommend" ∷ "suggest" ∷ "i want" ∷ "i need" ∷ "please"
    ∷ "can you" ∷ "could you" ∷ "find" ∷ "search" ∷ "estás buscando" ∷ "estas buscando"
    ∷ "estás vendiendo" ∷ "estas vendiendo" ∷ "dónde puedo comprar" ∷ "donde puedo comprar"
    ∷ "muéstrame" ∷ "muestrame" ∷ "recomiéndame" ∷ "recomiendame" ∷ "tienen" ∷ "tienes" ∷ "quiero"
    ∷ "quieres" ∷ "necesito" ∷ "busco" ∷ "buscando" ∷ "vendes" ∷ [])

abbrev search_stopwords : List Text
search_stopwords = map codes (
    "a" ∷ "an" ∷ "the" ∷ "some" ∷ "any" ∷ "for" ∷ "me" ∷ "my" ∷ "your" ∷ "is" ∷ "are" ∷ "in" ∷ "on"
    ∷ "do" ∷ "does" ∷ "you" ∷ "i" ∷ "we" ∷ "have" ∷ "has" ∷ "was" ∷ "were" ∷ "there" ∷ "that"
    ∷ "this" ∷ "it" ∷ "of" ∷ "to" ∷ "with" ∷ "and" ∷ "or" ∷ "about" ∷ "tell" ∷ "what" ∷ "how"
    ∷ "much" ∷ "many" ∷ "available" ∷ "availability" ∷ "stock" ∷ "un" ∷ "una" ∷ "unos" ∷ "unas"
    ∷ "el" ∷ "la" ∷ "los" ∷ "las" ∷ "de" ∷ "del" ∷ "al" ∷ "en" ∷ "con" ∷ "por" ∷ "para" ∷ "que"
    ∷ "qué" ∷ "y" ∷ "o" ∷ "es" ∷ "son" ∷ "hay" ∷ "sí" ∷ "si" ∷ "tienes" ∷ "tienen" ∷ "quiero"
    ∷ "necesito" ∷ "busco" ∷ "algún" ∷ "algun" ∷ "alguna" ∷ [])

abbrev punctuation : Text
punctuation = codes ".,!?;:'\"()[]{}—–-¿¡"

abbrev member : Text → List Text → Bool
member t ts = any (λ u. text_eq t u) ts

unfoldable pub strip_fillers : List Text → Text → Text
unfolding replace
strip_fillers [] cleaned = cleaned
strip_fillers (filler ∷ fillers) cleaned =
    strip_fillers fillers (replace filler (codes " ") cleaned)

abbrev keeps_token : Text → Bool
keeps_token tok = any is_digit tok || not (member tok search_stopwords)

abbrev none_if_empty : Text → Option Text
none_if_empty [] = none
none_if_empty (c ∷ s) = some (c ∷ s)

unfoldable pub extract_search_term : Text → Option Text
unfolding strip_fillers strip_of one_of split join lower is_digit
extract_search_term message =
    let cleaned =
      strip_of (λ c. one_of punctuation c || one_of (codes " ") c)
        (strip_fillers search_fillers (lower message)) in
    let tokens = keep (λ t. not (is_nil t)) (map (strip_of (one_of punctuation)) (split cleaned)) in
    none_if_empty (join (codes " ") (keep keeps_token tokens))

-- `sorted(…, key=len, reverse=True)` keeps the order of tokens of one length.
unfoldable pub insert_longest : Text → List Text → List Text
insert_longest t [] = t ∷ []
insert_longest t (u ∷ us) =
    if leb (length u) (length t) then t ∷ u ∷ us else u ∷ insert_longest t us

unfoldable pub longest_first : List Text → List Text
unfolding insert_longest
longest_first [] = []
longest_first (t ∷ ts) = insert_longest t (longest_first ts)

-- The two longest tokens of more than two characters.
unfoldable pub significant : Text → List Text
unfolding longest_first split
significant term = take 2 (longest_first (keep (λ t. ltb 2 (length t)) (split term)))

-- `ladder.extend(…)`: the generator sees what has been added before.
unfoldable pub extend : List Text → List Text → List Text
unfolding lower
extend ladder [] = ladder
extend ladder (tok ∷ toks) =
    extend (if member (lower tok) (map lower ladder) then ladder else ladder ++ (tok ∷ [])) toks

abbrev or_empty : Option Text → Text
or_empty none = []
or_empty (some t) = t

abbrev tokens_of : Option Text → List Text
tokens_of none = []
tokens_of (some t) = significant t

unfoldable pub zero_result_fallback_terms : Text → Option Text → List Text
unfolding strip lower significant extend
zero_result_fallback_terms message term =
    let raw = strip message in
    let ladder =
      if not (is_nil raw) && not (text_eq (lower raw) (or_empty term)) then raw ∷ [] else [] in
    extend ladder (tokens_of term)

abbrev search_aliases : List (Text × Text)
search_aliases =
    (codes "laptops", codes "laptop")
    ∷ (codes "phones", codes "Mobile phones")
    ∷ (codes "headphones", codes "Headphones")
    ∷ (codes "tablets", codes "Tablets")
    ∷ (codes "laptop", codes "Laptops")
    ∷ (codes "notebook", codes "Laptops")
    ∷ []

abbrev spanish_aliases : List (Text × Text)
spanish_aliases =
    (codes "auriculares", codes "headphones")
    ∷ (codes "portatil", codes "laptops")
    ∷ (codes "portátil", codes "laptops")
    ∷ (codes "ordenador", codes "laptops")
    ∷ (codes "movil", codes "phones")
    ∷ (codes "móvil", codes "phones")
    ∷ (codes "telefono", codes "phones")
    ∷ (codes "teléfono", codes "phones")
    ∷ []

abbrev dict_get : Text → List (Text × Text) → Option Text
dict_get key [] = none
dict_get key ((k, v) ∷ d) = if text_eq k key then some v else dict_get key d

abbrev or_self : Option Text → Text → Text
or_self none t = t
or_self (some v) t = v

abbrev pub category_prefix : Text
category_prefix = codes "category:"

abbrev begins_upper : Text → Bool
begins_upper [] = false
begins_upper (c ∷ s) = is_upper c

abbrev alias_of : Option Text → Option Text
alias_of none = none
alias_of (some value) = some (if begins_upper value then category_prefix ++ value else value)

unfoldable pub alias_value_for : Text → Option Text
unfolding is_upper
alias_value_for token =
    alias_of (dict_get (or_self (dict_get token spanish_aliases) token) search_aliases)

abbrev pub is_category : Text → Bool
is_category value = starts_with category_prefix value

abbrev literal_only : Option Text → Option Text
literal_only none = none
literal_only (some value) = if is_category value then none else some value

unfoldable pub literal_alias_value : Text → Option Text
unfolding alias_value_for starts_with
literal_alias_value token = literal_only (alias_value_for token)

-- No term stays none; the extracted term is never empty.
unfoldable pub canonicalize_term : Option Text → Option Text
unfolding literal_alias_value split join
canonicalize_term none = none
canonicalize_term (some []) = some []
canonicalize_term (some (c ∷ s)) =
    some (join (codes " ") (map (λ tok. or_self (literal_alias_value tok) tok) (split (c ∷ s))))

abbrev add_alias : Option Text → List Text → List Text
add_alias none found = found
add_alias (some value) found = if member value found then found else found ++ (value ∷ [])

unfoldable pub collect_aliases : List Text → List Text → List Text
unfolding alias_value_for
collect_aliases found [] = found
collect_aliases found (token ∷ tokens) =
    collect_aliases (add_alias (alias_value_for token) found) tokens

unfoldable pub alias_terms_for : Option Text → List Text
unfolding collect_aliases significant
alias_terms_for none = []
alias_terms_for (some term) = collect_aliases [] (significant term)
