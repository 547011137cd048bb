-- ===== src/Llm/Gateway/Laws.antt =====
-- What a generation gives, and how often it posts.
use ecommerce_sales_agent.Prelude.{
  ◌≡◌, refl, ◌⊎◌, inl, inr, Bool, true, false, Option, none, some, List, is_nil, Bool-cases, subst,
  ap,
}
use ecommerce_sales_agent.Text.{Text, codes, strip}
use ecommerce_sales_agent.Json.{Json, str, arr, obj, cons, get}
use ecommerce_sales_agent.Exec.{Result, ok, err, ◌>>=◌, pure}
use ecommerce_sales_agent.Exec.Rules.{Returns, Returns-pure, Returns-raise, Returns-bind}
use ecommerce_sales_agent.Agents.Compose.{
  LlmFailure, llm, type_error, invalid_model, other_failure, LlmError, TokenUsage,
  GenerationResponse,
}
use ecommerce_sales_agent.Llm.Http.{
  GenerationRequest, ProviderSettings, LlmAction, with_usage, of_result,
}
use ecommerce_sales_agent.Llm.Gemini.{
  completion, parts_text, content_text, candidate_text, candidates_text, is_blocked, gemini_extract,
  gemini_response, gemini_generate, joined_parts,
}
use ecommerce_sales_agent.Llm.Nemotron.{
  chat_content, message_text, choice_text, choices_text, nemotron_extract, nemotron_response,
  nemotron_generate,
}
use ecommerce_sales_agent.Llm.Gateway.{
  fallback_done, primary_done, generate_request, unconfigured, Posted, LlmGateway, by_gemini,
  by_nemotron, build_default_gateway,
}

-- A text without outer spaces that is not empty.
abbrev pub IsCompletion : Text → Type 0
IsCompletion t = (t' : Text) × (t ≡ strip t') × (is_nil t ≡ false)

completion-IsCompletion : (o : Option Text) (t : Text) → completion o ≡ ok t → IsCompletion t
completion-IsCompletion none t h = absurd (cc h)
completion-IsCompletion (some t') t h = elim (Bool-cases (is_nil (strip t'))) [
  | inl empty ↦ absurd (cc (rw empty at h))
  | inr full ↦
      let e : ◌≡◌ {A = Result LlmFailure Text} (ok (strip t')) (ok t) = rw full at h in
      (t', cc e, cc (full, e))
]

parts-IsCompletion : (j : Json) (t : Text) → parts_text j ≡ ok t → IsCompletion t
parts-IsCompletion (arr parts) t h = completion-IsCompletion (joined_parts parts) t h
parts-IsCompletion _ t h = absurd (cc h)

content-IsCompletion : (j : Json) (t : Text) → content_text j ≡ ok t → IsCompletion t
content-IsCompletion (obj content) t h = parts-IsCompletion (get _ content) t h
content-IsCompletion _ t h = absurd (cc h)

candidate-IsCompletion : (j : Json) (t : Text) → candidate_text j ≡ ok t → IsCompletion t
candidate-IsCompletion (obj first) t h = content-IsCompletion (get _ first) t h
candidate-IsCompletion _ t h = absurd (cc h)

candidates-IsCompletion : (j : Json) (t : Text) → candidates_text j ≡ ok t → IsCompletion t
candidates-IsCompletion (arr (cons first rest)) t h = candidate-IsCompletion first t h
candidates-IsCompletion _ t h = absurd (cc h)

chat-IsCompletion : (j : Json) (t : Text) → chat_content j ≡ ok t → IsCompletion t
chat-IsCompletion (str t') t h = elim (Bool-cases (is_nil (strip t'))) [
  | inl empty ↦ absurd (cc (rw empty at h))
  | inr full ↦
      let e : ◌≡◌ {A = Result LlmFailure Text} (ok (strip t')) (ok t) = rw full at h in
      (t', cc e, cc (full, e))
]
chat-IsCompletion _ t h = absurd (cc h)

message-IsCompletion : (j : Json) (t : Text) → message_text j ≡ ok t → IsCompletion t
message-IsCompletion (obj message) t h = chat-IsCompletion (get _ message) t h
message-IsCompletion _ t h = absurd (cc h)

choice-IsCompletion : (j : Json) (t : Text) → choice_text j ≡ ok t → IsCompletion t
choice-IsCompletion (obj first) t h = message-IsCompletion (get _ first) t h
choice-IsCompletion _ t h = absurd (cc h)

choices-IsCompletion : (j : Json) (t : Text) → choices_text j ≡ ok t → IsCompletion t
choices-IsCompletion (arr (cons first rest)) t h = choice-IsCompletion first t h
choices-IsCompletion _ t h = absurd (cc h)

-- The response has such a text, the model of the settings, and says whether it is of the fallback.
pub record IsCompleted (settings : ProviderSettings) (by_fallback : Bool) (r : GenerationResponse)
    : Type 0 where
  pub text : IsCompletion r.text
  pub model_used : r.model_used ≡ settings.model
  pub fallback_used : r.fallback_used ≡ by_fallback

with_usage-text :
    (u : Result LlmFailure (Option TokenUsage)) (r : Result LlmFailure Text)
    (x : Text × Option TokenUsage)
    → with_usage u r ≡ ok x
    → r ≡ ok x.0
with_usage-text u (err e) x h = absurd (cc h)
with_usage-text (err e) (ok text) x h = absurd (cc h)
with_usage-text (ok usage) (ok text) x h = let e : (text, usage) ≡ x = cc h in ap (λ y. ok y.0) e

module _ (settings : ProviderSettings) where
  gemini_extract-IsCompletion :
      (j : Json) (x : Text × Option TokenUsage)
      → gemini_extract settings j ≡ ok x
      → IsCompletion x.0
  unfolding gemini_extract
  gemini_extract-IsCompletion (obj data') x h =
      elim (Bool-cases (is_blocked (get (codes "promptFeedback") data'))) [
        | inl blocked ↦ absurd (cc (rw blocked at h))
        | inr open' ↦
            candidates-IsCompletion (get (codes "candidates") data') x.0
              (with_usage-text _ _ x (rw open' at h))
      ]
  gemini_extract-IsCompletion _ x h = absurd (cc h)

  nemotron_extract-IsCompletion :
      (j : Json) (x : Text × Option TokenUsage)
      → nemotron_extract settings j ≡ ok x
      → IsCompletion x.0
  unfolding nemotron_extract
  nemotron_extract-IsCompletion (obj data') x h =
      choices-IsCompletion (get (codes "choices") data') x.0 (with_usage-text _ _ x h)
  nemotron_extract-IsCompletion _ x h = absurd (cc h)

  abbrev Completes : Bool → LlmAction GenerationResponse → Type 0
  Completes by_fallback m = Returns (IsCompleted settings by_fallback) m

  extracted-Completes :
      (by_fallback : Bool) (response : Text × Option TokenUsage → GenerationResponse)
      → ((x : Text × Option TokenUsage)
          → IsCompletion x.0
          → IsCompleted settings by_fallback (response x))
      → (r : Result LlmFailure (Text × Option TokenUsage))
      → ((x : Text × Option TokenUsage) → r ≡ ok x → IsCompletion x.0)
      → Completes by_fallback (of_result r >>= λ x. pure (response x))
  extracted-Completes by_fallback response h (ok x) k = Returns-pure _ (h x (k x refl))
  extracted-Completes by_fallback response h (err e) k = Returns-raise e

  -- What Gemini's provider returns is a text without outer spaces that is not empty, with the model
  -- of its settings.
  pub gemini_generate-Completes :
      (request : GenerationRequest) → Completes false (gemini_generate settings request)
  unfolding gemini_generate
  gemini_generate-Completes request = Returns-bind _ _ λ j.
      extracted-Completes false (gemini_response settings)
        (λ x c. record { text = c; model_used = refl; fallback_used = refl })
        (gemini_extract settings j) (gemini_extract-IsCompletion j)

  pub nemotron_generate-Completes :
      (request : GenerationRequest) → Completes true (nemotron_generate settings request)
  unfolding nemotron_generate
  nemotron_generate-Completes request = Returns-bind _ _ λ j.
      extracted-Completes true (nemotron_response settings)
        (λ x c. record { text = c; model_used = refl; fallback_used = refl })
        (nemotron_extract settings j) (nemotron_extract-IsCompletion j)

pub data IsBuilt (gemini nemotron : ProviderSettings) : LlmGateway → Type 0 where
  off : IsBuilt gemini nemotron (record { primary = unconfigured Posted; fallback = none })
  single : IsBuilt gemini nemotron (record { primary = by_gemini gemini; fallback = none })
  double :
      IsBuilt gemini nemotron
        (record { primary = by_gemini gemini; fallback = some (by_nemotron nemotron) })

pub build-IsBuilt :
    (gemini nemotron : ProviderSettings) (gateway : LlmGateway)
    → build_default_gateway (some gemini) nemotron ≡ ok gateway
    → IsBuilt gemini nemotron gateway
unfolding build_default_gateway
build-IsBuilt gemini nemotron gateway h = elim (Bool-cases (is_nil gemini.api_key)) [
  | inl no_key ↦ built off (rw no_key at h)
  | inr key ↦ elim (Bool-cases (is_nil nemotron.api_key)) [
    | inl alone ↦ built single (rw (key, alone) at h)
    | inr both ↦ elim (Bool-cases (is_nil nemotron.base_url)) [
      | inl no_url ↦ absurd (cc (rw (key, both, no_url) at h))
      | inr url ↦ built double (rw (key, both, url) at h)
    ]
  ]
]
  where
    built :
        {g : LlmGateway}
        → IsBuilt gemini nemotron g
        → ◌≡◌ {A = Result LlmFailure LlmGateway} (ok g) (ok gateway)
        → IsBuilt gemini nemotron gateway
    built b e = subst (IsBuilt gemini nemotron) (cc e) b

-- A response of the gateway that is built from the settings is one of Gemini, or one of Nemotron
-- after an error of Gemini, and it says which: it has the model of its provider, says whether it is
-- of the fallback, and its text is stripped and not empty.
pub generate_request-IsCompleted :
    (gemini nemotron : ProviderSettings) (gateway : LlmGateway) (request : GenerationRequest)
    (posted : Posted) (r : GenerationResponse)
    → build_default_gateway (some gemini) nemotron ≡ ok gateway
    → (generate_request Posted gateway.primary gateway.fallback request posted).0 ≡ ok r
    → IsCompleted gemini false r
      ⊎ (IsCompleted nemotron true r
          × ((e : LlmError) × ((gateway.primary request posted).0 ≡ err (llm e))))
unfolding generate_request
generate_request-IsCompleted gemini nemotron gateway request posted r built h =
    from gateway (build-IsBuilt gemini nemotron gateway built) h
  where
    of_gemini :
        (p : Result LlmFailure GenerationResponse)
        → (gemini_generate gemini request posted.0).0 ≡ p
        → p ≡ ok r
        → IsCompleted gemini false r
    of_gemini p e k = (gemini_generate-Completes gemini request).at posted.0 r (cc (e, k))

    of_nemotron :
        (first : LlmError) (q : Result LlmFailure GenerationResponse)
        → (nemotron_generate nemotron request posted.1).0 ≡ q
        → fallback_done Posted first q ≡ ok r
        → IsCompleted nemotron true r
    of_nemotron first (ok response) e k =
        let c = (nemotron_generate-Completes nemotron request).at posted.1 response e in
        let s : record response { fallback_used = true } ≡ r = cc k in
        subst (IsCompleted nemotron true) s
          (record { text = c.text; model_used = c.model_used; fallback_used = refl })
    of_nemotron first (err (llm second)) e k = absurd (cc k)
    of_nemotron first (err type_error) e k = absurd (cc k)
    of_nemotron first (err invalid_model) e k = absurd (cc k)
    of_nemotron first (err other_failure) e k = absurd (cc k)

    alone :
        (p : Result LlmFailure GenerationResponse) (s : Posted)
        → (gemini_generate gemini request posted.0).0 ≡ p
        → (primary_done Posted none request p s).0 ≡ ok r
        → IsCompleted gemini false r
    alone (ok response) s e k = of_gemini (ok response) e (cc k)
    alone (err (llm first)) s e k = absurd (cc k)
    alone (err type_error) s e k = absurd (cc k)
    alone (err invalid_model) s e k = absurd (cc k)
    alone (err other_failure) s e k = absurd (cc k)

    both :
        (p : Result LlmFailure GenerationResponse) (s : List Json)
        → (gemini_generate gemini request posted.0).0 ≡ p
        → (primary_done Posted (some (by_nemotron nemotron)) request p (s, posted.1)).0 ≡ ok r
        → IsCompleted gemini false r
          ⊎ (IsCompleted nemotron true r
              × ((e : LlmError) × ((gemini_generate gemini request posted.0).0 ≡ err (llm e))))
    both (ok response) s e k = inl (of_gemini (ok response) e (cc k))
    both (err (llm first)) s e k = inr (of_nemotron first _ refl k, (first, e))
    both (err type_error) s e k = absurd (cc k)
    both (err invalid_model) s e k = absurd (cc k)
    both (err other_failure) s e k = absurd (cc k)

    from :
        (g : LlmGateway)
        → IsBuilt gemini nemotron g
        → (generate_request Posted g.primary g.fallback request posted).0 ≡ ok r
        → IsCompleted gemini false r
          ⊎ (IsCompleted nemotron true r
              × ((e : LlmError) × ((g.primary request posted).0 ≡ err (llm e))))
    from _ off k = absurd (cc k)
    from _ single k = inl (alone _ ((gemini_generate gemini request posted.0).1, posted.1) refl k)
    from _ double k = both _ (gemini_generate gemini request posted.0).1 refl k
