-- ===== src/Agents/Compose/Laws.antt =====
-- What the gateway and the composition promise.
use ecommerce_sales_agent.Prelude.{
  ◌≡◌, refl, Bool, true, false, ◌⊎◌, inl, inr, Option, none, some, List, [], ◌∷◌, All, arith,
}
use ecommerce_sales_agent.Text.{Text}
use ecommerce_sales_agent.Exec.{Result, ok, err}
use ecommerce_sales_agent.Inventra.Env.{Env, World}
use ecommerce_sales_agent.Inventra.Client.Costs.{Costs, Costs-pure, Costs-raise}
use ecommerce_sales_agent.Agents.State.{ToolErrorCode}
use ecommerce_sales_agent.Agents.Turn.{AgentState, ToolFailure, failure_of, raised, written}
use ecommerce_sales_agent.Agents.Purchase.Pending.Laws.{Calm, Calm-pure, Calm-raise}
use ecommerce_sales_agent.Agents.Compose.{
  LlmError, GenerationResponse, Prompt, Provider, generate, after_primary, after_fallback,
  failures_of, build_prompt, settled, with_prompt, compose_reply, LlmFailure, llm, type_error,
  invalid_model, other_failure, GatewayError, all_failed, passed, exception_of, deterministic_reply,
}
use ecommerce_sales_agent.Inventra.Errors.{Exc}

-- The entry is a `ToolFailure`, as `AgentState` declares.
abbrev pub IsFailure : Text × ToolFailure → Type 0
IsFailure (key, failure_of tool code) = Unit
IsFailure (key, raised e) = ⊥

failures_of-some :
    (fs : List (Text × ToolFailure))
    → All IsFailure fs
    → (codes' : List (Text × ToolErrorCode)) × (failures_of fs ≡ some codes')
unfolding failures_of
failures_of-some [] h = ([], refl)
failures_of-some ((key, raised e) ∷ fs) (h, hs) = absurd h
failures_of-some ((key, failure_of tool code) ∷ fs) (h, hs) =
    let (rest, e) = failures_of-some fs hs in ((tool, code) ∷ rest, rw e refl)

abbrev pub is_llm : LlmFailure → Bool
is_llm (llm e) = true
is_llm f = false

-- How the composition ends: with the answer of the first provider; with that of the second one,
-- marked as such, after an `LLMError` of the first; with the templates after an `LLMError` of every
-- provider there is; or with what a provider raised that is no `LLMError`.
pub data IsComposed (primary : Provider) (fallback : Option Provider) (state : AgentState)
    (prompt : Prompt) : Result Exc AgentState → Type 0 where
  by_primary :
      (r : GenerationResponse)
      → primary prompt ≡ ok r
      → IsComposed primary fallback state prompt (
          ok (record state {
            draft_response = written r.text;
            model_used = some r.model_used;
            fallback_used = r.fallback_used;
          }))
  by_fallback :
      (e : LlmError) (second : Provider) (r : GenerationResponse)
      → primary prompt ≡ err (llm e)
      → fallback ≡ some second
      → second prompt ≡ ok r
      → IsComposed primary fallback state prompt (
          ok (record state {
            draft_response = written r.text;
            model_used = some r.model_used;
            fallback_used = true;
          }))
  by_templates :
      (e : LlmError)
      → primary prompt ≡ err (llm e)
      → (fallback ≡ none)
        ⊎ ((second : Provider) × (fallback ≡ some second)
            × ((f : LlmError) × (second prompt ≡ err (llm f))))
      → IsComposed primary fallback state prompt
          (ok (record state { draft_response = deterministic_reply state }))
  by_exception :
      (provider : Provider) (f : LlmFailure)
      → (primary ≡ provider) ⊎ (fallback ≡ some provider)
      → provider prompt ≡ err f
      → is_llm f ≡ false
      → IsComposed primary fallback state prompt (err (exception_of f))

module _ (env : Env) (primary : Provider) (fallback : Option Provider) where
  pub compose_reply-Calm :
      (state : AgentState) → Calm env (compose_reply env primary fallback state)
  unfolding compose_reply
  compose_reply-Calm state = composed_from (build_prompt state)
    where
      settled_from : (r : Result GatewayError GenerationResponse) → Calm env (settled env state r)
      settled_from (ok r) = Calm-pure env _
      settled_from (err (all_failed codes')) = Calm-pure env _
      settled_from (err (passed e)) = Calm-raise env _

      composed_from : (o : Option Prompt) → Calm env (with_prompt env primary fallback state o)
      composed_from none = Calm-raise env _
      composed_from (some prompt) = settled_from (generate primary fallback prompt)

  settled-IsComposed :
      (state : AgentState) (prompt : Prompt) (w : World env)
      → (settled env state (generate primary fallback prompt) w).1 ≡ w
        × IsComposed primary fallback state prompt
            (settled env state (generate primary fallback prompt) w).0
  unfolding generate
  settled-IsComposed state prompt w = asked fallback refl (primary prompt) refl
    where
      Ends : Result GatewayError GenerationResponse → Type 0
      Ends g =
          ((settled env state g w).1 ≡ w)
          × IsComposed primary fallback state prompt (settled env state g w).0

      second_asked :
          (e : LlmError) (second : Provider) (r : Result LlmFailure GenerationResponse)
          → primary prompt ≡ err (llm e)
          → fallback ≡ some second
          → second prompt ≡ r
          → Ends (after_fallback e r)
      second_asked e second (ok r) h k l = (refl, by_fallback e second r h k l)
      second_asked e second (err (llm f)) h k l = (refl, by_templates e h (inr (second, k, (f, l))))
      second_asked e second (err type_error) h k l = (refl, by_exception second _ (inr k) l refl)
      second_asked e second (err invalid_model) h k l = (refl, by_exception second _ (inr k) l refl)
      second_asked e second (err other_failure) h k l = (refl, by_exception second _ (inr k) l refl)

      asked :
          (o : Option Provider)
          → fallback ≡ o
          → (r : Result LlmFailure GenerationResponse) → primary prompt ≡ r
          → Ends (after_primary o prompt r)
      asked o k (ok r) h = (refl, by_primary r h)
      asked none k (err (llm e)) h = (refl, by_templates e h (inl k))
      asked (some second) k (err (llm e)) h = second_asked e second (second prompt) h k refl
      asked o k (err type_error) h = (refl, by_exception primary _ (inl refl) h refl)
      asked o k (err invalid_model) h = (refl, by_exception primary _ (inl refl) h refl)
      asked o k (err other_failure) h = (refl, by_exception primary _ (inl refl) h refl)

  -- Where every tool error of the turn is a `ToolFailure`, the composition leaves the world as it
  -- was, and ends with the first provider's answer, or with the second one's, marked as such, after
  -- an `LLMError` of the first, or with the templates after an `LLMError` of every provider, or with
  -- an exception of a provider that is no `LLMError`.
  pub compose_reply-IsComposed :
      (state : AgentState) (w : World env)
      → All IsFailure state.tool_errors
      → (prompt : Prompt) × (build_prompt state ≡ some prompt)
        × ((compose_reply env primary fallback state w).1 ≡ w)
        × IsComposed primary fallback state prompt (compose_reply env primary fallback state w).0
  unfolding compose_reply build_prompt
  compose_reply-IsComposed state w h = prompted (build_prompt state) refl
    where
      known : (codes' : List (Text × ToolErrorCode)) × (failures_of state.tool_errors ≡ some codes')
      known = failures_of-some state.tool_errors h

      prompted :
          (o : Option Prompt)
          → build_prompt state ≡ o
          → (prompt : Prompt) × (o ≡ some prompt)
            × ((with_prompt env primary fallback state o w).1 ≡ w)
            × IsComposed primary fallback state prompt
                (with_prompt env primary fallback state o w).0
      prompted none e = absurd (ground (arith, known.1))
      prompted (some prompt) e = (
        prompt,
        refl,
        (settled-IsComposed state prompt w).0,
        (settled-IsComposed state prompt w).1,
      )

  pub compose_reply-Costs :
      (state : AgentState) → Costs 0 (compose_reply env primary fallback state)
  unfolding compose_reply
  compose_reply-Costs state = composed_from (build_prompt state)
    where
      settled_from : (r : Result GatewayError GenerationResponse) → Costs 0 (settled env state r)
      settled_from (ok r) = Costs-pure env 0 _
      settled_from (err (all_failed codes')) = Costs-pure env 0 _
      settled_from (err (passed e)) = Costs-raise env 0 _

      composed_from : (o : Option Prompt) → Costs 0 (with_prompt env primary fallback state o)
      composed_from none = Costs-raise env 0 _
      composed_from (some prompt) = settled_from (generate primary fallback prompt)
