-- ===== src/Lib.antt =====
-- Verification library of the sales agent backend (backend/app).
--
-- A customer's message becomes one turn of the agent: backend/app/agents/graph.py runs five nodes,
-- classify, gather, purchase, compose and persist. The nodes reach the Inventra shop service through
-- the typed tools (backend/app/tools/inventra), which use the HTTP client
-- (backend/app/integrations/inventra) and the read-through cache (backend/app/integrations/cache.py).
-- An order is made in two turns: the first asks for a confirmation and leaves a pending purchase in
-- the metadata of the stored reply, the second confirms it and sends the one write of the system.
--
-- Files:
--   Prelude, Text, Regex, Json   numbers, lists, Python's strings and patterns, JSON
--   Exec, Exec/Rules             methods that change the world and may raise; rules about them
--   Retry                        the request loop of the HTTP clients
--   Inventra/*                   contracts, errors, the client; Env is what the agent runs against
--   Cache                        integrations/cache.py
--   Tools                        tools/inventra/*.py, tools/errors.py
--   Agents/State, Agents/Turn    agents/state.py
--   Agents/Classify              agents/classify.py
--   Agents/Gather/*              agents/gather.py: Terms, Search, Node
--   Agents/Purchase/*            agents/purchase.py: Detect, Pending, Stock, Node
--   Agents/Compose               agents/compose.py, integrations/llm/gateway.py
--   Agents/Persist               agents/persist.py
--   Agents/Graph                 agents/graph.py
--   Agents/Order                 the order protocol as a relation, and that a turn refines it
--   Llm/*                        integrations/llm: Gemini, Nemotron, the gateway over both
--   Telegram/*                   integrations/telegram, api/services/telegram_service.py,
--                                api/routes/telegram.py, api/telegram_deps.py
--   Admin/Auth, Admin/Proxy      api/admin_deps.py, api/routes/inventra_admin.py
--   Dns                          db/dns_fallback.py
--   Tools/Errors and the modules named Laws, Trace, Errors, Costs, Calm, Writes, Consumes, Twice,
--   Keeps, Keys and Sharing      the proofs about the module they stand under
--   Shop                         a concrete environment, at which the theorems are applied
--
-- The state is the record World of Inventra/Env: the requests sent to Inventra, the store of Redis,
-- the rows of messages, the ids of the conversations, and for each database session to come whether
-- it fails. A method is a function from a world to a result or an exception and the world it leaves,
-- so what was done before an exception stays done. A function of the source that awaits has the
-- same name here; a leading underscore is dropped, and list_categories of the tools is
-- list_categories_tool. The channel's state is the record Desk of Telegram/Service: that world, the
-- rows of customers and conversations, and the calls of the Bot API. The endpoint gives its reply and
-- the message for which it creates a task; process_inbound_message is the task. The agent takes a
-- provider as a function of the prompt; Llm/Gateway is the same failover over the two providers, whose
-- state is what they posted. An exception that no client, tool or node catches (of httpx one that is
-- no TransportError, of json() one that is no ValueError) is the constructor other_error of
-- Inventra/Errors, other_failure of Agents/Compose, or telegram_other_error of Telegram/Client.
--
-- Parameters (the record Env): the answers of the service, which may depend on all that was sent
-- before; pydantic's validation and dump of each response model; the calls of Redis; json, SHA-256
-- and UUID parsing; the settings. The theorems on the cache take what Redis is documented to do as
-- IsRedis, and that its calls do not raise as IsUp; those on the sign-in take what is documented of
-- the hash and token libraries as IsCrypto, and the one on the webhook what is documented of
-- compare_digest as IsEndpoint. The answers of the Bot API, of the providers and of the
-- DNS servers, the ids that are drawn and the clocks are parameters in the same way.
--
-- Loops are structural: the request loop recurses on the retries left, the ladders on their terms.
-- The matcher of Regex recurses on the pattern, and in a repetition, which is of one class of
-- characters, on the text left. No fuel is used. Text is a list of code points, and the character
-- tables cover Latin-1 and all white space. A float is the bit pattern of its double; a text
-- composed for the customer is a constructor with what it shows.
--
-- Not modelled: waits and time-outs in seconds, log lines, error texts, the row of agent_runs, the
-- token usage in the turn's state, turns that run at the same time, the admin's views of the
-- conversations and the dashboard's totals, the set-up of the database and the frontend. Messages of
-- Telegram are handled one after another.
pub mod Prelude
pub mod Text
pub mod Regex
pub mod Exec
pub mod Json
pub mod Retry
pub mod Inventra
pub mod Cache
pub mod Tools
pub mod Agents
pub mod Llm
pub mod Telegram
pub mod Admin
pub mod Dns
pub mod Shop
