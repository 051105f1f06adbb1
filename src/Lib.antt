-- ===== src/Lib.antt =====
-- Guardian wallet: a model of the server that co-signs transactions, and the theorems about it.
--
-- The server holds one share of a threshold key. A signing request passes always-on security checks and the
-- policy document of its signer, gets a session with the server's share loaded, exchanges the rounds of the
-- threshold protocol, and is completed: the signature is broadcast or returned, the session is destroyed and
-- the share overwritten. Every outcome writes a row of the audit log.
--
-- Which file models which part (paths from the repository's root):
--   Policy.Types, Policy.Numerals: packages/core/src/types/rules.ts and policy-engine.interface.ts;
--     `safeBigInt`, `compareValues`.
--   Policy.Criteria with Limits, Targets, Calls, Reasons: the registry and the fifteen evaluators of
--     packages/server/src/policies/evaluators, one function `<type>_evaluate` for each `evaluate`, and
--     `fail_reason` for the `failReason` functions. A thrown error is `none`, which the dispatcher
--     `evaluate_criterion` turns into "not met". Criteria.Window, Addresses, Approvals and Slippage hold the
--     proofs.
--   Policy.Engine: `RulesEngineProvider.evaluate` of rules-engine.provider.ts, as the recursion `run_rules`
--     over the rules with the count and the first failure that the loop carries. Decision, Monotone and
--     Diagnosis hold the proofs.
--   Policy.AlwaysOn: always-on-checks.ts; Calldata and Meaning hold the proofs.
--   Policy.Document: `validateRules` of policy-document.service.ts, with the rules that `save` hands on. A
--     criterion of a request body has a type of packages/core or is null; Validity, Nulls and Stable hold the
--     proofs.
--   Policy.Backtest: `backtest` of policy-backtest.service.ts; Order and Counts hold the proofs.
--   Transfers: packages/server/src/common/transfer-decoder.service.ts, the checks of approvals and swaps here
--     and `decode` in Transfers.Outflows, with Pricing and Reports for the proofs. Transfers.Oracle: the cache of price-oracle.service.ts.
--   Signing: packages/server/src/signing/interactive-sign.service.ts. The state `Service` is the map of
--     sessions, the buffers that hold key material, and the rows written to the audit log. `create_session`,
--     `process_round`, `complete_sign`, `create_message_session`, `complete_message_sign`,
--     `cleanup_expired_sessions` and `on_module_destroy` are the handlers, each whole, with their common parts
--     in Populate (`populateTransaction`), Checks (the guards and refusals), Opening (steps 7 to 9) and
--     Sessions (`getValidSession`, `destroySession`, the audit writes). Invariant, Admission, Progress and
--     Completion hold the proofs, System the runs of the whole service.
--   Auth.Challenges: `ChallengeStore` of packages/server/src/auth/challenge-store.ts and of
--     packages/auth/src/server/challenge-store.ts; Spec is the map that it promises, Refinement the proof that
--     it keeps the promise. Auth.RateLimit: `RateLimitGuard` of
--     packages/server/src/auth/rate-limit.guard.ts, with `can_activate` as the composition of its checks.
--     Auth.Database: what the code relies on of the database client, as a record of statements and their laws,
--     which the services take as a parameter; Rows and Kept hold lemmas that follow from the laws.
--     Auth.Transfers: `TransferService` of packages/server/src/auth/transfer.service.ts, with the filters of its
--     statements as Boolean tests of a row (`is_claimable`, `is_confirmable`). Locks and Runs hold the
--     invariants over any sequence of calls, Outcomes, Exclusion and Confirmation what follows.
--     Auth.Tokens: `SessionService` of packages/server/src/auth/session.service.ts; Rows, Rotation and Revocation
--     hold the proofs.
--   Builder.Catalog: `CRITERION_CATALOG` of packages/core/src/criteria/catalog.ts, with `toCriterion`,
--     `fromCriterion` and `validate` as functions by cases on the type. Builder.Conversions: `buildRules` and
--     `parseFormValues` of packages/app/src/components/policy-builder/conversions.ts, and the `buildRules` of
--     packages/wallet/src/lib/policy-conversions.ts as `wallet_build_rules`. A field of a form is a number, a
--     text, a switch or a list, by the type of its criterion; the labels and summaries are left out.
--   Dkg.Pool: packages/server/src/dkg/aux-info-pool.service.ts, where the count of generators is a whole number
--     that may be negative, and `active_children` is the number of processes that run. Dkg.Service:
--     packages/server/src/dkg/dkg.service.ts, whose state holds the pending sessions, the pool and the
--     calls that write to the database and the share store, answered or not. The buffers with key material
--     and the wiping of them are left out there.
--   Schemes.Sessions: the signing sessions of packages/schemes/src/cggmp24/cggmp24.scheme.ts. `live` are the native
--     processes and the sessions inside the WASM module that run. Opening is `createSignSession`, Rounds is
--     `processSignRound` and `finalizeSign`; Backends, Tracking and Finals hold the proofs.
--   Chains.Nonces: `EthereumNonceManager` of packages/chains/src/ethereum/ethereum.nonce.ts; Reuse and Least hold
--     the proofs.
--   Prelude: strings as lists of code units, JavaScript maps with string keys as association lists, whole
--     numbers, and handlers that throw as functions from a state to a result with a state.
--   Tests: concrete inputs and the theorems at them.
--
-- Interaction: Builder makes the rules that Policy.Engine evaluates; Signing awaits Schemes, and Dkg.Service takes
-- its entries from Dkg.Pool. Signing calls Policy.AlwaysOn and Policy.Engine with the context that `tx_context` or
-- `message_context` builds; Policy.Criteria and Policy.AlwaysOn call Transfers.
--
-- What the model takes as given. What a handler awaits from outside (database, chain, key store, threshold
-- scheme, clock) is a `Reply`, an argument of the handler, which either returns or rejects, so that a theorem
-- holds for all of them. The ABI decoder of viem and `isIP` of node are the record `Host`. JavaScript numbers
-- that the code computes with as fractions are a type with operations, the class `Number`, about which nothing
-- is assumed. A handler runs from its first line to its last before another one starts: interleavings at its
-- awaits are not modelled, so that the bound on the number of sessions is a bound for handlers that run one
-- after the other.
-- Logging and the timers are left out. The database is a parameter: a statement of its client either fails, or is
-- made and answered, or is made with its answer lost, and one that asks for a single row is answered only where one
-- row matches. The one loop with fuel is that of `getNext` over reserved nonces, with as many steps as nonces are
-- reserved; all other loops are over lists.
--
-- Not modelled: the repositories, controllers and modules of the server, which are SQL, routes and wiring; the
-- protocol of key generation and signing, which native code and WASM run; the calls of viem, SimpleWebAuthn, Vault
-- and the browser in the chain, authentication, key management and wallet packages; the web application and the
-- commands of the wallet, which are user interface. The authentication service, the legacy policies, the guards
-- and the configuration, which join these to what is modelled, are left out as well.
pub mod Prelude
pub mod Policy
pub mod Transfers
pub mod Signing
pub mod Auth
pub mod Chains
pub mod Builder
pub mod Dkg
pub mod Schemes
pub mod Tests
