-- ===== src/Lib.antt =====
-- Terminal Workspace: a model of the core of the desktop application, a local-first SSH client, and
-- the theorems that make it correct.
--
-- The application keeps its state in stores, each a record with actions. The session store
-- (apps/desktop/src/store/sessions-store.ts) holds the tabs, the panes that they show, the commands
-- that wait for a pane, and the history of commands; its actions are pure functions of the state,
-- composed with calls of the backend that open and close live sessions.
--
-- Common holds what the modules share: texts as lists of UTF-16 code units, arrays, and objects used
-- as dictionaries, whose entries are kept in insertion order (Common/Dict).
-- Hosts/Types models the host record of apps/desktop/src/types/host.ts. Hosts/Normal, Form, Samples and Store model
-- apps/desktop/src/store/hosts-store.ts, its normal form, the record made of the editor's form, the sample hosts
-- and the actions; Hosts/Reach has the states that the actions reach. Trimming, NormalLaws, Sorting and Keeping hold
-- lemmas, Reach and Groups the theorems, and Hosts/Tests runs and examples.
-- Sessions/Types models apps/desktop/src/types/session.ts. Sessions/Titles, Tabs, Panes, History,
-- Persist and Store model sessions-store.ts: each function keeps its name in snake case, an optional
-- field is an Option, and an action that closes backend sessions returns their ids beside the state.
-- Sessions/Steps has every action of the store as a step, and the states that the steps reach.
-- Sessions/Counts, Updates, Closing, Moves and Opened hold lemmas; Sessions/Valid, HistoryLaws, TitleLaws,
-- CycleLaws, Reaping, PersistLaws and RatioLaws hold the theorems, and Sessions/Tests runs and examples.
--
-- Vault/Deletions models apps/desktop/src/store/vault-sync-store.ts, the tombstones of deleted records, and how
-- apps/desktop/src/lib/local-config.ts merges two lists of them. Vault/Merge models mergeCollection of
-- lib/local-config.ts for any type of record; Vault/Records has the records, and Vault/Plans the
-- preview and the merge of the five collections. Vault/Import applies an imported bundle to the stores.
-- Vault/Contract models apps/desktop/src/lib/vault-sync-contract.ts.
-- Vault/Gather, Marking, MergeSteps, MergeLaws and MergeTally hold lemmas; Vault/Compaction, Tombstones,
-- Collections, Resolution, PlanLaws, ImportLaws and Trust hold the theorems, and Vault/Tests and
-- ImportTests runs and examples.
--
-- Connect/Types and Build model apps/desktop/src/lib/connections.ts and lib/host-identity-resolver.ts: the
-- connection that the backend gets, over the jump hosts in front of a host. Connect/KnownHosts models
-- store/known-hosts-store.ts and lib/ensure-trusted-host-key.ts, and Connect/Prompts the two stores on which
-- a connection waits for the user, store/fingerprint-trust-prompt-store.ts and
-- store/connection-secret-prompt-store.ts, where a promise is a number. Connect/Launch models
-- lib/launch-host-session.ts and store/connect-error-store.ts. Connect/Ending, Routes, Faults, Trusting, Bus and
-- Launching hold the theorems, and Connect/Tests runs and examples. Building a connection takes as
-- much fuel as there are hosts and two more, which is enough: each round but the first and the last
-- visits a host of the store that was not visited.
--
-- Secrets/Routing and Store model apps/desktop/src/store/connection-secrets-store.ts and
-- lib/host-key-fingerprint.ts: the secrets in memory, and their way through the keychain, an interface with
-- laws (Secrets/Keychain), by which a failed store for a host may have written its password. Secrets/Found
-- says what the keychain holds for a host; Moving has lemmas, Loading and Relaunch the theorems, and
-- Secrets/Tests a keychain that fails that way, runs and examples.
--
-- Cascade/Stores models apps/desktop/src/store/cascade-actions.ts, the deletion of a host from all stores, Cascade/Gone
-- what it leaves, and Cascade/Tests a run.
--
-- Identities/Migration models apps/desktop/src/lib/identity-migration.ts and the keys and labels of types/identity.ts.
-- Identities/Rounds has lemmas on the migration's loop, Settled the theorem, and Identities/Tests runs and examples.
--
-- The clock and crypto.randomUUID are arguments: one operation sees one time, and the ids that it
-- draws are new where a theorem needs it. A finite double is an integer multiple of 2 ^ -1074. Where
-- an operation reads `xs[0]` of a list that may be empty into a field that is a string, the model
-- writes the empty text for undefined. Every other loop is a recursion on a list; printing a number takes
-- as much fuel as its value and one more, which is enough since a number has no more digits.
-- Date.parse, the collation of localeCompare, toLowerCase, Number.parseInt and SHA-256 are parameters, and of
-- the vault also the sorting of hosts and stableSerialize. A Map is a list of its entries in insertion order.
-- Not modelled: the storage and the JSON behind it, React components, the backend and the native shell.
pub mod Cascade
pub mod Common
pub mod Connect
pub mod Hosts
pub mod Identities
pub mod Secrets
pub mod Sessions
pub mod Vault
