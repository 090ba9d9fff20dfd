-- ===== src/Lib.antt =====
-- A verification library for Nexvary Panel, a hosting control panel: an unprivileged Flask control
-- plane (panel/) that keeps its state in one SQLite database and asks privileged agents (agent/)
-- over Unix sockets for what needs root.
--
-- The parts, and how they stand to one another. A request passes `csrf_guard`, then the decorators
-- of its route, then the handler, which reads and writes tables and calls agents.
--
-- * Policy models panel/hosting_policy.py: package, feature and quota decisions over the three
--   package tables of panel/db_layer.py. Policy/Features has the feature catalogue of
--   panel/hosting_features.py and the default set. A function of the source keeps its name.
-- * Security models panel/security.py and the login view of panel/routes_auth.py. Security/Store
--   has the session and the tables; Totp, Credentials, StepUp, Guards, Csrf and Login follow the
--   functions of the source by name; Granted, Mutation, Forgery, Brake, Workers and Totp/Window
--   prove. The count of failed sign-ins is that of one worker process, as in the source, and Workers
--   has the attempts that reach several of them.
-- * Web has what the routes share: the body of a request, its session and clock, and `audit` of
--   panel/db_layer.py.
-- * Fleet models panel/routes_fleet.py. Fleet/Inbound is the machine endpoint that another panel
--   calls, Fleet/Nodes the selection, probes and plan of nodes, Fleet/Outbound the batch that
--   `fleet_apply` sends, Fleet/Admin the tokens and credentials; Once, Replay, Scope and Revoked
--   prove. Fleet/Once has the requests to the machine endpoint that overlap, as a step relation
--   whose steps are the statements that the database runs one at a time.
-- * Scheduler models agent/scheduler_agent.py (Calendar, Run) and panel/routes_schedules.py
--   (Routes) over one table; Timing, Effects, Outcomes and Validity prove.
-- * Lifecycle models panel/routes_server_lifecycle.py: previews, applies and cancels of server
--   maintenance; Reviewed, Marked, Answers and Final prove. An apply has two transactions and the
--   call of an agent between them; Reviewed and Answers are about one that nothing comes between,
--   and Final has the second transaction as a step of its own.
-- * DynamicDns models panel/routes_dynamic_dns.py: Rules, Records and Update; Token, Zone and
--   Managed prove.
-- * ApiTokens models panel/api_tokens.py and panel/routes_api_tokens.py: Store, Bearer and Routes;
--   Access proves.
-- * MailRules models agent/mail_sieve.py: Quote, Rules, Script and Sync. Lexer and Meaning describe
--   what a script is to an interpreter; Reading, Lines, Blocks, Sections, Scripts and Installed prove.
-- * Bandwidth models agent/bandwidth_accounting.py: Log reads lines, Account keeps the state of a
--   site. Watch has the server that writes and rotates the log, as a step relation; Scanned, Moves,
--   Exact and Counted prove.
-- * AutoSsl models agent/autossl_scheduler.py: Store, Preflight, Check and Pass. Ready, Permitted and
--   Agreement prove; the last sets its test of an account beside the one of Policy.
-- * Migration models agent/migration_adapters.py: Names and Archive read the entries of a backup,
--   Detect and Inspect find what it is, and Normalize is what an import of it writes. Paths, Inside
--   and Sizes prove.
-- * Vault models agent/secret_vault.py and agent/vault_agent.py: Store. Names, Listed and Refined prove.
--
-- How the code is read. The statements of one `with db()` block, and of a handler where no property
-- says otherwise, run with nothing between them. A table is the list of its rows; `SELECT` is
-- `find` or `select`, `UPDATE` is `update`, `INSERT` adds a row, and a UNIQUE column is a test
-- before it. A handler is a function from its inputs and the state to an answer (`Reply`) and the
-- new state; an exception that no handler catches is `raised`, or `none` in a function that gives
-- an `Option`. Where a property needs them, a handler also gives the calls of agents that it made.
-- The routes of Scheduler, Lifecycle, DynamicDns, ApiTokens and Fleet are modelled behind their
-- decorators, which Security has. A call of the operating system that may raise is a case of a data
-- type, and an argument says which of them do. The clock is an argument, in whole seconds where the
-- source has `int(time.time())`. Cryptography, the parsing of IP addresses, the rounding of floats,
-- the readers of archives and the agents are parameters.
--
-- Bounds. `lower`, `upper` and `parse_int` are exact on ASCII. The random tokens are arguments.
-- Every loop is over a list or over the characters of a text, but for the digits of a number, which
-- run on fuel: the number itself, which is more than it has digits.
--
-- Not modelled: the pages and scripts, the file system and process calls of the agents, the network
-- probe of a fleet node and the check of its address, and the panel's remaining routes.
pub mod Base
pub mod Policy
pub mod Security
pub mod Web
pub mod Fleet
pub mod Scheduler
pub mod Lifecycle
pub mod DynamicDns
pub mod ApiTokens
pub mod MailRules
pub mod Bandwidth
pub mod AutoSsl
pub mod Migration
pub mod Vault
