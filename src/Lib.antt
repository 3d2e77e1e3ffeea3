-- ===== src/Lib.antt =====
-- Sardoba cashback app server, the FastAPI backend in app/: its services as functions on the database,
-- and the theorems that make them correct.
--
-- The program. Clients log in with a phone and a one-time code (OTPService, AuthService), staff with a
-- phone and a password. A client's cashback is a balance and a log of transactions that staff and the
-- loyalty provider iiko change (CashbackService, the webhook of app/routers/iiko_integration.py).
-- Changes of a client's profile go to iiko through a queue of jobs in the database that workers claim,
-- retry and finish (IikoSyncJobService); a worker takes the customer's data, wallet and cards from iiko
-- (AuthService.sync_user_from_iiko), which locks in Redis keep from overlapping (app/core/locking.py).
-- Managers write messages to all clients. Answers of some routes are cached (app/core/cache.py).
--
-- The files, each with its source.
--   Models, Settings, Failure: app/models/*.py, app/core/config.py, app/services/exceptions.py.
--   Service: the session of app/core/db.py. A service is a function from a session to a result and a
--     session; the session has what it has written (work) and what is committed (saved). `request` runs
--     one from a committed database and returns what it has committed, as closing the session does.
--     A raise keeps what was flushed before it. Service.Keeps is about code that commits nothing.
--   Prelude: lists of rows with the queries and updates on them (filter and first, order_by, limit,
--     assignment), Python's dict, signed integers; Text: Python's str; Json: JSON values.
--   SyncJobs: app/services/iiko_sync_job_service.py with app/models/iiko_sync_job.py. SyncJobs has the
--     row and `_enqueue`, Claims the claiming, Outcomes what workers report, System the operations as
--     calls and their histories; Valid, Exclusive, Lifecycle, Finality, Coalesce and Backoff have proofs.
--   Worker: app/workers/iiko_sync_worker.py, which claims and processes the jobs of that queue; its
--     History and Release are about what a round does to the queue.
--   Iiko: the API of iiko as the services call it, and code that runs in a session and calls it; Reading
--     and Payload are what the services read from its answers and send. Customer: what a customer of
--     iiko changes of a user, with the wallet in Wallets and the profile in Profile. CustomerSync: a whole
--     run, with its Report, the Creation of a customer and a card, and proofs in Safety and Refusals; the
--     three stand for app/services/auth_service.py. ProfileSync: app/services/iiko_profile_sync_service.py.
--   IikoClient: app/services/iiko_service.py; Wire has its requests with their retry, Api gives it to
--     CustomerSync as that API, Traffic and Token have proofs on its requests and its token.
--   Access: app/core/dependencies.py. Catalog: app/services/catalog_service.py, with its cached
--     Lists, the synchronisation in Menu, and what the lists are after a change in Fresh.
--   Menus: app/services/ikko_myresto_menu.py, with proofs in Marks, Listed and Stopped.
--   Cards: app/services/card_service.py. Waiters: app/services/staff_service.py. Broadcast:
--     app/services/notification_service.py. Locks: app/core/locking.py.
--   Deletion: app/services/user_service.py.
--   Inbox: the rest of app/services/user_notification_service.py, and notification_token_service.py.
--   Phone: app/core/phone.py. Otp: app/services/otp_service.py. Levels: the levels of app/models/user.py.
--   Cashback: app/services/cashback_service.py, with the constraints of app/models/cashback.py; its child
--     Notify is app/services/push_notification_service.py and user_notification_service.py. Ledger, Change,
--     Acceptance, Adjust and Once lead to what an adjustment commits, Payment is about paying with cashback.
--   Webhook: app/routers/iiko_integration.py. Cache: app/core/cache.py.
--   Tokens: app/core/security.py and the tokens of app/services/auth_service.py. Auth: the client's
--     side of that service with app/services/auth_log_service.py, and its children Atomic, Register and
--     Progress the proofs; Auth.StaffAccess: the staff's side.
--   Samples and the modules called Tests: small databases, runs, and the theorems at concrete inputs.
--
-- Conventions. Moments count microseconds and dates days; money counts hundredths, and DECIMAL(12, 2)
-- holds what is below ten to the power of twelve hundredths. The time, random texts, the answer of the
-- SMS provider, the text of an amount and the rows that other transactions have locked are arguments.
-- The libraries jwt and passlib are a record of functions, with their documented laws as a record of
-- hypotheses that Tokens.Tests.Plain instantiates; Redis and the network are records of functions too,
-- Redis with laws that Locks.Tests instantiates. A table is the list of its rows in the order of their ids
-- with the next id; among rows with equal keys a sort keeps that order. A row that a query has found
-- is updated by its id together with the filter that it passed. A comparison with NULL is false, and
-- `IS NULL` where the value is None. A session's `with_for_update` makes the handler one step.
-- The recursions are structural, so that nothing needs fuel; the ten tries for a referral code are the
-- list of the codes that the random generator yields, and a loop that draws until a card number is free
-- goes through the list of its draws. The turns of a waiting loop are the list of the clock's readings.
--
-- Not modelled: routers other than the webhook, request schemas and the parser, the HTTP client of the
-- SMS provider, websockets and push delivery, files, logging, migrations, start-up, statistics and
-- dashboard queries, which are glue or plain reads; the fetching of menus; translations; the lengths of
-- text columns, and the times of creation that only the database sets. The lock's fallback without Redis
-- is not modelled: each lock object has a lock of its own.
pub mod Access
pub mod Auth
pub mod Broadcast
pub mod Cache
pub mod Cards
pub mod Cashback
pub mod Catalog
pub mod Customer
pub mod CustomerSync
pub mod Deletion
pub mod Failure
pub mod Iiko
pub mod IikoClient
pub mod Inbox
pub mod Json
pub mod Levels
pub mod Locks
pub mod Menus
pub mod Models
pub mod Otp
pub mod Phone
pub mod Prelude
pub mod ProfileSync
pub mod Samples
pub mod Service
pub mod Settings
pub mod SyncJobs
pub mod Text
pub mod Tokens
pub mod Waiters
pub mod Webhook
pub mod Worker
