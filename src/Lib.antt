-- ===== src/Lib.antt =====
-- Verification of the core of the inventory dashboard, a Flask application over PostgreSQL.
--
-- The parts, the files that model them and the code they model:
-- * Cache (Cache.antt and below): app/utils/cache.py. `TtlCache` is `TTLCache`, with one function for each
--   method; `Caches` are the named caches of Cache/Busts, with the `cache_bust_*` functions. Readings of
--   the clock are arguments. Calls come one at a time, but for Cache/Flights, where the steps of the threads
--   in `get_or_set` come in any order; that the lock of a key is one object is Python's.
-- * Job queue (JobQueue.antt and below): app/services/job_queue_service.py and app/worker.py over the table
--   `job_queue`. Each transaction is a function on the table; JobQueue/History lets any number of workers
--   make them in any order. A payload or a result is of any type; handlers are a list of functions.
-- * Job tracker (Tracker.antt and below): app/services/job_tracker.py. The float percentage is an argument.
-- * Stock (Stock.antt and below): `sp_movement_record` of app/database/procedures.sql, the trigger of
--   app/database/triggers.sql, and app/services/movement_service.py: `record` in Stock/Record, the checks of
--   the lists in Stock/Query. `record` takes the products that its early check reads apart from the tables
--   at the time of the procedure, so that other transactions may come in between.
-- * Purchase orders (Orders.antt and below): `sp_po_create`, `sp_po_transition`, `sp_goods_receipt_create`
--   and `sp_po_soft_delete`, app/repositories/po_repo.py and `POService.receive` of
--   app/services/po_service.py. A receipt calls the movement procedure of Stock, as the code does.
-- * Login (Auth.antt and below): `authenticate` of app/services/auth_service.py with the counter of the
--   process and that of the table `rate_limit_state`. The check of a password is an argument.
--   Auth/Accounts models registration and password reset, which commits four times and may be interrupted
--   between; Python's string functions and patterns are
--   the fields of `Texts`.
-- * Idempotency keys (Idempotency.antt and below): app/utils/idempotency.py. The decorator is two steps,
--   before and after the view, so that other requests may come in between; the writes after the view may
--   fail.
-- * Roles (Roles.antt and below): app/security/roles.py.
-- * Hierarchy (Hierarchy.antt and below): app/services/user_service.py and `manager_chain` and
--   `set_reporting_manager` of app/repositories/user_repo.py. The walk has the 50 rounds of the code.
-- * Connections (Connection.antt and below): app/database/connection.py: `get_connection`,
--   `_alert_pool_exhausted`, `_RetryOnceCursor` and `get_cursor`, under a schedule of failures as for the ETL.
-- * ETL (Etl.antt and below): app/database/etl.py. Etl.antt has `_retry_operation` and the state table,
--   Etl/Codes the codes of warehouses, Etl/Facts `_build_movement_facts`, Etl/Dims the dates and the
--   dimensions, Etl/Dims/Inventory `_build_inventory_facts`, Etl/Session the connection and a stage with
--   its commit and rollback, Etl/Run `run_etl`. Failures are a schedule, one entry for each use of the
--   database, which is any list; a use that raises has changed nothing. The order that the database
--   gives to texts is an argument. Days are numbers, and money is in its smallest unit. No other transaction
--   writes while a run is under way, though the code does not keep requests from doing so.
-- * Settings (Settings.antt and below): app/services/settings_service.py and
--   app/repositories/settings_repo.py, over the cache of Cache, with a table that can be out of reach.
-- * System configuration (SystemConfig.antt and below): app/services/system_config_service.py,
--   app/repositories/system_config_repo.py and the pages of app/routes/admin/system_config_routes.py, past
--   their checks of login, role and rate. The order of `ORDER BY key` is an argument.
-- * Reports workflow (Reports.antt and below): app/services/report_service.py.
-- Base holds what they share: tests, lists, dictionaries, signed integers, Python's decimal
-- texts and its functions on texts, for ASCII.
--
-- Every function is structurally recursive, so there is no bound on the inputs. The one search with fuel is
-- that for a free warehouse code: as many rounds as there are codes, which its theorem shows to be enough. Integers are
-- unbounded: the columns are 32-bit, and PostgreSQL raises on overflow, which is modelled for the stock that
-- a movement leaves and nowhere else. Of the lengths of text columns and the foreign keys, those that a
-- movement or a receipt meets are modelled. Numbers that the tables' constraints keep at or above 0 are
-- natural numbers. Not modelled: the HTTP routes and
-- templates, the SQL of reports and lists, notifications, mail, backups and monitoring.
pub mod Base
pub mod Cache
pub mod JobQueue
pub mod Tracker
pub mod Stock
pub mod Orders
pub mod Auth
pub mod Idempotency
pub mod Roles
pub mod Reports
pub mod Connection
pub mod Etl
pub mod Hierarchy
pub mod Settings
pub mod SystemConfig
