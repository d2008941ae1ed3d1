-- ===== src/Lib.antt =====
-- Konnaxion Worlds: the engine that gives every World of a Universe its own, versioned data. The
-- code is the Django application under backend/konnaxion/worlds/. A World is served by one
-- release at a time, and a release is a pair of PostgreSQL schemas (domain data and EkoH data)
-- next to rows of the control plane. A request or a task resolves a World to a runtime, enters a
-- database scope that pins its transaction to the schemas of that release, and runs.
--
-- The files, and the code that they model:
--   Naming     backend/konnaxion/worlds/services/naming.py and validate_schema_name of
--              backend/konnaxion/worlds/db.py: the names of the schemas.
--   Models     backend/konnaxion/worlds/models.py: the rows of the control plane.
--   Access     backend/konnaxion/worlds/resolver.py: who may enter and manage Universes and
--              Worlds, and the resolution of a World to a WorldRuntime, with every refusal.
--   Scope      backend/konnaxion/worlds/runtime.py and backend/konnaxion/worlds/db.py: the
--              context variable with the active runtime, the search_path and world_db_scope
--              with its nesting rules and its transaction.
--   Plane      backend/konnaxion/worlds/services/schema.py and
--              backend/konnaxion/worlds/services/provisioning.py: the schemas by name,
--              canaries, ledgers of migrations, foreign keys, and validate_release_schemas.
--   Store      the tables together, with reads, locked reads and saves that check the
--              constraints of backend/konnaxion/worlds/models.py, and
--              backend/konnaxion/worlds/services/audit.py.
--   Releases   backend/konnaxion/worlds/services/builder.py: numbering, create_release_record
--              and promote_release, with promote_persona_bridges of
--              backend/konnaxion/worlds/services/personas.py.
--   Purge      backend/konnaxion/worlds/services/builder.py: purge_release, with
--              cleanup_orphan_bridge_users of backend/konnaxion/worlds/services/personas.py.
--   Universes  backend/konnaxion/worlds/services/universe_packs.py: the reading of a Universe
--              Pack, the registry of its Worlds, the relations and subscriptions between them,
--              the promotion of all their releases in one transaction, and the queueing of
--              missing builds.
--   Seeds      backend/konnaxion/worlds/services/seed_packs.py: the packs from which Worlds are
--              built, their checks, discovery and registration, and the lookup of a registered
--              pack.
--   Middleware backend/konnaxion/worlds/middleware.py, with assert_runtime_schema_ready of
--              backend/konnaxion/worlds/services/schema.py: the World that a path and a host
--              name, and the handling of a request around its view.
--   Namespaces backend/konnaxion/worlds/services/cache.py,
--              backend/konnaxion/worlds/services/search.py and
--              backend/konnaxion/worlds/services/media.py: cache keys, channel names, search
--              filters and media paths that carry the World and the release.
--   Tasks      backend/konnaxion/worlds/services/tasks.py: the scope of a background task,
--              which is pinned to the release that it names, and the messages of a periodic job
--              to the current releases.
--   Serving    what the control plane shows to the outside, the release that every World
--              serves, and what the services do to it.
--   Copy       backend/konnaxion/worlds/services/schema.py, _base_tables, _foreign_key_edges
--              and _copy_order: the order in which the tables of a schema are copied.
--   Jobs       backend/konnaxion/worlds/tasks.py and
--              backend/konnaxion/worlds/services/build_queue.py: one execution of a persisted
--              build job, with the advisory locks of jobs and slots, and what other sessions do
--              in between (Worker).
--   Build      backend/konnaxion/worlds/services/builder.py: build_world_release from a Seed
--              Pack, with the provisioning of the two schemas
--              (backend/konnaxion/worlds/services/provisioning.py), the import of scenarios,
--              and its except block.
--   Gc         backend/konnaxion/worlds/management/commands/worlds_gc.py: the selection of
--              releases, and the run of purges. The rows come in the order of the command's
--              query; the restriction to one Universe, sizes and output are left out.
--   Samples    a small installation that the tests run on.
--   Base       what these share: lists, tables as lists of rows, texts as lists of code points,
--              dicts, the pieces of regular expressions, and code that may raise within
--              transactions (Exec).
--
-- How state corresponds. A table is a list of rows, a nullable column an Option, a foreign key
-- the number of the row that it names. A service is a function from the store to a result and a
-- store. What was written before an exception stays written, except that a transaction (atomic)
-- takes it back. SELECT … FOR UPDATE is a plain read: a transaction runs as one step, which is
-- what the row lock of the World gives to the services that take it.
--
-- Parameters. What the host, Django and the standard library answer is an argument: lower() and
-- SHA-256 (TextLibrary), the app registry, the migration graph, the settings and a failure of the
-- audit of a promotion (Host), the host's accounts (Accounts), what a worker process has around
-- it (Worker), Django's migration executor and fixture loader, the host's importer, the progress
-- callback and how far failure bookkeeping gets (Engine), what the callback of
-- finalize_universe_pack raises, Celery's apply_async, the values of search filters and documents
-- with int() and str() of them, str.isalnum, the view behind the middleware, what
-- functools.lru_cache remembers, and what the file system, YAML and JSON give (Files,
-- UniverseFiles). The only facts assumed of them are named in the theorems that use them, such as
-- HexDigest: a SHA-256 digest begins with hexadecimal digits.
--
-- The loop of _copy_order has as much fuel as there are tables, since every round lists one more;
-- all other functions are total by structural recursion.
--
-- Not modelled: the synchronous application and the status of packs of Universes, the choice of
-- the latest version of a pack, snapshots and the storage report, the SQL and the migrations that
-- Django runs inside a schema, the HTTP views behind the middleware and their serializers, the
-- cache, search and storage backends of the host, and the command-line output.
pub mod Base
pub mod Samples
pub mod Naming
pub mod Models
pub mod Access
pub mod Scope
pub mod Plane
pub mod Store
pub mod Releases
pub mod Purge
pub mod Jobs
pub mod Build
pub mod Gc
pub mod Serving
pub mod Copy
pub mod Tasks
pub mod Namespaces
pub mod Middleware
pub mod Seeds
pub mod Universes
