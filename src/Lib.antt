-- ===== src/Lib.antt =====
-- OCTW (src/octw) runs a container for each tenant. This library models its control plane and proves
-- what holds of it.
--
-- The parts and how they interact. A client's request reaches a router (src/octw/api/routers), which
-- checks the client's role and calls the tenant service (src/octw/orchestrator/tenant_service.py) or
-- the vault (src/octw/vault). The tenant service keeps the rows of the tenants, their members and the
-- audit log in the database (src/octw/db), reads a tenant's secrets from the vault, and runs its
-- container through the orchestrator (src/octw/orchestrator/docker_orch.py), which is a client of the
-- Docker daemon. The hibernation scheduler (src/octw/orchestrator/hibernation.py) pauses and stops the
-- containers of tenants that are idle. The edge proxy (src/octw/edge/proxy.py) sends a request for
-- `/<slug>/…` on to the container of that tenant, which it wakes through the internal routes.
--
-- Which file models which part:
--   Prelude       lists of rows, dictionaries, texts and their lemmas
--   Exec          calls that change a state and may raise: the exceptions, `do`, `try`
--   Models        src/octw/models
--   Config        src/octw/common/config.py
--   Db            src/octw/db/tables.py; Rows are its classes, Statements the queries and updates that
--                 the services make, Constraints and Changes its keys and how they are kept,
--                 Invariants what a predicate has to satisfy to be kept by every statement
--   Vault         src/octw/vault; Envelope and Kek are envelope.py, Service is service.py
--   Uuid          `str` of a UUID; Parse is `uuid.UUID` of a text
--   Platform      the Docker SDK and the operating system, as an interface
--   Json          the values of Python's `json`
--   Orchestrator  docker_orch.py, method by method in Names, Dirs, Networks, Spec, Containers, Init and
--                 Configure
--   Clock         the date and the time of day that `datetime` computes, and the stamp of a backup
--   Backup        backup.py; Archives is what it asks of tarfile, Service the code
--   World         what a request works on: a session, the committed database, the machine
--   Tenants       tenant_service.py; Service and Members hold its methods, Rows what they write
--   Hibernation   hibernation.py; Scheduler is the pass and the loop, Loop the object with `stop`, and
--                 Policy what a pass is to decide
--   Api           src/octw/api: Guard is `_require_member` and the payload of a token, Auth the tokens
--                 and users of auth.py, a module for each of tenants_router.py, runtime_router.py,
--                 secrets_router.py, provision_router.py, internal_router.py and
--                 auth_router.py; Requests puts the handlers together that name a tenant,
--                 and Internals those of the internal routes; Deps is deps.py
--   Edge          src/octw/edge/proxy.py; Slugs holds its guards and the slugs of
--                 src/octw/models/tenant.py, Proxy the rest, over the internal routes of Api
--   Cli           src/octw/cli/main.py: Commands holds its commands, Runs puts them together
--   System        requests to the routes and to the proxy, commands, scheduler passes and time as
--                 steps in any order
--   Tests         concrete machines and databases
--
-- How the code is read. A method is a function of the same name; its session, and the machine, are the
-- state that it takes and gives back. A `str` is the list of its UTF-8 bytes, a UUID its 128-bit
-- integer, a `datetime` a number of seconds, and a column that holds the value of an enumeration its
-- member. Time stands still within a call. Every row that is added is flushed at once, as in the
-- source, so that a constraint that fails raises there; `updated_at` follows every update. The
-- `membership_id`, `secret_id` and `event_id` that are drawn for new rows are taken not to collide. A
-- request has a session of its own, which begins at what is committed, and requests do not overlap;
-- the requests that the proxy makes of the control plane follow one another within its own, and always
-- arrive. The digits and spaces outside ASCII that `uuid.UUID` reads are refused.
-- A number in an untyped body is true unless it is written with no digit but 0; one so small that it
-- is read as 0.0 is not told apart. A time before 1970 is 0. `tenant_base_dir` is a path without a slash at its end, and the logs of a container are taken as
-- decoded.
--
-- What is assumed. AES-GCM, `os.urandom` and `uuid.uuid4` are the parameter `Crypto`, with the one law
-- that decryption undoes encryption (`CryptoLaws`). PyJWT and `secrets.token_urlsafe` are the parameter
-- `Tokens`, with the one law that a token is read, before it expires, as it was written (`TokenLaws`).
-- httpx, with the containers that answer it, is the parameter `Client`, with the law that it takes
-- URLs of the control plane with at most 1000 small letters, digits, hyphens and slashes for a path
-- (`ClientLaws`). The Docker SDK and the operating system are the
-- parameter `Platform`; `DockerLaws` says how its calls change what `containers.get` answers,
-- `ApartLaws` that they leave what it answers for a container of another name, and
-- `IsCalm` that they raise nothing but `NotFound`. tarfile, `Path.rglob` and the process of pg_dump are
-- the parameter `Archives`; `ArchiveLaws` says which files an archive holds and what its extraction
-- writes. Tests has an instance of each.
--
-- The loops are over lists of rows, and the scheduler's is over the times at which it comes round. Only
-- `replace_all` has fuel, the length of the text, of which every round uses up a character. The date of
-- a day is found by counting from 1970-01-01.
--
-- Not modelled: the starting of the servers and the reading of
-- options and of the environment; the lengths and patterns that Pydantic checks in the requests of the
-- routes, and those of the columns; failures of the database's connection; logs, metrics and
-- migrations.
pub mod Prelude
pub mod Models
pub mod Exec
pub mod Db
pub mod Clock
pub mod Config
pub mod Vault
pub mod Uuid
pub mod Json
pub mod Platform
pub mod Orchestrator
pub mod World
pub mod Backup
pub mod Tenants
pub mod Hibernation
pub mod Api
pub mod Edge
pub mod Cli
pub mod System
pub mod Tests
