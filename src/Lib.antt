-- ===== src/Lib.antt =====
-- The URL shortener: a link service with a REST interface, a public redirect endpoint, link stores
-- and click analytics. This library models its core, written in C++.
--
-- The parts, and how they interact. A request reaches the router (src/http/router.cpp), which runs
-- a handler. The redirect handlers (src/http/handlers/redirect_handlers.cpp) read the link of a slug
-- through the cache of the link repository (src/storage/link_repository.cpp), count the redirect,
-- and put a click event into the click repository and the event queue. The management commands
-- (src/app/link_command_service.cpp) validate their input with the helpers of src/core/utils.cpp and
-- change links through the interface `ILinkStore`, which src/app/legacy_adapters.cpp implements over
-- the same repository and cache. Beside them stand the newer storage interfaces with their
-- in-memory back ends (src/storage/inmemory, src/storage/memory), the service that resolves short
-- codes over them (src/core/link_service.cpp), and the analytics worker with its bounded queue
-- (src/analytics). Users, sessions, service clients and an audit log (src/security) decide who may
-- call the management interface. The command line (src/cli_parser.cpp, src/cli) configures the
-- server, or runs one management command over the same service and prints its result.
--
-- Prelude        Boolean tests, lists, byte strings, string-keyed maps, signed integers
-- Core           src/core/utils.cpp and include/url_shortener/core: Text (trim, clampString,
--                hexEncode), Slug (generateSlug, isValidSlug, isReservedSlug), Link (the types and
--                resolveLinkStatus) with Link/Time (RFC 3339 times, isExpired), Url
--                (normalizeTargetUrl, isPrivateHost, base domains), Validation (tags, metadata,
--                campaigns), Json (jsonEscape and the field readers) with Json/Tokens (value tokens
--                and string arrays)
-- Storage        LinkRepository (src/storage/link_repository.cpp, with the cache in front of it),
--                CacheStore, MetadataRepository and RateLimiter (src/storage/inmemory), ClickEvents
--                (src/storage/memory/in_memory_click_event_repository.cpp), Models (their records)
-- App            Types (commands, errors, ILinkStore), Service and Service/Commands
--                (src/app/link_command_service.cpp), StoreLaws (the contract of ILinkStore), Legacy
--                (src/app/legacy_adapters.cpp), LinkService (src/core/link_service.cpp),
--                Serialize (the JSON text of a link and of its preview,
--                src/app/link_command_service.cpp), LegacyStats (the statistics of a link and their
--                text)
-- Http           Types, Router (src/http/router.cpp), Redirect (redirect_handlers.cpp)
-- Analytics      Events, Sanitizer, LegacyQueue (click_event_queue.cpp), Queue
--                (bounded_click_event_queue.cpp), Worker (analytics_worker.cpp), Recording
--                (analytics_service.cpp, click_event_builder.cpp, client_id_hasher.cpp),
--                Retention (retention_cleanup_job.cpp, aggregate_query.cpp)
-- Security       ControlSet (control_set.cpp, access_guard.cpp), Effects (the tables of
--                src/storage/sql/migrations/005_auth_tables.sql and the machine around them), Users
--                (user_credentials_repository.cpp), Sessions (auth_session_repository.cpp), AuditLog,
--                Passwords (password_hasher.cpp), Broker (auth_broker_service.cpp), Management
--                (user_management_service.cpp, first_admin_bootstrap.cpp), Clients
--                (service_client.cpp, service_client_repository.cpp), History (every sequence of
--                calls), Guarantees (what holds across calls)
-- Cli            Options (what is taken from Boost.ProgramOptions), LinkArgs, Create and Update
--                (src/cli/link_command_args.cpp), HelpTexts and Verbs (the link part of
--                src/cli_parser.cpp), Server with Server/Environment (`CliParser::parse`), Dispatch
--                (src/cli/link_command_dispatch.cpp)
-- Tests          the theorems at concrete inputs
--
-- State and operations. An object's state is a record, and a method a function from the state to
-- its result and the new state. Methods that lock the object's mutex throughout are one step;
-- Analytics/Queue/Interleavings has every interleaving of such steps as a relation. The process-wide
-- repository and cache are one `Store`; `getLinkForRead` and `updateLinkAndInvalidateCache` lock
-- them one after the other and are modelled as run without another thread in between. A call with a `bool` result and an error behind a pointer
-- returns `Option` of the error. A virtual interface is a record of functions (`LinkStore`), or a
-- function that the definitions take (`InsertBatch` in Analytics/Worker). Clock readings and random
-- draws are arguments, one for each reading where a call makes several. The order that `std::sort`
-- gives to equal keys is open in the listing of links, which takes the sorting as a parameter.
--
-- Numbers and texts. A text is a list of bytes. Counters are `uint64_t` and wrap at 2^64. The
-- system clock in Core/Link/Time is a signed number of seconds; the clocks of the newer interfaces
-- count ticks of a nanosecond from the epoch, and the ends of rate windows and the cutoff of the
-- retention, which are computed from settings without a bound, wrap like the 64-bit numbers they are.
-- The expiry of cached values and other sums of times are not bounded.
--
-- Loops are structural recursion on texts, lists or a counter of attempts. The reader of JSON
-- arrays runs on fuel, one more than the bytes that are left, and each round takes a byte at least;
-- the worker's loop takes a number of rounds, and each round behind a stop takes an event from the
-- queue while there is one.
--
-- Code that is not in the repository is a parameter or read as documented: OpenSSL's HMAC is the
-- parameter `hash_client` of Http/Redirect and `hmac` of Analytics/Recording;
-- the key derivation, the hash of tokens, the random source and the clock of src/security are
-- parameters of its modules; `po::store` with `po::notify` is the parameter `run` of Cli, from a
-- description of the options and the arguments to the values, and `getenv` is a function. Of a C++
-- exception that leaves a function of src/cli only the text is kept. `std::get_time`
-- is modelled as version 12 of the GNU C++ library implements it; `std::regex`, `timegm`, `gmtime`,
-- `std::stoll`, `std::stoul` and `std::to_string` as the language's library documents them; a number has fewer digits than the fuel of `to_decimal`, which is one more
-- than the number.
--
-- Not modelled: the SQL, SQLite, PostgreSQL and Redis back ends of the links, which only issue
-- statements to a server; sockets, TLS and sessions; logging and metrics; the start of the process;
-- the REST handlers' JSON bodies and the table of their routes; the validation of the storage
-- configuration; statistics for times beyond the range of the system clock; the key-value store
-- behind src/uri_map_singleton.cpp; scripts and tools.
pub mod Prelude
pub mod Core
pub mod Storage
pub mod App
pub mod Http
pub mod Analytics
pub mod Security
pub mod Cli
pub mod Tests
