-- ===== src/Lib.antt =====
-- nsi-aggregator-proxy: a REST proxy in front of an NSI aggregator.
--
-- A caller reserves, provisions, releases and terminates connections over REST; the proxy sends
-- SOAP requests to the aggregator, whose answers come later as SOAP callbacks, and reports each
-- final result to the caller's callback URL. Between the two stands an in-memory store of
-- reservations and of pending futures. The status of a reservation is derived from the
-- aggregator's sub-states and its history on every read.
--
-- The parts, and the files that model them:
--   Common/     Boolean tests, text, Python's dict and set, lists measured by native numbers.
--   Models      aggregator_proxy/models.py: the API's records and enumerations.
--               Models/Formats has the validators: the expressions for STPs and UUID URNs as functions.
--   Soap/       aggregator_proxy/nsi_soap. Messages: the typed messages of parser.py and the header of
--               builder.py. Etree: what parser.py asks of lxml, as an interface. Parser: parse,
--               parse_correlation_id and the parsers of the queries' answers, with Parser/Exceptions
--               and Parser/Queries for the parts; Parser/Kinds, Parser/Answers and Parser/Depth hold
--               the theorems. Tree: the element trees that builder.py writes. Builder: its functions;
--               Builder/Addressing, Builder/Route and Builder/RoundTrip hold the theorems.
--   Mapping     aggregator_proxy/state_mapping.py: map_nsi_states_to_status, derive_status.
--               Mapping/Priority, Mapping/Activating and Mapping/Deriving hold the theorems.
--   Store       aggregator_proxy/reservation_store.py: one function for each method of
--               ReservationStore, by the method's name. Store/Futures and Store/Delivery hold the
--               theorems on futures, Store/Refinement and Store/Naming those on reservations. Store/Steps: what other
--               tasks do to the store, as a step relation.
--   Runtime     What the router runs on: the world (the store, the ids drawn, the trace of events),
--               exceptions, awaits, requests and callbacks. Runtime/Laws: actions that return.
--               Runtime/Views: actions that leave a view of the world alone.
--   Reservations  aggregator_proxy/routers/reservations.py, by the names of its functions without the
--               leading underscore: Errors (the error texts), Refresh (_update_store_from_query),
--               Queries (the queries and _send_callback), Tasks (_complete_reserve,
--               _complete_provision, _complete_release, _complete_terminate and
--               _await_dataplane_change), Endpoints (the handlers). Their child modules hold the
--               theorems: Errors/Laws, Refresh/Laws, Queries/Callbacks, Queries/Statuses,
--               Queries/Reading, Queries/Stored, Queries/Population, Queries/Failing,
--               Tasks/Waiting, Tasks/Outcomes, Tasks/Endings, Tasks/Reserving, Endpoints/Requests,
--               Endpoints/Guards, Endpoints/Operations, Endpoints/Termination, Endpoints/Creation,
--               Endpoints/Lifecycle, Endpoints/Acceptance, Endpoints/Reading, Endpoints/Listing,
--               Endpoints/Reported, Endpoints/Single.
--   NsiCallback  aggregator_proxy/routers/nsi_callback.py: the handler of SOAP callbacks.
--               NsiCallback/Dispatch, NsiCallback/Answers and NsiCallback/Confirmed hold the
--               theorems.
--   DdsProxy    aggregator_proxy/dds_proxy.py: fetch_network_service_agents and peered_upas. DdsProxy/Peers
--               holds the theorem.
--   Providers   aggregator_proxy/routers/providers.py and get_upa_client of dependencies.py.
--               Providers/Reach holds the theorems.
--   Config      aggregator_proxy/settings.py: the validators of Settings. Config/Validated holds the
--               theorem.
--   Auth        aggregator_proxy/auth.py, by the names of its functions. Auth/Admission, Auth/Groups and
--               Auth/Callback hold the theorems; Auth/Callback also has the guarded callback endpoint
--               of aggregator_proxy/main.py.
--   Mcp         aggregator_proxy/mcp_server.py: _serialize_groups and _forward_user_identity.
--               Mcp/Tools: _build_auth and build_mcp, and what is documented of fastmcp.
--               Mcp/Choice decides that; Mcp/Identity and Mcp/ReadOnly hold the theorems.
--   NsiClient   aggregator_proxy/nsi_client.py: the two clients and soap_headers.
--               NsiClient/Identities holds the theorem.
--   Logging     aggregator_proxy/logging_config.py: configure_logging, and what Python's logging does with
--               a record. Logging/Configured holds the theorem.
--   App         aggregator_proxy/main.py: create_app and the start of lifespan. App/Access and
--               App/Startup hold the theorems. The endpoints behind the routes are an argument there.
--   Samples     A concrete world for the examples in Mapping/Tests, Reservations/Tests and
--               NsiCallback/Tests; the other Tests have their own.
--
-- How they interact: an endpoint refreshes the reservation (Queries, Mapping, Refresh), dispatches
-- on its status, registers a future in the store, sends the request and starts a task; the task
-- waits for the future, which the aggregator's callback resolves, and delivers the result
-- (Queries).
--
-- State and concurrency. A coroutine is a function from a world to a result and a world. Python's
-- objects are shared: a future is an address in a list, which the dicts of the store and a waiting
-- task both name, and a stored reservation is written under its id. At every await the other tasks
-- of the event loop run: they are the parameter `Env.others`, an arbitrary change of the store. A
-- theorem that needs something of them says so (`IsFair`); Reservations/Tasks/Waiting shows that
-- any interleaving of calls of the store's methods is fair, if it cancels no future of the
-- coroutine. asyncio.gather runs its coroutines one after the other, up to the first that raises:
-- the rest are among the other tasks then. The answers of the aggregator and of the callers, the
-- clock, uuid4, repr, datetime's ISO 8601 functions and the parsers of SOAP texts are parameters
-- too; Soap.Parser.soap is the value of the latter that parser.py has.
--
-- XML. lxml is not in the repository: the parser is written over `Etree`, the calls of lxml that
-- it makes, and the builder gives a `Tree`, which lxml serialises. What the round trip needs of
-- lxml is the record `IsRead`: an element that was written as a tree and read again has that
-- tree's tag, children and texts. Soap/Tree/Sample has an instance, whose elements are the trees
-- themselves.
--
-- Bounds and fuel. The wait for the data plane counts its remaining time in microseconds and runs
-- on fuel of one more than that; each wait takes some time off, so the fuel is enough. Every other
-- loop is structural, but that of _parse_service_exception, which runs to the height of its
-- element, which is enough if child elements are nested less deep. Numbers are natural; Python's
-- integers have no bound, and the numbers of this program are not negative.
--
-- Not modelled: lxml, pydantic (with its URL type), fastmcp, starlette's choice of a route, the
-- rendering of log records by structlog, the entry point run, the Helm chart. _criteria_differs
-- only decides a log line.
mod Common
pub mod Models
pub mod NsiClient
pub mod Soap
pub mod Logging
pub mod Mapping
pub mod Store
pub mod Runtime
pub mod Reservations
pub mod NsiCallback
pub mod DdsProxy
pub mod Providers
pub mod Config
pub mod App
pub mod Auth
pub mod Mcp
pub mod Samples
