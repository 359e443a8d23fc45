-- ===== src/Lib.antt =====
-- memmy is a memory server for language models: a text is cut into chunks of a few sentences, each
-- chunk is a node of a tenant's graph in Neo4j, and weighted edges join the nodes. Weights decay with
-- time and grow with use. This library models the core of it; paths are from the repository's root.
--
-- Chunker: internal/chunker/chunker.go. A string is the list of its runes. Chunker/Text has the
--   functions of package `strings` that the code uses, Chunker/Split `SplitSentences` (`split_loop`
--   is its loop, `flush` and `coalesce` the closure and the inner loop), Chunker/Window `Chunkify`
--   (`chunk_loop` is its loop; `none` is the panic that follows an overflow of `int`). Split/Content
--   and Window/Cover, Window/Whole are about them.
-- Float: `float64` and package `math`, a parameter: the operations, with the strict order of `<` as
--   the one hypothesis (`IsOrdered`).
-- Types: internal/types/types.go. Entities as records, a time as nanoseconds since Go's zero time.
--   Types/Instant is the subtraction of times; Types/Canonical is `CanonicalTenant`, on the list of
--   the entries in the order in which a run visits the map.
-- Config: internal/config/config.go. Config has the sections of the file and `Default`, Config/Env
--   `expandEnv` on runes, Config/Validate both `Validate`, Config/Build what a file is turned into:
--   `serviceConfigFromYAML` of cmd/memmy/main.go and `NewTenantSchemaFromConfig`.
-- Storage: internal/storage/neo4j. Storage/Rows and Storage/Messages have the rows with the property
--   encoders of graph.go and codec.go; `encoding/json` is a parameter. Storage/Database is the Neo4j
--   server, a parameter: an operation for each Cypher statement, with its documented meaning on a
--   property graph (Storage/Statement) as the hypothesis `IsCypher`. Storage/Session is db.go: a
--   transaction that fails is rolled back, and the parameter `commits` says for each transaction
--   whether the driver commits it. Storage/Open is `Open` and `Close` of db.go with the drivers that
--   are open; the Neo4j driver is a parameter. Storage/Migrate is migrate.go: Scripts the files, their
--   names and statements, Apply the versions and `Migrate`, its children the databases that runs of it
--   lead to. Storage/Graph has the operations of graph.go: Node, Edge, Message
--   (with the tenants) and Neighbor; `put_node_tx` and its like are the closures that run in a
--   transaction. Storage/Scanners is scanners.go, Storage/Vector vectorindex.go. Storage/Counters
--   states what counters.go keeps track of, and its children prove it, Operations for every operation.
-- Service: internal/service. Service/Tenant is `Validate` of tenant_schema.go, Service/Config and
--   Service/Weight are decay.go (`explicit_bump`, `reinforce_edge` and their like are the closures
--   handed to `UpdateNode` and `UpdateEdge`), Service/Association the actions of decay.go that run
--   them in the store. Service/Request is service.go: the ports, `requireValidTenant`,
--   `resolveTenant`, `newID`. Service/Explicit and Service/Mark are reinforce.go, Service/Forget,
--   Service/Stats and Service/Write the files of these names, Service/Recall is recall.go: Seeds the
--   phases up to co-retrieval, Expand the search over the edges, Results the rest, Pipeline `Recall`.
--   The clock is a parameter that gives the time of each reading; `tenant_hash` is SHA-256; the
--   embedder, `ulid.New`, `sort.Slice` and the order in which a map is visited are parameters too.
--   A panic is an error of the model. Service/New is `New` of service.go.
-- Eval: internal/eval. Eval/Metrics is `recallAt`, `mrr` and `ndcg` of metrics/metrics.go,
--   Eval/Metrics/Row its `Compute`, which reads the records of harness and inspect, and
--   Eval/Metrics/Aggregate its `Aggregate`.
--   Eval/EmbedCache is embedcache/cache.go; a `float32` is a parameter with its 32 bits, the SQLite
--   table one with what it returns after an insertion, and so is the hash.
-- Facade: memmy.go. `open_service` is `Open`, `migrate_schema` is `Migrate`, on the drivers of the
--   process and the database.
-- Transport: internal/transport/mcp/mcp.go. The handlers of the tools on the service, with the texts
--   of `time.Parse` and `json.Marshal` as parameters; Transport/Wire has their arguments
--   and outputs, Transport/Call is a call of one of them.
-- Embed: internal/embed/fake/fake.go, with SHA-256 as a parameter.
-- Tests: runs on concrete inputs, and each theorem at an instance.
-- Prelude: Boolean tests, lists, integers and association lists over the native numbers.
--
-- Fuel: `split_loop` reads a rune in each round and gets one unit more than there are runes;
-- `chunk_loop` moves by a stride of at least one and gets one unit more than there are sentences.
-- `expandEnv` reads a rune in each round and gets one unit more than there are runes. The search of
-- `Recall` takes its fuel as an argument: a round takes one node of the queue, a node that is added is
-- one step further, and no node is added beyond the hops, so there is always enough. The loop of the
-- fake embedder fills a component at least in each round and gets as much fuel as there are
-- components.
-- `int` has 64 bits, and so have the access counters, which wrap around.
--
-- Not modelled: `Load` and the YAML decoder, the JSON rendering of the tenant schema, `GetVector`,
-- the registration of the MCP tools, the Gemini client, the commands and the rest of the evaluation
-- tools: they are flags, files and protocols. Sums of weights in the counters are modelled, but as
-- floating point they satisfy no exact law. Errors of a single statement, which roll back like the
-- others, are part of `commits`.
pub mod Prelude
pub mod Chunker
pub mod Float
pub mod Types
pub mod Config
pub mod Storage
pub mod Service
pub mod Eval
pub mod Embed
pub mod Facade
pub mod Transport
pub mod Tests
