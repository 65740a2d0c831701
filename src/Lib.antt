-- ===== src/Lib.antt =====
-- Pairly: a server for rooms in which people edit files together. This library models the Go code of
-- backend/ that keeps rooms, members and files, connects their members and runs their code, and proves
-- what it does.
--
-- The parts, and the files that model them.
--   Postgres: the tables and the functions of backend/internal/postgres. A row is a record
--     (Postgres/Schema), a table a list in the order of insertion, a statement a function of all
--     tables that returns an outcome and the tables after it (Outcome, Postgres/Statement). A uuid is
--     a number that `next_id` gives out, and NOW() is the field `now`. Postgres/Users is users.go,
--     Postgres/Rooms is rooms.go and memebers.go, Postgres/Files is files.go; the foreign keys, the
--     cascades, the lengths of columns and the check of 000008_add_file_tree.up.sql are in the
--     statements that they can fail.
--   Postgres/Files/Subtree: the recursive query of ToggleFolder, GetFileDescendantIDs and
--     PermanentDeleteFile, one round of the database for one unit of fuel. The fuel is the number
--     of rows, since a round of a query that ends finds a row that no round before it found; when it
--     runs out, the statement hangs.
--   Mongo: the collections of backend/internal/mongo (documents.go, snapshots.go, executions.go),
--     each a list in natural order.
--   World: the state behind the handlers (World/State): tables, collections, the events published to
--     Redis, the topic edit-events of Kafka and its dead letters, the goroutines that have not run
--     yet, and `faults`, which says of each call of a database or a broker in turn whether it fails.
--     World/Action is a handler: a function of the world that returns a value, returns early with a
--     response, or never ends. World/Message is what is sent, and World/Env what comes from
--     elsewhere.
--   Rooms: the handlers of backend/internal/rooms, one function for each (create_room is CreateRoom
--     of rooms_handler.go, add_member_handler is AddMember of members_handler.go, and so on), with
--     every early return in its place: RoomsHandler, MembersHandler, FilesHandler and StateHandler
--     (files_handler.go), HistoryHandler, Shared and Language (helpers_handler.go). Rooms/Routes is
--     RegisterRoutes of handler.go: a request behind RequireAuth and its handler. Rooms/System is the
--     server over time: requests in any order, registrations and Google logins, goroutines at any
--     time, and a clock.
--   Websocket: backend/internal/websocket. Registry is the map of a hub from keys to sets of
--     connections, HubState its other fields with what it added to the counters of the process; Hub,
--     RoomHub and NotifyHub are hub.go, room_hub.go and notify_hub.go (register, room_register,
--     notify_register, and so on). HubState/Abstract is the set that a hub promises, and
--     HubState/Plain what the three have in common, an interface that Refinement fills for each.
--     Delivery is a message of Redis on several servers. Handlers is handler.go, room_handler.go and
--     notify_handler.go: a request up to its loop, then its messages one at a time.
--   Executor: Container is backend/internal/executor/executor.go, Tree is builder.go and decoder.go
--     with the paths of Paths, Lock is the keys of Redis with their times, and Job is Execute,
--     runExecution and its goroutine in backend/cmd/executor/main.go. The fuel of the walk is one
--     more than the number of active files: a node of the tree lies below as many others at most.
--     Job/Exclusion is the executor over time.
--   Auth: Tokens is backend/internal/auth/jwt.go and Password.go and backend/internal/middleware,
--     Handler and Google are handler.go and oauth.go (register_user is Register); Keeps is the
--     interface by which a predicate on the tables is carried through them.
--   Server: Config is backend/internal/config/config.go; Connections is Connect of
--     backend/internal/postgres/postgres.go, mongo/mongo.go and redis/redis.go and Init of the logger
--     and of tracing, as calls of libraries that fail or not; Process is main of
--     backend/cmd/server/main.go from the configuration to the end after a signal.
--   The proofs: Postgres/Ownership and Postgres/Links are predicates on the tables with a lemma for
--     each statement; Rooms/Invariants is the interface by which such a predicate is carried through
--     every handler, and Rooms/Ownership and Rooms/Links fill it. Rooms/Access is the table of the
--     roles in README.md and its lemmas. Tests applies the theorems to a small room.
--   Prelude, Text: shared names, tests, list functions, and the functions of Go's packages strings
--     and path/filepath that the handlers call.
--
-- How they interact. A handler reads the caller's role from Postgres, acts on Postgres and MongoDB,
-- and publishes to Redis; SaveState and GetHistoryAtVersion also leave goroutines behind, which
-- write to Kafka and to MongoDB later. A handler runs as one step here: what two handlers do to each
-- other between their statements is not modelled.
--
-- A connection of a room hands run_file to the executor (handle_run_file calls execute), which takes
-- the key of the file, and whose goroutine publishes to the room and saves what GetLastExecution
-- reads. RequireAuth and ParseToken give every handler and connection its user.
--
-- Not from this repository, and so a parameter (World/Env): y-crdt, the e-mail test of the validator,
-- strings.ToLower, the collation of the database, and the format of times; bcrypt, JWT, randomness and
-- Google (Auth/Tokens); what Docker answers (Executor/Container); and the settings and connections
-- (Server/Connections). A failing call has no effect. The broker's partition 0 is a list; a fetch
-- fails or gives the next message.
--
-- Not modelled: health, gin's routes and middleware, the executor's main function, the pull of
-- images, logs, tracing and the other metrics, the removal of an execution's directory, and the
-- frontend. A delivery to the connections of a hub is one step, and so is a message of a
-- connection; a failed write, which closes a connection, ends its loop. The documents of a tree
-- are loaded one after another. An id in a path that is no uuid makes its first query fail, which
-- `faults` covers.
pub mod Prelude
pub mod Outcome
pub mod Text
pub mod Postgres
pub mod Mongo
pub mod World
pub mod Rooms
pub mod Websocket
pub mod Executor
pub mod Auth
pub mod Server
pub mod Tests
