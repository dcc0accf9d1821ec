-- ===== src/Lib.antt =====
-- The AI secure collaboration platform: the backend under backend/app, a web service with
-- workspaces, notes, chat rooms and sessions, and a worker that takes tasks from Redis queues.
--
-- The parts and how they interact:
-- Prelude: shared names, texts as lists of code points, native numbers, lists, dictionaries.
-- External: interfaces of what the code calls. Redis (External/Redis) is a state with one law
--   for each command over a view of the keys that are used; the database (External/Sql) is tables
--   with insert, update, delete and order; Json is the encoding of task payloads; Numerals and Floats are
--   Python's numbers in text; PgVector is the distance of vectors, the order by it, and the
--   search for the nearest rows, which is exact only where no approximate index is used.
--   External/Concrete has one implementation of each, on which the tests run.
-- Core/Exceptions and Core/Action: backend/app/core/exceptions.py, and methods that change a session
--   and may raise. A raise keeps what was written in the session, since the code does; only `commit`
--   makes it durable, `refresh` may raise after that, and `close` (`get_db` of backend/app/core/database.py) drops the rest.
-- Models: the entities of backend/app/models with their unique constraints, and in Models/Vectors the
--   column type `PGVector` of backend/app/models/note.py.
-- Repositories: backend/app/repositories/base.py and the queries of users and workspaces.
-- Services/Workspaces, Services/Notes, Services/Chat, Services/Auth, Services/Users and
--   Services/Notifications: the services of backend/app/services, with the queries of notes and chat
--   from backend/app/repositories. Services/Auth also has backend/app/core/security.py and
--   backend/app/api/deps.py. The functions have the names of the methods.
-- Services/Ai: the embeddings and the completions of backend/app/services/ai.py.
-- Services/Endpoints: the handlers of backend/app/api/v1/endpoints/jobs.py, the transcript of
--   backend/app/api/v1/endpoints/ai.py, and the handshake of backend/app/websocket/endpoints.py;
--   Services/Endpoints/Search and Services/Endpoints/Summary have the semantic search, the retrieval and
--   the summaries of endpoints/ai.py, and Services/Endpoints/Health the check of endpoints/health.py.
-- Worker/Queue: backend/app/workers/task_queue.py and the loop of backend/app/workers/scheduler.py;
--   a poll is one round of the loop, and `promote` one transaction of it.
-- Worker/Tasks: `_process_task` of backend/app/workers/worker.py, its retries and its dead letters.
-- Worker/Chunks and Worker/Embeddings: `chunk_text` and `generate_note_embeddings` of
--   backend/app/workers/worker.py.
-- Websocket/Manager: `ConnectionManager` of backend/app/websocket/manager.py.
-- Websocket/Listener: what one message does in `_listen_loop` of the same file.
-- Websocket/Endpoint: the rest of `websocket_endpoint` of backend/app/websocket/endpoints.py: presence,
--   the receive loop on a list of inputs, which are texts of the client and steps of other tasks, and the
--   cleanup. A node holds its manager and what it published.
-- Schemas: the request bodies of backend/app/schemas and the rules of their fields.
-- Api: the session of a request (backend/app/core/database.py); Api/Routers: the routers of
--   backend/app/api/v1/endpoints, one request for each endpoint of the workspaces, notes,
--   chat, users and auth routers, and `serve` for all of these. The handlers of the jobs, ai and health routers
--   have no request there: they stand in Services/Endpoints. The
--   dependency on the current user comes before the rules of the body.
--
-- Bounds and fuel: the loop of `chunk_text` runs on fuel of one step for each position of the text;
-- where the overlap is at most half of the chunk size (100 and 500 in the code), that is enough.
-- Integers are Python's, without a bound. All other loops follow a list; the receive loop follows the list of what happens while the socket is open.
--
-- Time is a number that is passed in, in seconds; random identifiers and salts are passed in too.
--
-- Not modelled: the lifetimes of keys in Redis, failures of Redis, the start and the stop of background
-- tasks, the remote model and the mock of completions (parameters; the mock rests on regular
-- expressions), the limits of the query parameters of endpoints/ai.py, the response schemas, the sizes of the
-- queues in endpoints/jobs.py, foreign keys, the rows of the association of notes with tags but for its key (so
-- the order of a note's tags means nothing), rooms with a negative number, vectors in single precision, logging,
--  configuration and start-up, migrations and scripts.
pub mod Prelude
pub mod External
pub mod Core
pub mod Models
pub mod Repositories
pub mod Services
pub mod Worker
pub mod Websocket
pub mod Schemas
pub mod Api
