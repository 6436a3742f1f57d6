-- ===== src/Lib.antt =====
-- The Python services of the repository. The chat page of services/frontend sends requests to the
-- backend, which passes them on to services/llm, a pipeline that turns a request in words into Lua
-- code. A request passes through a graph of nodes: the context is read, a model extracts a spec, the
-- clarifier decides whether to ask the user about it, a model writes code, and the code is checked
-- and run, with up to two repairs. The gRPC servicer runs the graph on the state that the backend
-- sends, and sends back the state that comes out.
--
-- The files and the code that they are about:
--   Base, Text, Regex, Json: what the program uses of Python. `Regex` is a backtracking matcher for the
--     patterns of `re` that the program writes, `Json` the values of the `json` module with a
--     parser (`Json/Loads`), a printer (`Json/Dumps`) and `repr` (`Json/Show`). `Json/RoundTrip`
--     carries the laws of printing and reading back, which the proofs about stored texts use.
--   Spec: services/llm/spec_logic.py. `Spec/Terms` and `Spec/Paths` choose an input path among the
--     paths of the context, `Spec/Policy` holds the tests, `Spec/History` the clarification history,
--     `Spec/Question` the questions, `Spec/Evaluate` `evaluate_spec`, and `Spec/Decision`
--     `load_spec_json` and `build_clarifier_decision`. `Spec/Orders` runs the choice of a path in two
--     orders of the terms.
--   Context: services/llm/context_normalizer.py.
--   Prompts: services/llm/prompts.py, the texts line by line and the two functions.
--   Graph: services/llm/graph.py and services/llm/state.py. `Graph/Nodes` has one function for each
--     node, `Graph/Run` the edges and `graph.invoke`. The files below `Graph/Run` prove what a run does.
--   Service: services/llm/main.py with the messages of proto/api/llm/v1/llm.proto.
--     `Service/Protocol` is an abstract session, its stage and the answers given, with the steps that
--     the two calls may take, and the backend's rule of keeping the message that a call sends back.
--   Sandbox: services/lua-validator/main.py with the messages of its proto file. `Sandbox/Template`
--     is the Lua template line by line, `Sandbox/Frame` what `format` leaves of it,
--     `Sandbox/Clients` services/llm/validator_client.py and checker_client.py, and
--     `Sandbox/Pipeline` the graph with both clients and the validator behind one of them.
--   Frontend: services/frontend. `Frontend/Transport` is transport.py; `Frontend/Session`,
--     `Frontend/Reply` and `Frontend/Script` are app.py: the session state with the side bar and the
--     requests, what the page makes of a reply, and the script from its top to its end.
--   Scenarios: runs on concrete states, and what the theorems say of them.
--
-- Functions keep the names of the source without a leading underscore. A node is a function from
-- the state to `Result PipelineState`: the update that the Python node returns, merged into the
-- state, or the exception that it raises. A key that is missing reads as `none` or `null`, as
-- `dict.get` reads it. Logging is left out.
--
-- The models and the two Lua services are fields of `Env`. The code generator and the Lua services
-- are given the number of the attempt, so that they may answer the same text differently each time.
-- `set_order` is the order in which Python walks a set of texts, which the choice of an input path
-- depends on. LangGraph is `run`: it takes a recursion limit, as LangGraph does, and raises where
-- the limit is reached.
--
-- Bounds: `run` recurs on the recursion limit, and a limit of ten is enough for every state that
-- counts at least no attempts. The JSON parser recurs on fuel of twice the length of the text and two,
-- since two calls stand between two characters read, and the loops over the matches of a pattern on
-- the length and one, since each match takes a character or steps over one.
--
-- `Sandbox` has `subprocess.run` as a parameter: what a script, the added environment and a timeout
-- come to. `Frontend` has `requests.post` as a parameter. A run of its script is a function from the
-- session state to the next, to how the run ended and to the payloads that it posted; `visit` runs
-- the script again for as long as it asks for it, and three runs are enough where a prompt is sent.
--
-- Not modelled: the services/backend and services/lua-checker programs, which are Go, the Lua
-- interpreter and what the sandbox's Lua code does, the drawing of the page, and the functions
-- `serve`, which start a server. `CLARIFIER_AGENT_PROMPT`, which no program reads, is left out. Floats
-- are carried by the text of their literals, and the message of a decoding error is one of ours.
-- `json.loads` is that of Python 3.11, which raises a `ValueError` that is no `JSONDecodeError` on an
-- int of more than 4300 digits. Python's texts may hold lone surrogates, the native texts have none:
-- `loads` stops at an escape of one with `lone_surrogate`, and theorems on what is answered suppose
-- that it does not. The end of Python's stack on a JSON text nested very deep is left out. Lower case
-- covers the letters of ASCII, Latin-1 and Cyrillic.
mod Base
pub mod Text
pub mod Regex
pub mod Json
pub mod Spec
pub mod Prompts
pub mod Context
pub mod Graph
pub mod Service
pub mod Sandbox
pub mod Frontend
pub mod Scenarios
