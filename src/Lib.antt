-- ===== src/Lib.antt =====
-- NextMe, a bot that carries chat messages to a coding agent and brings the answers back.
--
-- One module for each part, with the functions named as in the source:
--   Acl        access control: roles, the two tables, applications, the `/acl` commands and the
--              buttons of the cards on roles
--              (src/nextme/acl/, and the handlers in src/nextme/core/commands.py and
--              src/nextme/core/dispatcher.py)
--   Scheduler  scheduled tasks: the table, the engine that fires what is due, the replies of a
--              task, and the `/schedule` command (src/nextme/scheduler/)
--   Core       tasks and sessions, with the permissions that a session waits for, the
--              dispatcher, from its gate for users without a role to the queues (Core.Dispatch), the
--              commands of a chat (src/nextme/core/commands.py), and the worker that takes the
--              tasks out of the queue (src/nextme/protocol/types.py,
--              src/nextme/core/session.py, src/nextme/core/dispatcher.py,
--              src/nextme/core/worker.py)
--   Memory     the facts about a user (src/nextme/memory/)
--   Context    the kept context of a session and its compression (src/nextme/context/)
--   Progress   the card that shows what an agent does (src/nextme/feishu/progress_card.py)
--   Config     the configuration and the state that survives a restart
--              (src/nextme/config/schema.py, src/nextme/config/state_store.py)
--   Skills     the skill files and which of them a trigger finds (src/nextme/skills/)
--   Acp        the registry of the agents' runtimes and its janitor (src/nextme/acp/janitor.py);
--              Acp.Process and Acp.Execution: the runtime that talks to an agent's process, its waits,
--              its loop over the messages, and the requests for permission
--              (src/nextme/acp/runtime.py, src/nextme/acp/client.py, src/nextme/acp/protocol.py);
--              Acp.Direct: the runtime that starts a process for each prompt
--              (src/nextme/acp/direct_runtime.py)
--   Feishu     the messages that become tasks, the active threads, and the clicks on buttons
--              (src/nextme/feishu/handler.py)
--   Dedup      messages that arrive twice (src/nextme/feishu/dedup.py)
--   Common     what the code takes from Python: tests, lists, dictionaries, sorting, actions
--
-- How they meet: Feishu makes a task of a message that is no duplicate and dispatches it; the
-- dispatcher asks Acl for the role of its author, takes the project from Config and the session
-- from Core, and the session's worker takes a runtime from Acp, the agent's id from Config and the
-- user's facts from Memory. Scheduler dispatches tasks of its own.
--
-- How the code is written here. A method that may raise is an `Action` on the object's fields: what
-- was written before a raise stays written. A table of the database is the list of its rows, and an
-- SQL statement a function on the rows. A dictionary is the list of its entries in the order of
-- insertion. An awaited call that other coroutines may run during is one step, unless the module
-- says otherwise: Scheduler.Engine takes the whole dispatch as a function on the tables. Times,
-- random ids, and whether a write, a send or a stop succeeds are arguments. Loops over lists are
-- recursion on the list, and endless loops are lists of rounds, so that no fuel is needed.
--
-- Core.Worker takes what others do during a run, such as marking the active task as cancelled, as a
-- value that the run is given. Acp.Execution takes the rounds of its loop in the same way: what arrives by
-- each, whether the deadline is over, and what the user answers. Core.Worker.Permission takes the clicks that
-- arrive while the card of a request is sent.
--
-- Not modelled: `/task` and `/whoami`, which only read; the texts of cards, the chat SDK and the
-- start of the program, which are calls of libraries and of the operating system; and the regular
-- expressions that read `/schedule` and the memory tags of an answer.
pub mod Acl
pub mod Acp
pub mod Common
pub mod Config
pub mod Context
pub mod Core
pub mod Dedup
pub mod Feishu
pub mod Memory
pub mod Progress
pub mod Scheduler
pub mod Skills
