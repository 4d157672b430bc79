-- ===== src/Lib.antt =====
-- A verification library of the replicated counter service under src/ft_system: a client sends numbered
-- increments to server replicas, each server answers from a state machine with one counter for each
-- client, a local fault detector (LFD) sends heartbeats to its server and reports changes of its health,
-- and the global fault detector (GFD) keeps the membership from these reports and from heartbeats of its
-- own to the LFDs. The parts exchange JSON objects, one on a line, which both sides validate.
--
-- Which file is about which part:
-- - Value, Text: the Python values that `json.loads` and `tomllib.load` make, and the operations on
--   texts that the program uses. Dicts keep the order of insertion. Floats are exact: finite ones are
--   m / 2 ^ k.
-- - Result, Exec, Access: exceptions, with one constructor for each `raise`; functions that may raise;
--   methods that change an object and may raise, where what was written before a raise stays written.
-- - Protocol and below: src/ft_system/common/protocol.py. Protocol has the message types and the checks
--   of single fields, Protocol/Validate `validate_message`, Protocol/Build the functions `build_*`;
--   Protocol/WellFormed says what a valid message is.
-- - Logger: src/ft_system/common/logging.py; a log is the list of calls that print a line, and
--   Logger/Rendering the texts of the lines.
-- - StateMachine: src/ft_system/server/state_machine.py.
-- - Server and below: `ClientListener` of src/ft_system/server/app.py. `process` is `_process`; its
--   lock makes a call of it one step. Server/Slots describes a client's view of a replica,
--   Server/Replicas sequences of requests, and Server/Connection models the loops `handle` of
--   `ClientListener` and of `HeartbeatListener`, over what the stream answers in each round.
--   Server/LifeCycle models `ServerApp`.
-- - Client and below: `ClientApp` of src/ft_system/client/app.py. `Answers` is what the network does.
--   Client/Commands models the loops that send requests, the one of src/ft_system/client/main.py included.
-- - Service and below: a client and its replica, with what may happen to a call.
-- - Active and below: `ActiveClientApp` of src/ft_system/client/active.py. Each function is a stretch from
--   one wait to the next, Active/Schedule interleaves them, and Active/Moves is the protocol they follow.
--   Active/Receiving is `_receive`, and Active/Counted joins the client with the replicas.
-- - Transport and below: src/ft_system/common/transport.py, `encode_message` and `decode_message` of
--   src/ft_system/common/protocol.py, `open_connection_with_timeout` of src/ft_system/common/retry.py.
-- - Reporter and below: src/ft_system/lfd/reporter.py, cut at its waits as well.
-- - Detection and below: a reporter, the GFD with the reporter's and any other connections, and the loop
--   that calls `set_health` of the reporter.
-- - Gfd and below: src/ft_system/gfd/app.py. `_handle` is cut at its waits: `Phase` says where it waits,
--   and `handle` runs from one wait to the next. Gfd/System interleaves any number of connections.
--   Gfd/Shutdown has `start` and the cancellation of the handlers; Gfd/Serving has `close`, and runs
--   both with the connections between, up to the return of `wait_closed`.
-- - Config and below: src/ft_system/common/config.py; what `open` and `tomllib.load` make of the file is
--   an argument.
-- - Backoff: `ExponentialBackoff` of src/ft_system/common/retry.py.
-- - Lfd and below: src/ft_system/lfd/app.py. A round of `run` is a function of what the network answers.
--   `in_units` of Entry/Detector turns two durations of the configuration into their common unit.
-- - Entry: how src/ft_system/client/main.py makes a client from the configuration. Entry/Replica,
--   Entry/Detector and Entry/Monitor: the same for src/ft_system/server/main.py,
--   src/ft_system/lfd/main.py and src/ft_system/gfd/main.py; Entry/Agreement is about the last two,
--   Entry/Running has the whole process of a server, Entry/Watching that of the GFD, and
--   Entry/Detecting that of a detector, up to the task of its reporter.
-- - Samples and below: concrete values to which the results are applied.
--
-- Numbers: request numbers, heartbeat numbers and counters are Python integers, without a bound. A
-- valid request number is positive and is written n + 1. The delays of the backoff are whole numbers of
-- a unit that divides both bounds. Loops are recursion on the data they run over; `show`, the decimal
-- notation, has fuel n + 1 for the number n, and each of its steps divides by ten.
--
-- Parameters: `max_exponent`, the rounded logarithm of Backoff and Lfd, which no result but
-- delay_closed_form restricts; `to_float` of Config, Python's conversion of an integer; `to_number` of
-- Entry/Detector, `float` of a text; `Json` of Transport, the library json and the encoding as UTF-8,
-- and `readline`, with their documented behaviour as named laws where a result needs it; `Display` of
-- Logger/Rendering, the texts of floats, lists, dicts and exceptions.
--
-- Not modelled: sockets, tasks and time limits of asyncio, whose outcomes are inputs of the models; the
-- parsers of the arguments but for the heartbeat period, and the signal handlers of the entry points;
-- scripts, which start processes and terminal windows, and tests.
pub mod Prelude
pub mod Text
pub mod Transport
pub mod Value
pub mod Reporter
pub mod Result
pub mod Protocol
pub mod Access
pub mod Detection
pub mod Entry
pub mod Exec
pub mod Logger
pub mod StateMachine
pub mod Server
pub mod Gfd
pub mod Client
pub mod Active
pub mod Service
pub mod Config
pub mod Backoff
pub mod Lfd
pub mod Samples
