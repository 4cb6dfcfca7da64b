-- ===== src/Lib.antt =====
-- opcua-edge: an OPC UA server that exposes a plant's Modbus values, keeps them in SQLite and
-- raises threshold events.
--
-- A template file is loaded into one model of assets, nodes and events (src/edge_config.c), whose
-- indices are then wired into pointers. The store (src/edge_store.c) persists the model and the
-- latest values, and the address space (src/edge_address_space.c) gives every asset and node to
-- the server, with callbacks that read and write the nodes' values. Each tick of the runtime
-- (src/edge_runtime.c) writes the values that clients have set to the PLC, polls the PLC into the
-- nodes (src/edge_modbus.c), evaluates the events (src/edge_events.c) and, every n-th time,
-- persists the latest values. The components share the model; all else between them is calls.
-- `main` (src/main.c) starts them one after the other, lets the server (src/edge_server.c) iterate
-- until a signal comes, and releases what it holds.
--
-- The files:
--   Types         include/edge_types.h, include/edge_limits.h
--   Config        src/edge_config.c: Fields (helpers and key handlers), Loader (the line loop),
--                 Validate and Resolve (the checks behind it, `edge_config_load`), Wire; Print
--                 writes templates out; the other children are about what these guarantee
--   Double, Value IEEE doubles as bit patterns, and include/edge_value.h over them
--   World         the calls of libmodbus, SQLite, open62541 and the clock
--   Clock         src/edge_time.c
--   Modbus        src/edge_modbus.c: Registers (codec), Link (connection), Poll (poll and write);
--                 History states the link by its calls alone, Polled a poll node by node
--   Store         src/edge_store.c: Key, Schema, Persist, Latest; Table states what the calls of
--                 SQLite leave in the table of the latest values
--   Events        src/edge_events.c
--   Runtime       src/edge_runtime.c
--   AddressSpace  src/edge_address_space.c; Sent states a load by the calls of a model
--   Server        src/edge_server.c
--   Startup       src/main.c: Settings (variables and arguments); Owed and Release (what it
--                 holds and releases), Success (when it exits with code 0)
--   Books         what the calls in the log acquire and release, component by component
--   Tests         the theorems at concrete inputs
-- A definition has its C function's name; a loop or a part of a long function is a definition of
-- its own below it. An array with its count is a list, a pointer into an array an index, an
-- out-parameter a second result, kept also where the call fails. Unsigned arithmetic has its
-- wrap-around written out.
--
-- The outside world is a log of the calls made so far, newest first, and an environment `Env` that
-- answers each call by any function of the log before it (a row read from SQLite, of the log up to
-- its step); what holds for every `Env` holds whatever the PLC, SQLite and the server reply. `strtod`, the rounding of doubles and "%.3f" are
-- parameters too, and so is what a conversion of an out-of-range double leaves, which C leaves
-- undefined.
--
-- Fuel: the line loop has one round more than the file has bytes, since each `fgets` takes at
-- least one; the walk up a chain of parents has the hops that the C code allows and three more. A
-- result `none` means that fuel ran out or that an array was read or written outside its bounds.
--
-- The server's loop has the fuel that `main` is given; it returns with more fuel than the number of
-- iterations after which a signal has come.
--
-- SQLite is taken to give back the bits of the double that it stored, which leaves out that it may
-- give back a -0.0 as +0.0.
--
-- Not modelled: output on stdout and stderr, tests of pointer arguments for null, the SQL texts, the
-- benchmarks, the Python simulator, packaging. A client's write is an event of the environment
-- between two calls of the server, since open62541 runs its callbacks one after the other.
pub mod Base
pub mod Types
pub mod Config
pub mod Double
pub mod World
pub mod Clock
pub mod Value
pub mod Modbus
pub mod Store
pub mod Events
pub mod Runtime
pub mod AddressSpace
pub mod Server
pub mod Startup
pub mod Books
pub mod Tests
