-- ===== src/Books.antt =====
-- What the process acquires and releases, told by the log: databases, servers, runs of a server and
-- Modbus contexts; and how often the server iterated. The children say what each component adds.
pub mod Kept
pub mod Link
pub mod Run
use opcua_edge.Base.{ℕ, ◌+◌, Bool, true, false, List, [], ◌∷◌, if◌then◌else◌}
use opcua_edge.World.{
  Call, sqlite_open, sqlite_close, ua_new_server, ua_delete_server, ua_run_startup, ua_run_iterate,
  ua_run_shutdown, modbus_new_tcp, modbus_free, Log, Env,
}

pub data Resource : Type 0 where
  database ua_server server_run modbus_context : Resource

-- An iteration is counted and never given back.
pub data Entry : Type 0 where
  held : Resource → Entry
  iteration : Entry

abbrev pub bit : Bool → ℕ
bit true = 1
bit false = 0

abbrev pub is_context : Entry → Bool
is_context (held modbus_context) = true
is_context _ = false

-- What one call acquires, by its reply, and what it releases. SQLite hands out a handle also where it
-- fails to open; that is not counted.
abbrev pub gains : Env → Call → Entry → Log → ℕ
gains env (sqlite_open path) (held database) log = bit (env.opens log)
gains env ua_new_server (held ua_server) log = bit (env.creates_server log)
gains env ua_run_startup (held server_run) log = bit (env.starts_server log)
gains env ua_run_iterate iteration log = 1
gains env (modbus_new_tcp host port) r log = if is_context r then bit (env.new_tcp log) else 0
gains env _ _ log = 0

abbrev pub losses : Call → Entry → ℕ
losses sqlite_close (held database) = 1
losses ua_delete_server (held ua_server) = 1
losses ua_run_shutdown (held server_run) = 1
losses modbus_free r = if is_context r then 1 else 0
losses _ _ = 0

-- All that was acquired and released.
abbrev pub books : Env → Entry → Log → ℕ × ℕ
books env r [] = (0, 0)
books env r (call ∷ log) =
    let (gained, lost) = books env r log in (gained + gains env call r log, lost + losses call r)
