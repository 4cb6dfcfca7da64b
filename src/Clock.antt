-- ===== src/Clock.antt =====
-- src/edge_time.c. Other modules read the clock of libmodbus's part through `now_us`.
use opcua_edge.Base.{ℕ, ◌+◌, ◌*◌, ◌/◌, ◌%◌, ◌^◌, ◌∷◌}
use opcua_edge.World.{clock_gettime, Log, Env}

unfoldable pub edge_time_now_ms : Env → Log → ℕ × Log
edge_time_now_ms env log =
    let (sec, nsec) = env.clock log in ((sec * 1000 + nsec / 1000000) % 2 ^ 64, clock_gettime ∷ log)
