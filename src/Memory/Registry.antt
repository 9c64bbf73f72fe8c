-- ===== src/Memory/Registry.antt =====
-- The section "Server Registry" of memory.go.
use gfire.Prelude.{String, none, some, ◌==◌, if◌then◌else◌}
use gfire.Prelude.Int.{ℤ}
use gfire.Prelude.Dict.{insert, erase}
use gfire.Prelude.Result.{Result, ok, err, err_not_found}
use gfire.Job.{ServerInfo, Runtime, server_status_active}
use gfire.Memory.{Store}

-- Storage.RegisterServer; the time to live is not used.
unfoldable pub register_server : Runtime → ServerInfo → ℤ → Store → Store
register_server rt server ttl s = record s { servers = insert server.id registered s.servers }
  where
    registered : ServerInfo
    registered = record server {
      last_heartbeat = rt.clock 0;
      status = if server.status == "" then server_status_active else server.status;
    }

-- Storage.UnregisterServer
unfoldable pub unregister_server : String → Store → Store
unregister_server id s = record s { servers = erase id s.servers }

-- Storage.Heartbeat
unfoldable pub heartbeat : Runtime → String → ℤ → Store → Result Store
heartbeat rt id ttl s = elim (s.servers id) [
  | none ↦ err err_not_found
  | some sv ↦ ok (record s {
    servers =
        insert id (record sv { last_heartbeat = rt.clock 0; status = server_status_active })
          s.servers;
  })
]
