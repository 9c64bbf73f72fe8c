-- ===== src/Redis/Servers.antt =====
-- internal/storage/redis/misc.go: the registry of servers and the counters. The times to live are not
-- used.
use gfire.Prelude.{ℕ, String, Option, none, some, List, [], ◌∷◌, ◌==◌, eqb, if◌then◌else◌, is_empty}
use gfire.Prelude.Int.{ℤ}
use gfire.Prelude.Result.{Result, ok, err, err_not_found, err_malformed}
use gfire.Job.{ServerInfo, Runtime, server_status_active}
use gfire.Redis.{Redis, Command, World, ask, send, done}
use gfire.Redis.Keys.{servers_key, server_hb_key, counter_key}
use gfire.Redis.Codec.{Codec}
use gfire.Redis.States.{unix}

module _ (r : Redis) (c : Codec) where
  open r use {Db, view, hvals}

  abbrev pub server_commands : String → ServerInfo → ℕ → List Command
  server_commands id sv now =
      Command.hset servers_key ((id, c.marshal_server sv) ∷ [])
      ∷ Command.zadd server_hb_key (unix now) id
      ∷ []

  abbrev pub registered : Runtime → ServerInfo → ServerInfo
  registered rt sv = record sv {
    started_at = if eqb sv.started_at 0 then rt.clock 0 else sv.started_at;
    last_heartbeat = rt.clock 0;
    status = if sv.status == "" then server_status_active else sv.status;
    queues = if is_empty sv.queues then "default" ∷ [] else sv.queues;
  }

  -- Storage.RegisterServer; an empty list of queues stands for a nil one.
  unfoldable pub register_server : World Db → Runtime → ServerInfo → Db → Result (Unit {0}) × Db
  register_server w rt sv d =
      send r w 0 (server_commands sv.id (registered rt sv) (rt.clock 0)) d (done r)

  -- Storage.UnregisterServer
  unfoldable pub unregister_server : World Db → String → Db → Result (Unit {0}) × Db
  unregister_server w id d =
      send r w 0 (Command.hdel servers_key id ∷ Command.zrem server_hb_key id ∷ []) d (done r)

  abbrev pub alive : ℕ → ServerInfo → ServerInfo
  alive now sv = record sv { last_heartbeat = now; status = server_status_active }

  -- Storage.Heartbeat
  unfoldable pub heartbeat : World Db → Runtime → String → Db → Result (Unit {0}) × Db
  heartbeat w rt id d = ask r w 0 d (λ d1. elim ((view d1).hashes servers_key id) [
    | none ↦ (err err_not_found, d1)
    | some raw ↦ elim (c.unmarshal_server raw) [
      | none ↦ (err err_malformed, d1)
      | some sv ↦ send r w 1 (server_commands id (alive (rt.clock 0) sv) (rt.clock 0)) d1 (done r)
    ]
  ])

  abbrev decode_servers : List String → Option (List ServerInfo)
  decode_servers [] = some []
  decode_servers (raw ∷ raws) = elim (c.unmarshal_server raw) [
    | none ↦ none
    | some sv ↦ elim (decode_servers raws) [ none ↦ none | some svs ↦ some (sv ∷ svs) ]
  ]

  -- Storage.GetServers
  unfoldable pub get_servers : World Db → Db → Result (List ServerInfo) × Db
  get_servers w d = ask r w 0 d (λ d1. elim (decode_servers (hvals servers_key d1)) [
    | none ↦ (err err_malformed, d1)
    | some svs ↦ (ok svs, d1)
  ])

  -- Storage.IncrementCounter, through bumpCounter
  unfoldable pub increment_counter : World Db → String → ℤ → Db → Result (Unit {0}) × Db
  increment_counter w key delta d =
      send r w 0 (Command.incrby (counter_key key) delta ∷ []) d (done r)

  -- Storage.GetCounter
  unfoldable pub get_counter : World Db → String → Db → Result ℤ × Db
  get_counter w key d = ask r w 0 d (λ d1. (ok ((view d1).numbers (counter_key key)), d1))
