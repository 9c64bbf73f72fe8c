-- ===== src/Redis/Keys.antt =====
-- internal/storage/redis/keys.go: the names under which the store keeps its data.
use gfire.Prelude.{String}
use gfire.Prelude.Text.{◌<>◌}

abbrev pub key_prefix : String
key_prefix = "gfire:"

abbrev pub job_key : String → String
job_key id = "gfire:job:" <> id

abbrev pub job_states_key : String → String
job_states_key id = "gfire:job:" <> (id <> ":states")

abbrev pub queue_key : String → String
queue_key name = "gfire:queue:" <> name

abbrev pub state_index_key : String → String
state_index_key state = "gfire:state:" <> state

abbrev pub processing_key : String
processing_key = "gfire:processing"

abbrev pub scheduled_key : String
scheduled_key = "gfire:scheduled"

abbrev pub recurring_key : String
recurring_key = "gfire:recurring"

abbrev pub servers_key : String
servers_key = "gfire:servers"

abbrev pub server_hb_key : String
server_hb_key = "gfire:server:heartbeats"

abbrev pub queues_index_key : String
queues_index_key = "gfire:queues"

abbrev pub counter_key : String → String
counter_key name = "gfire:counter:" <> name

abbrev pub lock_key : String → String
lock_key resource = "gfire:lock:" <> resource

abbrev pub idempotency_key_of : String → String
idempotency_key_of key = "gfire:idempotency:" <> key

abbrev pub continuations_key : String → String
continuations_key parent = "gfire:continuations:" <> parent

abbrev pub continuation_entry_key : String → String → String
continuation_entry_key parent entry = "gfire:continuation:" <> (parent <> (":" <> entry))
