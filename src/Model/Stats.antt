-- ===== src/Model/Stats.antt =====
-- `Stats` of sdk/model.h (namespace system), with the types of sdk/types.h: a `percent_t` is a
-- `float`, kept as its 32-bit pattern, and the other numbers are unsigned.
use iggy_cpp_client.Prelude.{ℕ, []}
use iggy_cpp_client.Prelude.Bytes.{Bytes}

pub record Stats : Type 0 where
  pub process_id : ℕ
  pub cpu_usage : ℕ
  pub memory_usage : ℕ
  pub total_memory : ℕ
  pub available_memory : ℕ
  pub run_time : ℕ
  pub start_time : ℕ
  pub read_bytes : ℕ
  pub written_bytes : ℕ
  pub messages_size_bytes : ℕ
  pub streams_count : ℕ
  pub topics_count : ℕ
  pub partitions_count : ℕ
  pub segments_count : ℕ
  pub messages_count : ℕ
  pub clients_count : ℕ
  pub consumer_groups_count : ℕ
  pub hostname : Bytes
  pub os_name : Bytes
  pub os_version : Bytes
  pub kernel_version : Bytes

-- `Stats()`, which sets every number to zero and every string to the empty one.
unfoldable pub new_stats : Stats
new_stats = record {
  process_id = 0;
  cpu_usage = 0;
  memory_usage = 0;
  total_memory = 0;
  available_memory = 0;
  run_time = 0;
  start_time = 0;
  read_bytes = 0;
  written_bytes = 0;
  messages_size_bytes = 0;
  streams_count = 0;
  topics_count = 0;
  partitions_count = 0;
  segments_count = 0;
  messages_count = 0;
  clients_count = 0;
  consumer_groups_count = 0;
  hostname = [];
  os_name = [];
  os_version = [];
  kernel_version = [];
}
