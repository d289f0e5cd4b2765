-- ===== src/Command/Codes.antt =====
-- The enumeration `CommandCode` of sdk/binary.h: the integers that name the commands on the wire.
use iggy_cpp_client.Prelude.{ℕ}

pub data CommandCode : Type 0 where
  ping get_stats get_me get_client get_clients : CommandCode
  poll_messages send_messages get_consumer_offset store_consumer_offset : CommandCode
  get_stream get_streams create_stream delete_stream : CommandCode
  get_topic get_topics create_topic delete_topic : CommandCode
  create_partitions delete_partitions : CommandCode
  get_consumer_group get_consumer_groups create_consumer_group : CommandCode
  delete_consumer_group join_consumer_group leave_consumer_group : CommandCode

-- The numbers of the enumerators.
unfoldable pub command_code : CommandCode → ℕ
command_code ping = 1
command_code get_stats = 10
command_code get_me = 20
command_code get_client = 21
command_code get_clients = 22
command_code poll_messages = 100
command_code send_messages = 101
command_code get_consumer_offset = 120
command_code store_consumer_offset = 121
command_code get_stream = 200
command_code get_streams = 201
command_code create_stream = 202
command_code delete_stream = 203
command_code get_topic = 300
command_code get_topics = 301
command_code create_topic = 302
command_code delete_topic = 303
command_code create_partitions = 402
command_code delete_partitions = 403
command_code get_consumer_group = 600
command_code get_consumer_groups = 601
command_code create_consumer_group = 602
command_code delete_consumer_group = 603
command_code join_consumer_group = 604
command_code leave_consumer_group = 605
