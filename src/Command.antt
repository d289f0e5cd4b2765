-- ===== src/Command.antt =====
-- The commands of sdk/command.h. Each class is the record of its private fields: its constructor
-- copies the arguments into them, and each getter returns one.
use iggy_cpp_client.Prelude.{ℕ, Bool, Option}
use iggy_cpp_client.Prelude.Bytes.{Bytes}
use iggy_cpp_client.Model.Metadata.{Identifier}
use iggy_cpp_client.Model.Consumer.{Consumer}
pub mod Codes

pub record GetStream : Type 0 where
  pub stream_id : Identifier

pub record CreateStream : Type 0 where
  pub stream_id : Identifier
  pub name : Bytes

pub record DeleteStream : Type 0 where
  pub stream_id : Identifier

pub record GetTopic : Type 0 where
  pub stream_id : Identifier
  pub topic_id : Identifier

pub record GetTopics : Type 0 where
  pub stream_id : Identifier

pub record CreateTopic : Type 0 where
  pub stream_id : Identifier
  pub topic_id : ℕ
  pub partitions_count : ℕ
  pub message_expiry : Option ℕ
  pub name : Bytes

pub record CreatePartitions : Type 0 where
  pub stream_id : Identifier
  pub topic_id : Identifier
  pub partitions_count : ℕ

pub record DeletePartitions : Type 0 where
  pub stream_id : Identifier
  pub topic_id : Identifier
  pub partitions_count : ℕ

pub data PollingKind : Type 0 where
  offset timestamp first last next : PollingKind

unfoldable pub polling_code : PollingKind → ℕ
polling_code offset = 1
polling_code timestamp = 2
polling_code first = 3
polling_code last = 4
polling_code next = 5

pub record PollingStrategy : Type 0 where
  pub kind : PollingKind
  pub value : ℕ

pub record PollMessages : Type 0 where
  pub consumer : Consumer
  pub stream_id : Identifier
  pub topic_id : Identifier
  pub partition_id : ℕ
  pub strategy : PollingStrategy
  pub count : ℕ
  pub auto_commit : Bool

pub data PartitioningKind : Type 0 where
  balanced parition_id messages_key : PartitioningKind

unfoldable pub partitioning_code : PartitioningKind → ℕ
partitioning_code balanced = 1
partitioning_code parition_id = 2
partitioning_code messages_key = 3

pub record Partitioning : Type 0 where
  pub kind : PartitioningKind
  pub length : ℕ
  pub value : Bytes

pub record GetConsumerOffset : Type 0 where
  pub consumer : Consumer
  pub stream_id : Identifier
  pub topic_id : Identifier
  pub partition_id : ℕ

pub record StoreConsumerOffset : Type 0 where
  pub consumer : Consumer
  pub stream_id : Identifier
  pub topic_id : Identifier
  pub partition_id : ℕ
  pub offset : ℕ

pub record GetConsumerGroups : Type 0 where
  pub stream_id : Identifier
  pub topic_id : Identifier

pub record GetConsumerGroup : Type 0 where
  pub stream_id : Identifier
  pub topic_id : Identifier
  pub consumer_group_id : ℕ

pub record CreateConsumerGroup : Type 0 where
  pub stream_id : Identifier
  pub topic_id : Identifier
  pub consumer_group_id : ℕ

pub record DeleteConsumerGroup : Type 0 where
  pub stream_id : Identifier
  pub topic_id : Identifier
  pub consumer_group_id : ℕ

pub record JoinConsumerGroup : Type 0 where
  pub stream_id : Identifier
  pub topic_id : Identifier
  pub consumer_group_id : ℕ

pub record LeaveConsumerGroup : Type 0 where
  pub stream_id : Identifier
  pub topic_id : Identifier
  pub consumer_group_id : ℕ

pub record GetClient : Type 0 where
  pub client_id : ℕ

-- The classes below `Command`; those that are empty have no record.
pub data Command : Type 0 where
  get_stream : GetStream → Command
  get_streams : Command
  create_stream : CreateStream → Command
  delete_stream : DeleteStream → Command
  get_topic : GetTopic → Command
  get_topics : GetTopics → Command
  create_topic : CreateTopic → Command
  create_partitions : CreatePartitions → Command
  delete_partitions : DeletePartitions → Command
  poll_messages : PollMessages → Command
  send_messages : Command
  get_consumer_offset : GetConsumerOffset → Command
  store_consumer_offset : StoreConsumerOffset → Command
  get_consumer_group : GetConsumerGroup → Command
  get_consumer_groups : GetConsumerGroups → Command
  create_consumer_group : CreateConsumerGroup → Command
  delete_consumer_group : DeleteConsumerGroup → Command
  join_consumer_group : JoinConsumerGroup → Command
  leave_consumer_group : LeaveConsumerGroup → Command
  ping get_me : Command
  get_client : GetClient → Command
  get_clients get_stats : Command
