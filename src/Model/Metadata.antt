-- ===== src/Model/Metadata.antt =====
-- Identifiers, partitions, topics and streams of sdk/model.h (namespaces shared, partition, topic
-- and stream). Each class is the record of its private fields: its constructor copies the
-- arguments into them, and each getter returns one. A numeric field holds the value of its
-- unsigned C++ type.
use iggy_cpp_client.Prelude.{ℕ, Option, List}
use iggy_cpp_client.Prelude.Bytes.{Bytes}

pub data IdKind : Type 0 where
  numeric string : IdKind

unfoldable pub id_code : IdKind → ℕ
id_code numeric = 1
id_code string = 2

pub record Identifier : Type 0 where
  pub kind : IdKind
  pub length : ℕ
  pub value : Bytes

pub record Partition : Type 0 where
  pub id : ℕ
  pub created_at : ℕ
  pub segments_count : ℕ
  pub current_offset : ℕ
  pub size_bytes : ℕ
  pub messages_count : ℕ

pub record Topic : Type 0 where
  pub id : ℕ
  pub created_at : ℕ
  pub name : Bytes
  pub size_bytes : ℕ
  pub message_expiry : Option ℕ
  pub max_topic_size : Option ℕ
  pub replication_factor : ℕ
  pub messages_count : ℕ
  pub partitions_count : ℕ

pub record TopicDetails : Type 0 where
  pub id : ℕ
  pub created_at : ℕ
  pub name : Bytes
  pub size_bytes : ℕ
  pub message_expiry : Option ℕ
  pub max_topic_size : Option ℕ
  pub replication_factor : ℕ
  pub messages_count : ℕ
  pub partitions_count : ℕ
  pub partitions : List Partition

pub record StreamDetails : Type 0 where
  pub id : ℕ
  pub created_at : ℕ
  pub name : Bytes
  pub size_bytes : ℕ
  pub messages_count : ℕ
  pub topics_count : ℕ
  pub topics : List Topic
