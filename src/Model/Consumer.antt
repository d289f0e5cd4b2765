-- ===== src/Model/Consumer.antt =====
-- Consumers, their offsets and their groups, of sdk/model.h (namespaces shared, consumeroffset,
-- consumergroup and system). Each class is the record of its private fields.
use iggy_cpp_client.Prelude.{ℕ, Option, List}
use iggy_cpp_client.Prelude.Bytes.{Bytes}

pub data ConsumerKind : Type 0 where
  consumer consumer_group : ConsumerKind

unfoldable pub consumer_code : ConsumerKind → ℕ
consumer_code consumer = 1
consumer_code consumer_group = 2

pub record Consumer : Type 0 where
  pub kind : ConsumerKind
  pub id : ℕ

pub record ConsumerOffsetInfo : Type 0 where
  pub partition_id : ℕ
  pub current_offset : ℕ
  pub stored_offset : ℕ

pub record ConsumerGroupMember : Type 0 where
  pub id : ℕ
  pub partitions_count : ℕ
  pub partitions : List ℕ

pub record ConsumerGroupDetails : Type 0 where
  pub id : ℕ
  pub name : Bytes
  pub paritions_count : ℕ
  pub members_count : ℕ
  pub members : List ConsumerGroupMember

pub record ConsumerGroupInfo : Type 0 where
  pub stream_id : ℕ
  pub topic_id : ℕ
  pub consumer_group_id : ℕ

pub record ClientInfoDetails : Type 0 where
  pub client_id : ℕ
  pub user_id : Option ℕ
  pub address : Bytes
  pub transport : Bytes
  pub consumer_groups_count : ℕ
  pub consumer_groups : List ConsumerGroupInfo
