-- ===== src/Stats/Output.antt =====
-- `OutputBase` and `KafkaOutput` (src/statistics/output): where a report goes. Sending a request
-- to Kafka is an effect.
pub mod Laws
use hvbench.Base.{ℕ, Bool, true, List, Text, codes}
use hvbench.Base.Int.{ℤ, pos}
use hvbench.External.Boost.{Boost}
use hvbench.Stats.Collector.{Collector, add_meta, to_json}

-- The members of `OutputBase`; `run_id_` is an `int32_t`.
pub record OutputBase : Type 0 where
  pub study_id : Text
  pub run_id : ℤ

unfoldable pub update_study : Text → ℤ → OutputBase → OutputBase
update_study study_id run_id o = record { study_id = study_id; run_id = run_id }

-- `request.AddValue(value, topic, partition)`.
pub record ProduceRequest : Type 0 where
  pub value : Text
  pub topic : Text
  pub partition : ℕ

-- The constructor of `KafkaOutput`.
unfoldable pub kafka_output : OutputBase
kafka_output = record { study_id = codes "test"; run_id = pos 1 }

-- libkafka_asio's `Connection::Configuration`, as far as it is set; the broker is a text that
-- `SetBrokerFromString` takes apart.
pub record Configuration : Type 0 where
  pub auto_connect : Bool
  pub client_id : Text
  pub socket_timeout : ℕ
  pub broker : Text

pub record KafkaOutput : Type 0 where
  pub base : OutputBase
  pub configuration : Configuration

-- `KafkaOutput::create(ip, instance_id)`, up to the thread of its socket.
unfoldable pub create : Text → Text → KafkaOutput
unfolding kafka_output
create ip instance_id = record {
  base = kafka_output;
  configuration = record {
    auto_connect = true;
    client_id = codes "hvbench";
    socket_timeout = 10000;
    broker = ip;
  };
}

module _ (b : Boost) (write_json : List (Text × Text) → Text) where
  -- `KafkaOutput::write(tenant, col)`.
  unfoldable pub write : OutputBase → Text → Collector → ProduceRequest
  unfolding add_meta to_json
  write o tenant col =
      let c =
        add_meta (codes "run_id") (b.print o.run_id)
          (add_meta (codes "study_id") o.study_id (add_meta (codes "tenant") tenant col)) in
      record { value = to_json b write_json c; topic = codes "hvbench"; partition = 0 }
