-- ===== src/Gnet/Config.antt =====
-- utils/globalobj.go and gnet/config.go: the configuration, an instance's own or the global one.
-- Loading it from a JSON file is not modelled.
use ginx.Prelude.{ℕ, String, Option, none, some, ℤ, pos}

pub record GlobalObj : Type 0 where
  pub host : String
  pub tcp_port : ℤ
  pub name : String
  pub max_packet_size : ℕ
  pub max_msg_chan_len : ℕ
  pub max_conn : ℤ
  pub worker_pool_size : ℕ
  pub max_worker_task_len : ℕ
  pub worker_task_queue_wait_time : ℕ
  pub heartbeat_max : ℤ
  pub write_timeout : ℕ
  pub send_timeout : ℕ
  pub message_rate_limit : ℤ
  pub message_rate_burst : ℤ

abbrev pub Config : Type 0
Config = GlobalObj

abbrev pub default_config : Config
default_config = record {
  host = "0.0.0.0";
  tcp_port = pos 7777;
  name = "ZinxServerApp";
  max_packet_size = 4096;
  max_msg_chan_len = 1024;
  max_conn = pos 12000;
  worker_pool_size = 10;
  max_worker_task_len = 1024;
  worker_task_queue_wait_time = 100;
  heartbeat_max = pos 10;
  write_timeout = 0;
  send_timeout = 0;
  message_rate_limit = pos 0;
  message_rate_burst = pos 0;
}

-- The global object is an argument of whatever may fall back on it.
abbrev pub effective_config : Config → Option Config → Config
effective_config global none = global
effective_config global (some config) = config
