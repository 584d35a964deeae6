-- ===== src/Gnet.antt =====
-- gnet: the TCP framework. Its parts are the child modules.
pub mod Config
pub mod Message
pub mod DataPack
pub mod ConnManager
pub mod MsgHandle
pub mod WorkerPool
pub mod Connection
pub mod Server
