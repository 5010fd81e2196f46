-- ===== src/Rpc.antt =====
-- The RPC server (supervice/rpc.py) and the client's side of its protocol (supervice/client.py).
pub mod Frame
pub mod Replies
pub mod Server
pub mod Socket
