-- ===== src/Rpc.antt =====
-- The RPC core of the WASM module, the class `WasmRpcCore` of cloudflare/wasm/src/rpc.rs: its
-- messages, as the protobuf library decodes them. Signed fields are their two's complement pattern.
pub mod Fragments
pub mod Core
pub mod Requests
pub mod Responses
pub mod Isolation
use intranet_penetration_clo.Common.{ℕ, String, Bool, Option}
use intranet_penetration_clo.Packet.{Bytes}

pub record RpcDescriptor : Type 0 where
  pub domain_name : String
  pub proto_name : String
  pub service_name : String
  pub method_index : ℕ

pub record RpcCompressionInfo : Type 0 where
  pub algo : ℕ
  pub accepted_algo : ℕ

pub record RpcPacket : Type 0 where
  pub from_peer : ℕ
  pub to_peer : ℕ
  pub transaction_id : ℕ
  pub descriptor : Option RpcDescriptor
  pub body : Bytes
  pub is_request : Bool
  pub total_pieces : ℕ
  pub piece_idx : ℕ
  pub trace_id : ℕ
  pub compression_info : Option RpcCompressionInfo

-- `RpcKey`: network, peer, transaction and direction.
abbrev pub RpcKey : Type 0
RpcKey = String × (ℕ × (ℕ × Bool))
