-- ===== src/Turn.antt =====
-- TURN relaying (bingle_core/src/turn): the framing, what the handlers return, the relay's handler
-- and the client's. Logging is left out.
pub mod ChannelData
pub mod Relay
pub mod Client
use bingle_rust.Base.{ℕ, Bool}
use bingle_rust.Net.{SocketAddr}
use bingle_rust.Net.Endpoint.{NetworkEndpoint}
use ChannelData.{Bytes}

pub record TurnMessageWithAddress : Type 0 where
  pub ip_address : SocketAddr
  pub message : Bytes

pub record WrappedMessageWithNetworkEndpoint : Type 0 where
  pub ip_address : SocketAddr
  pub network_endpoint : NetworkEndpoint
  pub message : Bytes
  pub is_relay_local : Bool
