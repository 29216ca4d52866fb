-- ===== src/WsGateway.antt =====
-- chat/ws_gateway: the sessions of a WebSocket gateway.
pub mod Manager
pub mod Session
pub mod Endpoint
pub mod Keys
pub mod PushChannel
