-- ===== src/Network.antt =====
-- src-tauri/src/network: the peer-to-peer layer.
pub mod Queue
pub mod Invite
pub mod Crypto
pub mod Discovery
pub mod Stream
pub mod Session
pub mod Transfer
pub mod Ceremony
pub mod Pairing
pub mod RemoteSearch
