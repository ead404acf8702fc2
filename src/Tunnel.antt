-- ===== src/Tunnel.antt =====
-- internal/tunnel: the tunnel contract between the command plane and the mesh.
pub mod Contract
pub mod Registry
pub mod RegistryLaws
pub mod Framing
pub mod FramingLaws
pub mod Stream
pub mod Link
pub mod Flow
pub mod Pipe
pub mod Wakes
pub mod Segments
pub mod Pair
pub mod PairLaws
