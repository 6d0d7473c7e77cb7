-- ===== src/LowerTrans.antt =====
-- mesh/transport/meshx_lower_trans.c, in the modules below.
pub mod Pdu
pub mod Segment
pub mod Tx
pub mod Rx
pub mod Send
pub mod Incoming
mod Tests
