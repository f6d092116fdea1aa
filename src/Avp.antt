-- ===== src/Avp.antt =====
-- avp.c: the handlers of received AVPs and the loop over a control message.
pub mod Raw
pub mod MessageType
pub mod TunnelAvps
pub mod CallAvps
pub mod Hidden
pub mod Loop
pub mod NullHead
pub mod Safe
pub mod Link
mod Examples
