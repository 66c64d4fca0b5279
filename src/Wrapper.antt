-- ===== src/Wrapper.antt =====
-- wrapper/typed_order.go and wrapper/turn_interrupt.go: the order of typed events, and the marks of
-- interrupted turns.
pub mod Queue
pub mod Marks
