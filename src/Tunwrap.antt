-- ===== src/Tunwrap.antt =====
-- internal/tunwrap/broadcast.go: broadcasts of a room carried as unicasts to its members.
-- A buffer is the packet in it; `slots` is the number of buffers of a call and `room` the bytes of
-- each behind the offset. A time is a number of nanoseconds.
pub mod Packet
pub mod Device
