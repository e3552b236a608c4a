-- ===== src/Receiver/Unpack.antt =====
-- unpackType1, unpackType2 and unpackType3. Each is a function for a packet whose bucket is not in
-- use, one for a packet of the frame that is being collected, and the choice between the two.
pub mod Type1
pub mod Type2
pub mod Type3
