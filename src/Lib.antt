-- ===== src/Lib.antt =====
-- Elastic Frame Protocol: frames of data with time stamps, cut into packets that fit an MTU, sent over
-- a network that loses, reorders and repeats packets, and put together again.
--
-- The program is ElasticFrameProtocol.cpp with ElasticFrameProtocol.h and ElasticInternal.h. A sender
-- (ElasticFrameProtocolSender) cuts a frame into full fragments (packets of type 1), a remainder that
-- is too large for the last packet (type 3, where needed) and the last packet (type 2), which has the
-- time stamps. A frame that fits the MTU is one packet of type 2. A receiver
-- (ElasticFrameProtocolReceiver) collects the fragments of a frame in one of 8192 buckets, chosen by
-- the frame's number. A worker thread passes over the buckets in use in the order of the frames'
-- 64-bit numbers, moves what is complete or timed out to a queue, and a delivery thread hands the
-- queue to the application; in RUN_TO_COMPLETION mode the call that receives a packet does the pass.
--
-- Prelude      numbers as machine words, lists, maps and arrays, bytes.
-- Message      ElasticFrameProtocol.h: ElasticFrameMessages and the constants.
-- Wire         ElasticInternal.h: the headers of 8, 32 and 8 bytes, little-endian, as g++ lays them out;
--              Padding is what stands between the fields of a type 2 header.
-- Sender       the class ElasticFrameProtocolSender. Request holds the arguments of
--              packAndSendFromPtr, `refusal` its early returns, `cut` the arithmetic, `send_single` and
--              `send_fragments` the two ways on. Below it: Buffer, Packets, Arithmetic and Complete
--              lead to what a call sends, SmallMtu is about constructors with an MTU below 255;
--              InPlace is destructivePackAndSendFromPtr, Destructive and Equivalence compare it.
-- Frames       the class SuperFrame, its memory, and what a call takes from outside.
-- Receiver     the class ElasticFrameProtocolReceiver. Unpack.Type1 to Type3 are unpackType1 to
--              unpackType3, each with a half for a free bucket (`fresh`, `open`) and one for a bucket in
--              use (`fill`); Deliver is runToCompletionMethod and one round of receiverWorker and of
--              deliveryWorker; Receive is receiveFragmentFromPtr; Threads is the clock and the loops of
--              both threads, stopReceiver and the destructor; GotData is gotData. Numbering is about
--              superFrameRecalculator, Passes, HeadOfLine, Flat, AtOnce and Jump about what a pass
--              delivers, Deadline and Stopping about how long things take, Late and Faults about
--              packets that come too late or do harm, Callbacks about what the C API hands on. Kept
--              and Invariant are the invariant of the receiver, Keeping (with Opening, Filling,
--              Receiving and Packet) is about the packets, Picking, Clearing and Rounds about the
--              rounds; System is the step relation of all of them, Schedules is about its runs.
-- Embedded     addEmbeddedData, extractEmbeddedData and efp_add_embedded_data. The rounds of the
--              extraction are bounded by the frame's size: each moves on by four bytes or more, and
--              extract_loop answers `some none` should they run out. RoundTrip, Loop and Rounds are
--              about extractEmbeddedData, Adding about efp_add_embedded_data.
-- CApi         the functions of the C API: two maps of handles and the next handle; a handle keeps the
--              functions and the context that it was made with. SendData is
--              sendData, Handles the life of a handle, Sending a frame sent on one.
-- Transfer     sender and receiver together. Frame and IsFragment say, independently of both classes,
--              which packets make a frame; Collected is the invariant of a bucket that collects one;
--              Filling, Opening and Receiving lead to Claiming, the first packet, and
--              Accepting, any further one; Run is any list of them;
--              Delivery and Handover lead from the bucket to the callback; FromSender and InOrder
--              compare the sender's packets with those of a frame; EndToEnd joins the two, at
--              an idle receiver, Among at one where other frames wait.
-- Runs         concrete runs.
--
-- State. A sender or receiver is a record with the fields of the class; a handler takes it and returns
-- it with its message. Option stands for undefined behaviour: `none` is an access outside a buffer,
-- an array, a bit set or a frame's memory, or through a null pointer. mBucketList and mStreams are
-- functions of the index, with the bounds of mStreams and of mHaveReceivedFragment tested where the
-- code indexes them; mBucketMap is an association list in ascending order that holds indices of
-- buckets. `x & CIRCULAR_BUFFER_SIZE` is `x % 8192`. A frame's memory has a capacity and a byte, or
-- none yet, at each position. Arithmetic is on natural numbers, with the wrap-around of the code's
-- types written out. The quotient of doubles in packAndSendFromPtr is the quotient of integers:
-- below 2 ^ 32 its rounding does not reach the next integer.
--
-- Parameters. Env has what a call takes from outside: the steady clock, in microseconds, and which
-- sizes posix_memalign grants. Grants says that it grants every size. A time does not wrap.
--
-- Threads. Each handler holds a mutex for the whole of its work on the buckets (mNetMtx) or on the
-- queue (mSuperFrameMtx), so a run is a sequence of whole steps: packets, rounds of the two threads,
-- stopReceiver and the ends of the threads, in any order (Step, in Receiver/System.antt). A round of the
-- worker pushes several frames in its own critical sections of mSuperFrameMtx; it is one step here,
-- since the delivery thread only takes frames from the front meanwhile. When the condition variable
-- wakes a thread and when a thread ends is the scheduler's: a step of the delivery thread asks for
-- mSuperFrameReady, and stopReceiver takes what it sees of the flags of the threads as a function of
-- its tests, which are 1000 at most.
--
-- Loops. All are structural recursion: over the packets of type 1 that are left, over the entries of
-- the map that are left, over the keys to delete, over the samples of the clock, one for each round of
-- the worker, and over lLockProtect.
--
-- Not modelled: the logger, the sleeping itself, the examples, the Go binding and the unit tests. The
-- variants that take a vector (packAndSend, receiveFragment) only call those that take a pointer, and
-- getType1Size, getType2Size and setSuperFrameNo are for the unit tests.
pub mod Prelude
pub mod Message
pub mod Wire
pub mod Sender
pub mod Frames
pub mod Receiver
pub mod CApi
pub mod Embedded
pub mod Transfer
pub mod Runs
