-- ===== src/Lib.antt =====
-- nPerf, a network performance measurement tool for UDP.
--
-- A sender and a receiver exchange UDP datagrams; each datagram starts with a header of three
-- words, the type of the message, the test id and the packet id. The sender stamps consecutive
-- packet ids into its buffers and hands them to the kernel by send, sendmsg, sendmmsg or io_uring;
-- the receiver counts lost, reordered and duplicated packets from the ids. Every thread has its own
-- statistic, which is cut into intervals, and the statistics of the threads are added up.
--
-- Parts, by file (paths of the code from the root of the repository):
--   Base             Boolean tests, lists and machine words over native numbers; `Outcome`, the result
--                    of a call: a value, an error (one of the code's texts), or a fault, which is a
--                    panic or undefined behaviour.
--   Config           the settings and constants: src/lib.rs, the enums of src/util/mod.rs,
--                    src/util/statistic.rs and src/io_uring/mod.rs. Config/Floats has the operations on
--                    f64, which are a parameter: a number is held as its bit pattern.
--   Arguments        src/command_parser.rs: from the arguments to the settings (Accepted: what accepted
--                    ones guarantee). The operations on f32 are a second parameter.
--   Net              src/net/mod.rs (Net/Header: a slice of bytes is a window of an allocation, so the
--                    reads of the transmuted slices are tested as the code tests them) and
--                    src/net/socket.rs (Net/Socket: the kernel's answer to a call is an argument),
--                    src/net/socket_options.rs (Net/Options, with the calls it makes in Order), and
--                    Net/Parse the functions of src/net/mod.rs beside the header.
--   Statistic        src/util/statistic.rs: Statistic, its sum, Measurement; Statistic/Interval has
--                    StatisticInterval; Statistic/Counters the sums of the counters;
--                    Statistic/Kept the datagrams of kept intervals; Statistic/Utilization
--                    the entries of an array that are written; Statistic/Print has the lines
--                    that are printed, Output the three formats, Rows the file of the results,
--                    Panics when printing panics, Serialized the text of an array.
--   Buffer           src/util/msghdr.rs (Buffer/Msghdr), src/util/msghdr_vec.rs (Buffer/MsghdrVec),
--                    src/util/packet_buffer.rs (Buffer/PacketBuffer, with the ids in Ids and the pool of
--                    free buffers in Pool).
--   Packets          src/util/mod.rs: what the receiver makes of ids and of buffers; Accounting and
--                    Distinct are about sequences of ids, Chunks about buffers of several datagrams.
--   Uring            src/io_uring: how much to submit (FillMode), the submission of requests in the four
--                    modes (Submit), and the pool over it (Submit/NormalPool,
--                    Submit/SendPool, Submit/ZeroCopyPool, Submit/Packets), and the four modes (Modes, with the rings of
--                    buffers in Modes/Rooms).
--   Node             Node/Create has Sender::new and Receiver::new, Node/Interval the clocks of a pass.
--                    src/node/receiver.rs is Node/Receiver: Recv, Measurements, Completion, and Run with
--                    the loop of Receiver::run (Run/Uring: the loops over io_uring; Run/Stops: when it
--                    is left; Run/Datagrams: what it counts; Run/Flights: the buffers in
--                    flight over a pass). src/node/sender.rs is Node/Sender: Answers,
--                    Ids, Frames and Requests are about one sending call, Run has the loop of Sender::run
--                    (Run/Uring: the loop over io_uring and run itself; Run/Settling and
--                    Run/Settles: its packet ids; Run/Ending, Run/Accounts,
--                    Run/Passes, Run/Final and Run/Whole: its end, and the datagrams it counts).
--   Affinity         src/util/core_affinity_manager.rs (Cores: the sequence of the cores).
--   CpuUtil          src/util/cpu_util.rs (Since: what the times are measured from).
--   Executor         src/executor.rs: the threads of a run (Ports), the merging of their statistics
--                    (Merge, Places), the loop of exec (Loop, Reports), and what it prints and saves
--                    (Printing, Recorded).
--   Main             src/main.rs: from the arguments to the report (Reports).
--   Transfer         a test from src/node/sender.rs to src/node/receiver.rs: messages of consecutive
--                    ids (Ordered), what one sendmmsg hands over (Handed), the messages that the
--                    kernel accepts of the loop of Sender::run (Wire), their datagrams and ids
--                    (Datagrams, Spoken), lists in another order (Shuffled), what src/util/mod.rs
--                    counts of whole datagrams (Counting), the calls of recv_messages with mmsg
--                    (Arriving, Calls), the counters after them (Results), and both ends (Complete).
--                    The network is a hypothesis: which datagrams arrive, in what order, and in
--                    which messages.
--   Tests            concrete inputs, and each theorem at one of them.
--
-- Conventions. Numbers are natural numbers with the wrap-around of their type written out; a signed
-- counter is its two's complement pattern. A method that changes its receiver takes the record and
-- returns the changed one beside its result, also where it fails. What the kernel, the crate
-- io_uring and the clock answer is an argument of the definition that asks. The vector of free
-- indices has its last entry at the head of a list, and keeps the capacity that the code reads.
-- The loops of run and exec go over a list of passes, each with the clock readings and the answers
-- that it gets, and the result is none where the list is used up before the loop ends. Every other
-- loop runs over a list or a number, so no fuel is used.
--
-- Not modelled: clap's reading of the arguments, the scheduling of the threads of src/executor.rs
-- (what `run` of a node returns is an argument), the text that serde_json and csv make of a statistic
-- and the rounding of a float that is printed, the memory behind the buffer rings of src/io_uring,
-- what a failed io_uring_enter leaves in the statistic of the ring of the provided-buffer and multishot
-- modes (the run ends with that error), logging and sleeping.
pub mod Arguments
pub mod Base
pub mod Net
pub mod Main
pub mod Node
pub mod Executor
pub mod Affinity
pub mod CpuUtil
pub mod Config
pub mod Statistic
pub mod Buffer
pub mod Packets
pub mod Uring
pub mod Transfer
pub mod Tests
