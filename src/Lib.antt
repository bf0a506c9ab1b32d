-- ===== src/Lib.antt =====
-- Verification of LoNetfw, a C++ network framework on fibers.
--
-- The program's parts. util/ holds the byte order, the codes for integers, ByteArray, the buffer
-- that messages are built in and parsed from, streams and text. fiber/ holds the fibers.
-- scheduler/ holds the timers, the scheduler, which hands tasks to fibers, and the io scheduler,
-- which waits for file descriptors and for timers; hook/ makes blocking system calls wait in the
-- io scheduler, and net/ and server/ stand on top of these. log/ and config/ are used by all of
-- them.
--
-- Util models util/endian.h (Util/Endian), and of util/serializer.h and util/serializer.cpp the
-- classes ZigZag (Util/ZigZag), Varint (Util/Varint) and ByteArray (Util/ByteArray). A word is a
-- number below a power of two, written out; `host` is the byte order LON_ENDIAN the program is
-- built for. The state of a ByteArray is the record ByteArray of Util/ByteArray/Defs; each method
-- is a function from it to an outcome, which is a return, a throw or undefined behaviour. The
-- loops of write, read and the buffers run on fuel: one round for each byte is given, since every
-- round moves a byte at least; setPosition has a round for each node; the loop of readUInt64 has
-- eleven rounds, since its shift grows by seven while it is below 64. `ceil` of a quotient in
-- single precision is the parameter CeilFloat, exact below 2 ^ 24.
--
-- Util models of util/stream.cpp the loops of readF and writeF over any stream (Util/Stream), with
-- a round for each byte, since each round moves one at least; and of util/util.cpp the functions
-- on text (Util/Text): case, split, trim, the order of names, and formatParser.
--
-- Fiber models fiber/fiber.h and fiber/fiber.cpp in the build with ucontext (Fiber): the objects
-- and the variables of a thread are a record, and each method is a function to an outcome, which
-- is a return, a throw, a switch from the context of one fiber to that of another, or undefined
-- behaviour. Fiber/Turns puts a swapIn and the swap back together.
--
-- Scheduler models scheduler/scheduler.h and scheduler/scheduler.cpp on one thread: the tasks,
-- which are a list (Scheduler/Tasks), and the loop of run (Scheduler/Run), whose rounds give turns
-- to fibers; the tasks that the code of a fiber schedules and the way it gives control back are
-- arguments. Scheduler/Control is the constructor, start and stop. The loop is cut off after a
-- number of rounds; for callbacks that return it is the length of the queue, and two rounds more
-- to stop.
--
-- Scheduler models scheduler/timer.h and scheduler/timer.cpp (Scheduler/Timer): the set of timers
-- is the list of their addresses in the order of Timer::Comparator, the clock an argument of each
-- call. It models of scheduler/ioscheduler.h and scheduler/ioscheduler.cpp the table of
-- descriptors and the events they wait for (Scheduler/Io): addEvent, delEvent, cancelEvent,
-- cancelAll, what idle does with a reported event, and stopping; what epoll_ctl answers is an
-- argument. The calls of the timers and of the io scheduler run one after the other, as their
-- locks make them.
--
-- Hook models hook/fd.h and hook/fd.cpp (Hook/Fd), in the build for Linux: a descriptor as the
-- hooks see it and the table of them; what fstat answers is an argument. It models of
-- hook/hook.cpp the template io, the calls over it and connect (Hook/Io), on the io scheduler,
-- timers and descriptors of the other modules, and the other calls (Hook/Calls). The answers of
-- the system are a list of steps, one for each call that is made, with what the rest of the
-- program leaves behind a wait; the loop of io runs down that list.
--
-- Net models of net/address.cpp how Address::parse takes a host apart and the comparisons of
-- addresses (Net/Address), and the networks of an IPv6Address, byte by byte (Net/Address/Ipv6). It
-- models net/socket.cpp (Net/Socket): the life of a Socket, over the calls of the system as a
-- record `System` and, for what moves bytes, `Wire`; Net/Socket/Owned says which descriptors such
-- calls open and close. Net/SocketStream is net/socketstream.cpp: a Socket over which a ByteArray
-- is sent and received, on the models of both.
--
-- Config models the registry of config/config.h (Config) and the callbacks of config/configdata.h
-- (Config/Data). The object that holds a value is its name, its description and the name of its
-- type.
--
-- Log models log/: levels and formatters (Log), on the parser of Util/Text, appenders and loggers
-- (Log/Logger) and LoggerManager with its spin lock (Log/Manager). Server models
-- server/tcpserver.cpp (Server), over sockets whose answers are arguments; startAccept runs down
-- the list of what accept gives.
--
-- Not modelled: floating point values and files in ByteArray; several threads that run the loop of
-- one scheduler at a time, and the contents of stacks, which are the platform's; the hooks for
-- Windows; the networks of an IPv4Address and the path of a UnixAddress; the YAML of configuration
-- and logging, which a third party parses, and the casts to and from text; locks and threads,
-- which wrap the platform's; the generated parser of URIs.
pub mod Base
pub mod Util
pub mod Fiber
pub mod Scheduler
pub mod Hook
pub mod Net
pub mod Log
pub mod Config
pub mod Server
