-- ===== src/Lib.antt =====
-- Nuke: a C++ library in the style of the .NET base classes. All paths below are relative to
-- Source/Nuke.System/ in the repository.
--
-- The program's parts. `DateTime` (System/DateTime.cpp) counts ticks of 100 ns from the year 1 and
-- keeps the kind of a value in the two highest bits of the same 64-bit word; it computes dates by
-- the helpers of System/Math.h and moves by a `TimeSpan` (System/TimeSpan.cpp), a signed 64-bit
-- number of ticks. `IPAddress` (System/Net/IPAddress.cpp) keeps an IPv4 number or eight IPv6 labels
-- and takes byte order from System/Buffers/Binary/BinaryPrimitives.cpp. `Convert`
-- (System/Convert.cpp) codes bytes as Base64. `Path` (System/IO/Path.cpp) splits and joins paths by
-- the rules of one of two platforms. `Stopwatch` (System/Diagnostics/Stopwatch.cpp) sums up
-- differences of clock readings. `String` (System/String.cpp) splits and trims text.
-- `ConcurrentQueue` (System/Collections/Concurrent/ConcurrentQueue.h) passes items from producers to
-- consumers under a mutex and a condition variable. The socket functions
-- (CrossPlatform/SocketApi.cpp) loop over system calls; `TcpClient`
-- (System/Net/Sockets/TcpClient.cpp) owns a descriptor that they open and close, and `Dns`
-- (System/Net/Dns.cpp) sends and receives one datagram through them. `Timer`
-- (System/Timers/Timer.cpp) raises an `Event` (System/Event.h) with `DateTime::Now` from a worker
-- thread. `TransitionTime` and `AdjustmentRule` (System/TransitionTime.cpp,
-- System/AdjustmentRule.cpp) are made of dates and time spans, and
-- CrossPlatform/TimeZoneApi.Linux.cpp reads the names of time zones.
-- CrossPlatform/ProcessApi.Linux.cpp reads what /proc shows of the processes and splits it by
-- `String`; CrossPlatform/ProcessApi.Windows.cpp reads a table that the system writes into memory.
-- `EnumerationOptions` (System/IO/Directory.h) says how directories are to be searched. The parts know each other only through these calls.
--
-- Which file models which part:
--   Base and its children: lists and numbers, integers, words of 8 to 64 bits with their casts,
--     bitwise operations as arithmetic, results that throw, indexed reads, and the parameter that
--     stands for `double`.
--   Numeric: System/Math.h, `DivRem`, `BigMul`, `Min`. Its proofs: Product, WideProduct,
--     SignedProduct.
--   TimeSpan: System/TimeSpan.cpp over integers; TimeSpan.Floating: its operations over
--     `double`; TimeSpan.Printing: `ToString`.
--     Their proofs: Overflow (sums and comparison), Parts (fields and constructors), Text
--     (its numbers), Floating.Laws (whole numbers).
--   DateTime.Calendar: the constants, tables and static helpers of System/DateTime.cpp, `Init`;
--     DateTime.Value: the word, its constructors and comparisons; DateTime.Fields: `GetDate` and
--     the accessors; DateTime.Shift: what makes a value from another one; FileTime: file
--     times and what is not finished. Gregorian describes the
--     calendar independently: leap years, lengths of months, day numbers. The proofs: Leap, Tables,
--     Ordinal (`DateToTicks`), Affine and March (the affine functions that `GetDate` divides by),
--     Parts (the accessors), RoundTrip (constructor and accessors), KindLoss (what the kind bits do
--     to `AddTicks` and its callers), Months, Landing and Moves (`AddMonths` and `AddYears`),
--     Printing (DateTime.Text, which is `ToString`).
--   Net.ByteOrder and Net.Address: byte order and addresses. Their proofs: Swaps, Bytes, Prefixes,
--     Scope.
--   Convert: the coder and its wrappers, over the tables of Convert.Alphabet. The proofs: Table,
--     Groups, Coding, Wrappers.
--   Path: the class, over the record Path.Interface.Platform with its instances Path.Linux and
--     Path.Windows. The proofs: Names, Combining, Roots.
--   Stopwatch: System/Diagnostics/Stopwatch.cpp, a state machine over readings of the clock;
--     Stopwatch.Readings: those readings (CrossPlatform/MiscApi.cpp) and their units. The proof:
--     Elapsing.
--   Text: System/String.cpp; Text.Numbers: std::stoi and its like. The proofs: Splitting,
--     Lines, Trimming.
--   Queue: the queue and the operations on it; Queue.Steps: the steps of any threads. The proofs:
--     Order (nothing is lost or exchanged), Waking (who is woken).
--   Sockets: the four transfer loops; Sockets.Client: `TcpClient` with the functions that open and
--     close. The proofs: Progress (requests and results), Stream (bytes), Filling (whole buffers),
--     Client.Lifetime (descriptors).
--   Dns: System/Net/Dns.cpp over the transfer loops. The proof: Query.
--   Timers: System/Timers/Timer.cpp and System/Event.h; Timers.Steps: the timer, its worker and its
--     user. The proof: Silence.
--   TimeZones.Transition: the values of System/TransitionTime.cpp; TimeZones.Rule:
--     System/AdjustmentRule.cpp with the objects that copies share; TimeZones.Database:
--     CrossPlatform/TimeZoneApi.Linux.cpp; TimeZones.Loading: System/TimeZoneInfo.cpp. The proofs:
--     Validity, Adjusting, Ownership, Database.Rows.
--   Processes.Names, Status, Stat and Table: CrossPlatform/ProcessApi.Linux.cpp, from the paths to
--     the list of processes; Processes.Process: System/Diagnostics/Process.cpp. The proofs: Reading,
--     Missing, Failing.
--   Processes.Windows: CrossPlatform/ProcessApi.Windows.cpp: Layout (the system's structures), Walk
--     (the table of processes), ShortName, Ids, and Query (`GetProcessInfos` as a whole). Table
--     describes what the system writes. The proofs: Reading, Walking, Visiting, Collecting, Answer
--     and Listing for the table, Naming, Marks and Shortening for the names, Enumerating for the
--     identifiers.
--   Files: the options of System/IO/Directory.h; Files.Statics: its functions with static objects.
--     The proof: Answers.
--   The modules named Tests hold runs and examples.
--
-- How the code is read. A definition has the name of its function in lower case; where C++ overloads
-- a name, the argument types are added. A word is a natural number below its power of two and every
-- cast, product and sum that may leave the width takes the remainder; a signed value is an integer,
-- and where its arithmetic overflows, which C++ leaves undefined, it wraps around. A function that
-- throws returns a `Result`; `undefined` in it stands for a read or write outside of an object.
-- Objects are values, except where copies share one: there a heap has the objects by their addresses.
-- Threads are relations of steps; what a thread does while it holds a mutex is one step. A string is
-- the list of its bytes. The machine is little-endian, as the build has it, and the system Linux but
-- in the modules named Windows.
--
-- Loops are structural recursion on what they walk over. The two loops of the Windows
-- `GetRootLength` count up to the length of the path; they take that length as fuel, and
-- `skip_name_fuel` and `skip_share_fuel` in Path.Roots show that more fuel changes nothing.
--
-- The loops around system calls walk over the list of the system's answers; a run whose answers are
-- used up has not returned. The walk through the table of processes and the loop that asks for
-- identifiers take fuel, and `none` is a loop that goes on: the bytes of a table are more than its
-- entries (Answer), and any number of rounds that makes the array large enough will do (Enumerating).
--
-- Parameters. `double` is the record `Floating`, and what the proofs need of it, that it is exact on
-- whole numbers of limited size, is the record `IsExact`, with an instance. Arguments stand for the
-- clock readings of `UtcNow`, `Stopwatch` and the timer, the offset of `Now`, the array that `decode`
-- does not initialise, what a default-constructed DateTime holds, the size that no string exceeds,
-- the answers of the system's socket calls and whether a name resolves, the number of a new
-- descriptor, `htons`, `inet_addr` and `sysconf`, the environment, the contents of files, the
-- entries of /proc, the zones as the JSON library reads them from the database, what EnumProcesses and
-- NtQuerySystemInformation write, the wide characters at an address, and what `poll` answers.
--
-- Not modelled: regular expressions other than plain separators, tasks and futures, the adjustment
-- rules of the time zone database, whose dates the loader reads and drops, and the parts of the
-- library that only call the operating system or third-party code (files, adapters, JSON, the code
-- for macOS). Paths, strings and lines are shorter than 2^31, as the code's `int` takes for granted.
pub mod Base
pub mod Convert
pub mod Net
pub mod Numeric
pub mod Path
pub mod Queue
pub mod Sockets
pub mod TimeZones
pub mod Text
pub mod Processes
pub mod Timers
pub mod Dns
pub mod Files
pub mod Stopwatch
pub mod TimeSpan
pub mod DateTime
