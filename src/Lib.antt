-- ===== src/Lib.antt =====
-- feGEM: a MIDAS front end for two-way communication with LabVIEW and Python clients.
--
-- A client connects by TCP to the supervisor's thread, is checked against the lists of allowed hosts,
-- is given a port and a worker thread, and then sends its data as banks (GEB1) or arrays of banks
-- (GEA1) to the worker. A worker reads a message, runs the commands in it, logs variables to the
-- history, saves and loads settings files, and answers with one JSON object. The analyzer module
-- reads the same banks from MIDAS events.
--
-- The parts, and where their code stands:
-- - Bank: libGEM/include/GEM_BANK.h, the structs that received memory is cast to. Endian is
--   change_endian on the bytes of a value; Time the timestamps; Title SanitiseBankString, on the
--   memory around its array; Sanitise what it returns, with
--   Finish for its end; Layout the headers, sizes and names; Header
--   that a header reads back; Walk the loop over the banks of an array as AnalyzeFlowEvent
--   (libGEM/src/feGEM_module.cxx) has it; HandleBankArray (src/feGEMClass.cxx) steps in the same way.
-- - Hosts: src/AllowedHosts.cxx and include/AllowedHosts.h. Pattern is Host::operator==, Registry the
--   three lists and every operation on them; Mirror the arrays in the ODB beside them; Glob says what a pattern stands for; Soundness,
--   Decisions and Odb hold the theorems.
-- - Supervisor: src/feGEMSupervisor.cxx and its header. Workers is the worker list, the ports and
--   AddNewClient over an interface to the arrays of the ODB; Places, Assignment, Ports and Starts follow it
--   through any sequence of requests; Arrays is an instance of the interface.
-- - Server: src/feGEMClass.cxx. State is the thread's state and status line, Commands
--   HandleCommandBank, Reading the two read loops of ServeHost; Prefixes, EventSize and Arrival hold
--   the theorems. The commands call Hosts, Supervisor and Message.
-- - History: src/HistoryLogger.cxx and include/HistoryLogger.h. Plot is BuildCPUMEMHistoryPlot,
--   Variable class HistoryVariable, Logger class HistoryLogger; Throttle and Overflow hold the
--   theorems.
-- - Periodicity: src/PeriodicityManager.cxx. Manager is the class, Events what reaches it,
--   Periods the period that it sets, Callers its theorems.
-- - Message: src/MessageHandler.cxx. Queue is the class, Json the reader of a client, Fields and Reply what it
--   reads of a reply.
-- - Settings: src/SettingsFileDatabase.cxx. Base64 and Hex are the encoders, Names the parsing of a
--   block, Files the save and the load, Reload a load after a save.
-- - Frontend: src/feGEMClass.cxx, from the look of ServeHost at the socket to its answer. State is the
--   whole of a thread with the calls it makes of MIDAS and of the shell; Kinds the dispatch of LogBank,
--   Lines HandleStrArrayBank, Elog PostElog, Strings HandleStrBank, Banks HandleBank, HandleBankArray
--   and LogBank, Serve ServeHost; Handlers, Keeps, Connections, Values, Answers,
--   Messages and Refusals hold the theorems. It is
--   composed of Server, History, Periodicity, Message, Settings and Hosts.
-- - Launch: the program's start. Arguments is src/feGEMmain.cxx, Worker and SettingsPath
--   src/feGEMWorker.cxx, Status the constructor and Init of src/feGEMSupervisor.cxx; Start is main
--   behind its arguments, and Ready and Start follow a thread from there through Frontend.
-- - Analyzer: libGEM/src/feGEM_module.cxx, libGEM/include/GEM_BANK_flow.h and
--   libGEM/src/TStoreGEMEvent.cxx. Dispatch is the choice of the tree and branch of a bank and the
--   version check of Analyze, FileHeader the header of a FILE bank, Store what is kept of an entry,
--   Writer the way of a MIDAS event into the trees; TreeNames, Filing and Rows hold the theorems.
-- - Passage: the way of a client's bank through Frontend into an event and from there through Analyzer
--   into a tree. Fields and Update say what HistoryLogger::Update changes of the bank, Event what the
--   analyzer reads of it; Filed and Walked have the theorems, for one bank and for an array.
-- - Common: Boolean tests, lists and C strings over native numbers.
-- The file Tests of each part has runs on concrete input and the theorems at such input.
--
-- How the code is read. A function that changes an object becomes a function from state to state;
-- writes to the ODB and messages to the control room are recorded in order. Texts are lists of
-- bytes. Numbers are natural; where the source has 32 or 64 bits, the remainder is written out, and a
-- negative int is its bit pattern or a case of its own; an int that overflows is undefined. Undefined behaviour and failed asserts are
-- results (none, undefined, aborted, use_after_free), so that a theorem which gives a result also says
-- that none of these happens. Clocks, MD5, directory listings, files and what the ODB makes of a write
-- are arguments; the laws that are asked of the ODB are in the records WorkerList and StringArrays.
--
-- Bounds and fuel. The two read loops run on the max_reads of the source (100 000 and 10 000) and the
-- header of a FILE bank on its ten items, which end them there too. A decimal number n is printed
-- with n + 1 units of fuel, more than it has digits. All other recursion is on the structure of a
-- list.
--
-- Not modelled: sockets, threads and locks (each call of an operation is one step), printing to the
-- terminal, what ROOT makes of the objects that the trees are filled with, the MIDAS frontend library
-- around main, and the times that are built on doubles of the clock (LVTimestamp and TLVTimestamp of
-- the present; in RunTime the two terms are kept apart).
pub mod Common
pub mod Analyzer
pub mod Bank
pub mod Frontend
pub mod History
pub mod Hosts
pub mod Launch
pub mod Passage
pub mod Message
pub mod Periodicity
pub mod Server
pub mod Settings
pub mod Supervisor
