-- ===== src/Lib.antt =====
-- cpp-atmi is a C++ library over Oracle Tuxedo: classes for calls of services, /Q queues,
-- events and typed FML32 buffers, whose error codes become exceptions. This library models its
-- classes as functions and proves what their operations do on every branch.
--
-- A member function is a `Method C W A` (Method.antt): it takes the object and the world, and
-- gives back what it returned or threw, the object and the world. What was written before a
-- throw stays written. `W` is the state of the Tuxedo client library and of everything that it
-- talks to; it is a parameter, and so are the calls on it (Atmi/Calls.antt and Atmi/Fml.antt),
-- their codes and constants (Atmi/Codes.antt) and the texts of the C library
-- (Atmi/Texts.antt). Theorems that need more of a call than its type name that as a law, as
-- the documentation of Tuxedo states it: IsServer, IsReliable and IsAccepting
-- (QueueStream/Server.antt), IsStore and IsBounded (Field/Store.antt), IsContextual
-- (Tuxedo/Contexts.antt), IsFlagTable (Queue/Modes.antt), IsProcess (Options/Parses.antt),
-- IsLog (Ulog/Lines.antt), IsQuiet (Programs.antt), IsApart (Programs/Joins.antt), IsPause
-- (Programs/Export/Rounds.antt), IsDisk (Programs/Import/Runs.antt), IsMemory
-- (Programs/Writer/Runs.antt), IsTerminal (Programs/Decode/Terminal.antt), IsSilent
-- (Programs/Decode/Files.antt). Tests/Laws.antt, Tests/Settings.antt, Tests/Commands.antt,
-- Tests/Programs.antt, Tests/Decodes.antt and Tests/Sessions.antt show that small examples
-- keep them.
--
-- The parts, with paths from the repository's root:
--
-- Exceptions.antt: include/atmi/exceptions.hpp and src/exceptions.cpp. An exception is one
-- record with its class; the handlers of the program ask is_tuxedo, is_timeout, is_diagnostic
-- and is_buffer of the class. Exceptions/Defaults.antt has the default constructors and what
-- an exception gives away.
--
-- Tuxedo.antt: include/atmi/tuxedo.hpp and src/tuxedo.cpp, the base class: flags, memory,
-- begin, commit and abort, switch_context, handle_tperrno. The other classes hold a Tuxedo
-- record and call it through `super`.
--
-- Queue.antt: include/atmi/queue.hpp and src/queue.cpp. Queue/Settings.antt has the
-- constructor and the setters, Queue/Transfer.antt enqueue and dequeue, Queue/Getters.antt
-- what a queue gives away.
--
-- QueueStream.antt: src/queue_stream.cpp. QueueStream/Export.antt is operator<<,
-- QueueStream/Import.antt is operator>>; both drive a queue. The loop of operator<< runs on
-- fuel and gives `none` without it; as many rounds as there are messages, one for the empty
-- queue and one for the last test are enough where nothing fails. With timeouts the code
-- itself may run for ever, and on an empty queue that it waits for (TPQWAIT) tpdequeue blocks.
-- The file that operator<< writes to is the list of what is inserted into the stream; a write
-- to it does not fail here, as the code does not look at the state of the stream either.
-- QueueStream/Server.antt is the queue seen from outside: the messages that the transaction in
-- progress sees, those that are there for good, and whether there is a transaction. A begin is
-- granted outside of a transaction only, a commit or an abort within one only, and what is
-- done outside of one is there for good at once. A message without data has an empty external
-- form; operator<< takes it and writes nothing, so the theorems speak of the messages with
-- data (`with_data`).
--
-- Transaction.antt: include/atmi/transaction.hpp and src/transaction.cpp. The loop of call is
-- recursion on the number of attempts left. Transaction/Fielded.antt has the overloads of
-- transaction and queue for buffers.
--
-- Buffer.antt and Field.antt: include/atmi/buffer.hpp and src/buffer.cpp;
-- include/atmi/field.hpp, template_field.hpp, string_field.hpp and src/field.cpp.
-- Buffer/References.antt has the buffers on memory of somebody else and the call information,
-- Buffer/Fields.antt what a buffer does with any field, over the virtual functions of the
-- field as a record. Field/Values.antt has the values of the fields, Field/Accessors.antt what
-- a field gives away, and Field/Identified.antt the constructors without a name, where `none`
-- is a std::string that is made from NULL. Field/Types.antt is about the constructors by name.
-- A size_t wraps at the width of a long.
--
-- Carray.antt: include/atmi/carray_field.hpp. The backend is a list of bytes of its own size,
-- and an access outside of it, or of memory that a caller passes, is `none` (Memory.antt).
--
-- Client.antt: include/atmi/abstract_client.hpp and src/abstract_client.cpp, the constructor
-- and the destructor. Client/Authentication.antt has the passwords, where a pointer may be
-- that of the static buffer of getpass, and Client/Factories.antt what a client makes. `none`
-- is an access outside of memory; the data of the TPINIT ends where the size that it is
-- allocated for does.
--
-- Session.antt: sequences of calls on one queue object, the transactions of Tuxedo.antt around
-- the messages of Queue.antt. Session/Fifo.antt is what they promise, as a step relation.
--
-- Options.antt: utls/options.hpp. What getopt returns is an enumeration; the loop of parse
-- runs on fuel, and one turn for each option and one more are enough. Options/Usage.antt has
-- the texts of the usage.
--
-- Ulog.antt: include/atmi/ulog.hpp and src/ulog.cpp. Ulog/Logger.antt: src/ulog_logger.cpp,
-- with what its missing header declares as arguments.
--
-- Programs.antt: the programs of utls over the client, the queue and the stream operators,
-- with files, signals and the terminal as parameters. Programs/Export.antt is
-- utls/qexport.bcl, Programs/Import.antt utls/qimport.bcl, Programs/Writer.antt
-- utls/qwriter.bcl, Programs/Decode.antt utls/decode.bcl; Programs/Pipes.antt puts two of them
-- one behind the other. The loop of qexport takes a list of what happens between a round and
-- the test for an interrupt, one entry for each round: other processes may put messages into
-- the queue then, and SIGINT may arrive, and at no other time. Where the list ends before the
-- loop does, the result is `none`. The loop of qwriter runs on fuel and takes the lines of the
-- standard input; behind the last one getline leaves an empty message. As many turns as there
-- are lines are enough where one of them is `quit`, and no number is where none is. What is
-- printed under DEBUG is left out.
--
-- Event.antt: include/atmi/event.hpp and src/event.cpp. CallInfo.antt:
-- include/atmi/call_info.hpp and src/call_info.cpp.
--
-- Version.antt: src/atmi++.cpp.
--
-- Prelude.antt has what the parts share. Tests.antt has the examples.
--
-- Numbers are natural numbers or the integers of Prelude/Int.antt. The results of calls are
-- int or long values that the code only compares, stores and passes on, so they have no bound
-- here; flags are below 2 ^ long_bits where a theorem says so. A char * is NULL or an address,
-- a character array is the list of its bytes.
--
-- Not modelled: queue::dequeueReply of a buffer, which casts the buffer itself to a pointer to
-- a pointer; utls/tmreboot.bcl, which constructs fields by their id, with no defined
-- behaviour, before it asks the domain for anything; samples and tests, which are examples of
-- calls on these classes.
pub mod Prelude
pub mod Atmi
pub mod Memory
pub mod Exceptions
pub mod Method
pub mod Tuxedo
pub mod Buffer
pub mod Field
pub mod Carray
pub mod Queue
pub mod QueueStream
pub mod Session
pub mod Transaction
pub mod Event
pub mod CallInfo
pub mod Client
pub mod Options
pub mod Ulog
pub mod Programs
pub mod Version
pub mod Tests
