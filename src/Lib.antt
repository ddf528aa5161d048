-- ===== src/Lib.antt =====
-- RecSync's server, the RecCeiver: EPICS IOCs connect to it by TCP, upload the names, aliases and infos
-- of their records, and it passes them on in transactions to processors, the main one of which keeps a
-- ChannelFinder service up to date.
--
-- The parts, and the files that model them:
-- - server/recceiver/protocol/messages.py, the TCP messages: Protocol/Messages. `Base` has the checks
--   that the messages share and the base class's encode and decode, `Header` the frame, `Fixed` the
--   messages of fixed size, `AddRecord` and `AddInfo` those with texts. A message's encode and decode
--   are functions into Result; `pack` and `unpack` of Python's struct module are in Protocol/Struct,
--   its UTF-8 codec, with the strict error handler, in Protocol/Utf8.
-- - server/recceiver/protocol/announce.py, the UDP packet: Protocol/Announce.
-- - server/recceiver/recast.py. Recast/Transaction and Recast/Session have Transaction and
--   CollectionSession, with the commit chain as the list of its transactions. Recast/Receiver has the
--   handlers of CastReceiver as functions on a connection's state, and Recast/Factory has CastFactory
--   with all its connections, and the handlers that use it (recvDone, connectionLost). A connection is
--   known by a number. The events of the server are the functions build_protocol, data_received,
--   timer_fired and connection_lost, and Recast/Factory/Accounting has the steps that they make.
-- - server/recceiver/cf/model.py and config.py: Cf/PropertyName, Cf/Property, Cf/Channel, Cf/Model,
--   Cf/Config.
-- - server/recceiver/cf/adapter.py: Cf/Adapter, over pyCFClient's client, a record of functions.
-- - server/recceiver/cf/processor.py: Cf/Commit has _commit_with_thread, over its parts: Cf/Registry
--   has the tables of IOCs and channels and the methods that change them, Cf/Records the way from a
--   transaction to the records of a commit, Cf/Push the retries, Cf/Classify what _update_channelfinder
--   does with the channels that ChannelFinder has for the IOC, Cf/Update the new channels and the
--   writing, and Cf/Property the lists of properties. The service's client, the flags `running` and
--   `cancelled` and all that they depend on are a world `W` that each call may change.
--   Cf/Config/Loads has CFConfig.loads, Cf/Setup _setup_cf_properties, and Cf/Service startService,
--   stopService and clean_service, over the flag of the lock.
-- - server/recceiver/clean_tool.py: Cf/Clean. server/recceiver/announcer.py: Announcer, over the UDP
--   transport as a function.
-- - server/recceiver/processors.py: Processors has ProcessorController.commit, over the commits of the
--   processors, Processors/Startup its __init__, over the plugins, Processors/Show what ShowProcessor
--   logs, and Configuration ConfigAdapter, with what Python's ConfigParser does for it: the order of
--   the environment, the section and the defaults, and the interpolation of values.
-- - server/recceiver/application.py: Application has RecService.__init__. Floats are of an unknown
--   type with a function that reads them.
-- - server/recceiver/dbstore.py: Dbstore/Settings what it reads, Dbstore/Statement the statements with
--   their rows, Dbstore/Commit _commit and cleanupDB over the database's cursor, a record of functions,
--   Dbstore/Waiting the deferreds that a stop waits for.
--
-- Prelude, Dict, Sets, Integer and Text have what these share: Result with Python's exceptions as values,
-- dict as an association list in insertion order, set as a list, and int where it may be negative.
-- Texts are lists of code points, byte strings lists of bytes. A method that raises gives the error
-- together with the state that it leaves. Times are whole numbers of ticks, and arguments.
--
-- Bounds: `decimal` has as much fuel as its number, which is at least its digits but for 0, which needs
-- none. A push has the fuel pushMaxRetries + 1, which is enough unless pushAlwaysRetry is set. Slices have as many rounds as
-- channels, the loop over the processors as many as processors, and the sweep of clean_tool.py as many
-- as are allowed, where one more than there are active channels is enough. clean_service has a fuel of
-- attempts as well, of which four are enough once the processor is stopped. An interpolation makes
-- ten passes inside one another at most, as in Python. All other recursion is on the input.
--
-- Not modelled: the check of an IOCInfo for None, which it never holds; the deferreds of
-- _commit_with_lock, of ShowProcessor and of the pool of connections, which are Twisted's; the reading
-- of configuration files; logging, metrics, and the wiring of Twisted services; the conversion of
-- findSizeLimit to a number at each use but the first, where the model has the number; and the client,
-- which is written in C.
pub mod Prelude
pub mod Dict
pub mod Sets
pub mod Integer
pub mod Text
pub mod Configuration
pub mod Application
pub mod Protocol
pub mod Recast
pub mod Cf
pub mod Announcer
pub mod Processors
pub mod Dbstore
pub mod Tests
