-- ===== src/Lib.antt =====
-- MKW-SP is a modification of Mario Kart Wii in C and C++. This library models parts of its
-- payload that carry logic of their own: a container, two decompressors, the reader of settings
-- files and the settings, the encrypted message socket, the clients of the online rooms and races
-- that run over it, and the files of ghosts.
--
-- Base             shared names, Boolean tests, lists over the native numbers, machine words
-- CircularBuffer   payload/sp/CircularBuffer.hh: a ring of N cells; each function bears the name
--                  of its method. Slots is the index arithmetic, Refine and Remove compare the
--                  ring with the list of its elements.
-- Bytes            common/Bytes.hh: Read and Write of integers in byte arrays
-- Decoder          payload/sp/Decoder.hh and the loop of `decode` that YAZDecoder.cc and
--                  LZ77Decoder.cc have in common. Laws proves the loop for any machine with given
--                  laws; Yaz (payload/sp/YAZDecoder.cc) and Lz77 (payload/sp/LZ77Decoder.cc) are
--                  the machines, with one function for each case of `process`.
-- YazEncoder       payload/sp/Yaz.c: Yaz_encode, its search in Search, its rounds in Bounds; Stream, Items,
--                  Refs and Rounds follow what was written as a stream for the decoder,
--                  Fits is about its size.
-- IniReader        payload/sp/settings/IniReader.cc: `next`, a round of its loop for each character,
--                  with its labels as functions. Sound and Switch follow its pointers through a
--                  round, Next through a call, Line the characters of a line; Line.Spaced and
--                  Line.Sections do the same for what writeIni prints.
-- Settings         payload/sp/settings/Settings.hh: `set` on texts and `readIni`, for any group of
--                  settings, and in Write `writeIni`. Legal is about the ranges of the values, Small
--                  about their 32 bits. Sound says which tables can be read back, Known how an entry
--                  and a value are found again, Text is about what is written, Lines and Roundtrip
--                  about reading it, Stored about both. Names and Digits are the notation of the
--                  tables, and numbers in digits for the tests.
-- ClientSettings   payload/sp/settings/ClientSettings.cc and ClientSettings.hh: the table of the settings
--                  of a license, with the names of the enumerations in Enums. GlobalSettings is
--                  payload/sp/settings/GlobalSettings.cc: its table, and `Init` over Settings and Storage.
-- Storage          payload/sp/storage/Storage.cc: Dispatch and the functions over it. Drivers is
--                  IStorage with the files of its four storages, over one state of the disk; a
--                  System also keeps the states before each call of a driver. Overwrite is about
--                  WriteFile; Contents is what it relies on of the drivers, which are not modelled.
-- MapFile          payload/sp/MapFile.cc: SymbolLowerBound on the text of the map file. Lines prints
--                  such a text, and Found searches it.
-- Net              payload/sp/net/AsyncSocket.cc. Platform is what it calls: SOConnect, SORecv and
--                  SOSend over a state of the network, and libhydrogen. Task has `recv` and `send`,
--                  Handshake and Transfer the parts of `poll` in their order, AsyncSocket `poll`,
--                  `ready`, `read` and `write`. Its queues use CircularBuffer; they stand here as
--                  lists of at most 32 tasks, oldest first, the view of CircularBuffer.Refine.
--                  UnreliableSocket is payload/sp/net/UnreliableSocket.cc: Network is what it calls, the
--                  group a list of at most 255 connections, which its 8-bit index can count.
--                  SyncSocket is payload/sp/net/SyncSocket.cc over the same Platform: Chunks is about its
--                  loops, with a unit of fuel for each byte they wait for, Messages about a message.
--                  AsyncListener is payload/sp/net/AsyncListener.cc over ListenPlatform, its calls; Port
--                  is about its search for a port.
-- Room             payload/sp/cs/RoomClient.cc and RoomManager.hh. Types has the members, events and
--                  requests; Players the handlers of events; Requests the requests; Client the state
--                  machine that `calc` runs. Link is the socket with the protobuf codec, Local what
--                  the save data and the global context give, and the calls of the handler are a log.
--
-- Race             payload/sp/cs/RaceClient.cc and RaceManager.cc: `calc_read`, `calc_write` and the
--                  validity of frames. RaceLink is the race socket with the protobuf codec, Floats
--                  the comparisons of f32. Valid is about a frame, Progress about a call.
-- Ghost            payload/game/system/GhostFile.cc, payload/game/util/Registry.cc, and initGhost
--                  and loadGhost of payload/game/system/SaveManager.cc. Header has the header and
--                  the tests on it, Raw `is_valid` and `decompress`, Footer GhostFooter, Save the
--                  two functions of SaveManager, Write GhostFile::write. They use Decoder.Yaz and YazEncoder for the compressed inputs.
--                  Platform is what they call of the game and the console: checksums, enumeration
--                  tests and weight classes.
-- Exchange         payload/sp/Exchange.hh: `enter`, `retest` and `resume` are the parts of `left` and
--                  `right` around a sleep and around the OSWakeupThread before the second test; Step
--                  is a step of either thread, Paired is about all interleavings.
-- DecompLoader     payload/sp/storage/DecompLoader.cc: `read_file` lists what the reading thread
--                  passes to the exchange, `load` is what the loading thread makes of it. Codec is a
--                  subclass of Decoder; Instances has the two that are modelled, Loop and Whole are
--                  about loading, Ranges about reading, Reader about both together.
--
-- How C++ is read. u8, u16, u32 and size_t are native numbers with the wrap-around written out
-- where the code can wrap. An object that the code changes is passed in and returned. An access
-- outside an array, a failed assertion and a panic are `none`. A loop has fuel: `remove` and
-- `reset` as many rounds as there are elements, `decode` one more than its `work`, which is twice
-- the bytes left in the source, twice the room left in the output, and one between two groups;
-- every round lowers it; `readIni` one more than the text has characters; `calc_read` more than
-- the datagrams that wait; `encode` one more than the bytes of the source; `read_file` one more
-- than the chunks of the file; `symbol_lower_bound` one more than the text has characters. Members that a constructor leaves uninitialised start as 0 in the
-- decoders, where they are written before they are read.
--
-- Not modelled: construction and destruction of sockets and the room client's instance, the
-- destructors of the decoders; the protobuf codec, libhydrogen, strtoul and the formats of
-- vsnprintf, and the operating system, which are parameters; the game's own pages and engine, the storage drivers, the loader, and the
-- vendored libraries. Logging has no part in the models.
pub mod Base
pub mod Bytes
pub mod CircularBuffer
pub mod ClientSettings
pub mod Decoder
pub mod DecompLoader
pub mod Exchange
pub mod Ghost
pub mod GlobalSettings
pub mod IniReader
pub mod MapFile
pub mod Net
pub mod Race
pub mod Room
pub mod Settings
pub mod Storage
pub mod YazEncoder
