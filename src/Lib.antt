-- ===== src/Lib.antt =====
-- A verification library for Barry, a C++ library that speaks to BlackBerry devices over USB.
--
-- A packet from the device is read by the one reading thread of the socket router
-- (src/router.cc), which puts it in a buffer (src/data.cc) and hands it to the queue
-- (src/dataqueue.cc) or the handler of its socket. A socket (src/socket.cc) sends requests in
-- fragments, reads from its queue and joins fragments; socket zero opens the other sockets and
-- answers the device's password challenge. The PPP filter (src/pppfilter.cc) repairs the
-- stream that a modem client writes. The desktop mode (src/m_desktop.cc) reads the device's lists of
-- commands (src/r_command.cc) and databases (src/r_dbdb.cc), and loads, saves and changes records
-- with the packets that src/packet.cc builds; its device parser writes records into a device by the
-- record state table (src/r_recordstate.cc), which keeps the indexes of the device's records and
-- makes new record ids, and its device builder fetches records, which a pipe (src/pipe.cc) gives to
-- a parser. The raw channel mode (src/m_raw_channel.cc) carries bytes between a program
-- and an application on the device. The data of a record is a series of fields (src/record.cc), which
-- each kind of record parses and builds for itself: contacts (src/r_contact.cc), appointments
-- (src/r_calendar.cc), tasks (src/r_task.cc) and memos (src/r_memo.cc). The recurrence
-- (src/r_recur_base.cc) is part of appointments and tasks.
--
-- - Prelude passes on the libraries' names, and adds Boolean tests on numbers, lists with
--   native lengths and the Option monad.
-- - Data: the class Data, as its memory block with the position and size of the contents. Each of
--   make_space, get_buffer, release_buffer, assign, mem_cpy, append, prepend, prechop is the
--   function of that name; an access outside the block, or a memcpy between two regions that
--   overlap, is the answer `none`. Data/Space is about
--   MakeSpace, Data/Contents about the writing operations, Data/Release about ReleaseBuffer.
-- - Protocol and Protocol/Command: the packet layout of src/protostructs.h, the checks of
--   src/protocol.cc and the command codes of src/protocol.h. A packet is its list of bytes.
-- - DataQueue: the queue, whose waits are given the pushes of other threads and their wake-ups;
--   DataQueue/Laws.
-- - Router: the state of SocketRoutingQueue and its client operations; Router/Table the map by
--   socket; Router/Reading the function DoRead with QueuePacket and RouteOrQueuePacket;
--   Router/Invariant, Sound and ReadSound the invariant; Router/System the threads as a step
--   relation; Router/Delivery and Router/Order what becomes of a packet.
-- - Socket: Socket/Fragment is AppendFragment, MakeNextFragment and DBFragSend, Socket/Transfer
--   the loop of SocketBase::Packet, Socket/Pieces and Socket/Defragment put them together.
-- - SocketZero: raw sends and receives with the device as a script of results,
--   SocketZero/Requests is SendOpen and SendPasswordHash, SocketZero/Opening is Open,
--   SocketZero/Costs and SocketZero/Tries count the passwords that are sent, and
--   SocketZero/Settled is about the password mode after Open.
-- - PppFilter: PppFilter/Frames is about the loop, PppFilter/Fits about its buffer.
-- - RecordState: the table of src/r_recordstate.cc, RecordState/Fresh is about MakeNewRecordId,
--   RecordState/Parsing about Parse.
-- - Protocol/Operation and Protocol/Numbers: the database operations, and little-endian numbers.
-- - FieldLoop: the loop over the fields of a block that the parsers of lists share.
-- - CommandTable and DatabaseDatabase: the two lists, with CommandTable/Parsing,
--   DatabaseDatabase/Field and DatabaseDatabase/Parsing about their Parse.
-- - DbPacket: the builders and accessors of the class DBPacket; DbPacket/Requests reads them back.
-- - Desktop: the world of the mode and its calls, with the socket as a script of answers;
--   Desktop/Opening is OnOpen, Desktop/Records the calls about one record, Desktop/Loading DBLoader
--   and LoadDatabase, Desktop/Saving ClearDatabase and SaveDatabase. Desktop/Exchange,
--   Desktop/Loading/Rounds and Desktop/Saving/Packets are about one exchange of packets,
--   Desktop/Loading/Collect and Desktop/Saving/Saved about the whole calls.
-- - DeviceParser: the class of that name in src/m_desktop.cc, and DBDataBuilder; DeviceParser/Calls
--   and DeviceParser/Keeps are about the modes that only add to a device.
-- - DeviceBuilder: the class of that name, and PumpEntry, PumpSeries and PumpFile of src/pipe.cc.
-- - JavaLoader: SendStream of src/m_javaloader.cc with the builders of JLPacket;
--   JavaLoader/Stream is about what the device was sent.
-- - RawChannel: the state and the handlers of the mode, RawChannel/Transfer Send and Receive;
--   RawChannel/Pending is about its errors, RawChannel/Interest about its interest in socket zero,
--   RawChannel/Carries about both ends together.
-- - Recurrence: RecurBase and the times of src/time.cc; Recurrence/Rules is what a recurrence says,
--   Recurrence/Parsing carries it over.
-- - Fields: the fields of a record, ParseCommonFields of src/record-internal.h and the builders of
--   src/record.cc; Fields/Categories is CategoryList, Fields/Text, Fields/Recurring and
--   Fields/Address what several records do with texts, times and addresses. Fields/Building is
--   about BuildFields in its buffer, Fields/Reading about the loop, Fields/Categories/Ends about that over categories, and Fields/Categories/Tokens,
--   Fields/Sharing, Fields/TimeReading and Fields/AddressReading about what is read of what was
--   written.
-- - Memo, Task, Calendar and Contact: take_field is ParseField of a field within its bounds,
--   parse_fields ParseFields, fields and build BuildFields. Their children are about ParseFields
--   of what BuildFields wrote: Memo/Parsing; Task/Parts and Task/Parsing; Calendar/Stages,
--   Calendar/Specials and Calendar/Parsing; Contact/Table, Contact/Parts and Contact/Parsing.
--   Contact/Links has the link table of a contact, its dates and its group links.
-- - TimeZones: the table of src/time.cc and its searches.
-- - Examples: concrete runs.
--
-- Numbers that the code keeps in a byte, a uint16_t, a uint32_t or an unsigned int wrap around
-- where the code computes with them on input that can be that large (`todo_from`, the sequence
-- numbers, the record ids, the prepend space of the PPP filter), and a size that is handed to
-- ReleaseBuffer, or joins two fragments, is converted to an int; the sizes of blocks are unbounded.
-- The search for a new record id has one
-- round more than there are states as fuel. The loop of DBFragSend has the packet's length as fuel,
-- and the loops of the filter and of the table's parser the length of their input; each round takes
-- a byte at least. LoadDatabase has the answers of the device as fuel, since each round takes one,
-- PumpSeries and PumpFile these answers and the databases, the lists' parsers their length, and
-- SendStream the size of the module, of which each round takes a byte at least. The loop over the
-- fields of a record has one round more than there are bytes, of which each takes three at least,
-- and the search for categories one more than there are characters. What handlers do in
-- DataReceived and Error is a parameter, and so is SHA-1; for the modes, so is what each exchange
-- of packets with the device ends with, and for the records the conversion of texts, which is done
-- by iconv, and the format of dates, which is done by the C library.
--
-- Not modelled: hex dumps, the start and end of the reading thread, Close and the Socket objects,
-- the opening of a mode, the templates over record types, the filters of src/parser.cc, the other
-- modes and the rest of JavaLoader, the other record types (messages, SMS, call logs, bookmarks,
-- folders, service books and time zone records) and the field handles of all of them, COD and
-- backup files, and the programs around the library; USB access itself is external. Timeouts of
-- single calls, the text of errors and the log are left out.
pub mod Prelude
pub mod Data
pub mod Protocol
pub mod DataQueue
pub mod Router
pub mod Socket
pub mod PppFilter
pub mod SocketZero
pub mod FieldLoop
pub mod Fields
pub mod Memo
pub mod Contact
pub mod Task
pub mod Calendar
pub mod TimeZones
pub mod RawChannel
pub mod JavaLoader
pub mod RecordState
pub mod Recurrence
pub mod CommandTable
pub mod DatabaseDatabase
pub mod DbPacket
pub mod Desktop
pub mod DeviceParser
pub mod DeviceBuilder
pub mod Examples
