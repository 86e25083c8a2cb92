-- ===== src/Lib.antt =====
-- NSLibrary: a server that keeps a library of game files and sends installs to consoles.
--
-- The development models the part of the server that talks to consoles: the install queue, the
-- event log that consoles poll, pairing, the plan of free space, byte ranges, the catalogue, and the
-- events that the web pages see; the frames of the USB transport; the sign-in to the web pages; title
-- IDs; the container formats of the library's files, and the verification of these files; and the
-- backups of saves with the archives that hold them.
--
-- Device
--   Space       packages/server/src/device/space.ts. `planSpace` is `plan_space`; the variables that
--               its closures change are the record `Room`. Children: Capacity, Targets.
--   Log         packages/server/src/device/events.ts. `DeviceEventLog` is `EventLog`; `append`,
--               `head`, `since` and `wait` keep their names, a timeout or an abort is `expire`, and
--               a promise is a waiter with a number. Children: Numbering, Delivery, Waiting.
--   Publisher   `#publishJob` of packages/server/src/device/service.ts: `publish_job`, a timer that
--               runs out is `fire`. Children: Entries, Newest.
--   Rows        the tables of packages/server/src/db/schema.ts that the device service uses.
--   Service     the state of `DeviceApiService` and what its calls share.
--   Jobs        the install queue. Create, Report and Queue hold the calls (`createJobs` is
--               `create_jobs`, and so on); Table, Calls and History the lemmas; Reports, Management
--               and Creation what each call does to the table; Lifetime, Interrupts, Access,
--               Places, Order, Listing and Returns the theorems.
--   Sample      a small library with one console, for the runs.
--   Pairing     `createPairingCode`, `pair` and `usbHello`. Child: Attempts.
--   Devices     `touch`, `renameDevice`, `revokeDevice`, `isOnline`. Child: Revoked.
--   Polling     `pollEvents` and the presence of a console. Children: Presence, Resync.
--   CheckSpace  `checkSpace`, the client of Space. Children: Answer,
--               Tables, with what an answer says of the tables, and Whole.
--   Catalog     packages/server/src/device/catalog.ts. `groupBy` is `group_by`, `toApp` is `to_app`;
--               the rows of the query are an argument. Children: Groups, Versions,
--               Pages, with the client that reads pages, and Read, where it reads the catalogue.
--   Range       packages/server/src/device/range.ts. Children: Numbers, Bounds, Forms.
-- Auth          packages/server/src/auth/auth-service.ts.
--   Limiter     `LoginRateLimiter`. Child: Fresh.
--   Sessions    `AuthService`. Child: Lifetime.
-- Library       packages/server/src/library.
--   Prefer      prefer.ts, which the catalogue uses. Child: Best.
--   Verify      verify-service.ts, with its shared entries and its queue. Children: Events, the methods
--               and the rounds of a task; Final.
-- Saves         packages/server/src/saves/service.ts: rows, archives and `#prune`. Children: Upload,
--               with `store`, which reads an archive by Formats/SaveArchive; Manage, the other methods;
--               Calls, a run of them; Intact, Archives, Kept, Retention and Restore, for proofs.
-- Formats       packages/formats/src. A buffer is a list of bytes, numbers below 256. A parser returns
--               `Parsed`: a value, a `FormatError`, or the RangeError of an access out of a buffer.
--   Binary      binary.ts. Child: Laws.
--   Reader      reader.ts. `BufferReader`, `ConcatReader` and `SliceReader` are `buffer_reader`,
--               `concat_reader` and `slice_reader`. Children: Access, Refine.
--   Partition   partition.ts, the parsers. Children: Build, with `buildPfs0Header`; Bounds and Safe,
--               for any bytes; Layout, Read and RoundTrip, for a header that was built.
--   Xci, Container, Cnmt, Ticket, Nro, Split   the files of these names. Children: Bounds, Entries,
--               Safe, Gaps.
--   SaveArchive save-archive.ts: headers and paths; its child Walk is `readSaveArchive`, whose fuel is
--               one more than the size of the reader. Other children: Ends, Plain, Safe, Inside.
-- Shared/TitleId  packages/shared/src/title-id.ts. Children: Digits, Written, Kinds,
--               FileName.
-- Shared/Types  packages/shared/src/device-api.ts, web-api.ts and errors.ts.
-- Shared/Frame  packages/shared/src/usb-frame.ts. Children: Bytes, RoundTrip, Limits.
-- Common        Boolean tests, lists, texts, maps, sorting, and results with a state.
--
-- A method that reads and changes the service is an `Action`: a function from the state to a result
-- and a state. An `ApiError` is `err` with its code, and what was written before it stays written,
-- as in JavaScript, except in a transaction. `clock` is what `now()` returns during a call. A table
-- is a list of rows in the order of their ids, and a JavaScript `Map` an association list. Hashes and
-- random texts are parameters. Numbers are natural: the source's ids, sizes and times are
-- non-negative integers below 2 ^ 53, and where it subtracts times the model compares sums. The event
-- log keeps 2000 events, as in the source. The loops of the source are recursion on a list or on the
-- number of rounds, save for two that have fuel: the client in Device/Catalog/Pages has a number of
-- requests, of which one more than there are apps is enough, and `read_save_archive` has one more than
-- the size of its reader.
--
-- Not modelled: the schemas' validation of requests (a third-party library), SQL itself, files,
-- sockets and promises as such, the user interfaces, the clean-up of expired pairing codes, and the
-- parts of the server that only move bytes or rows between them.
pub mod Common
pub mod Shared
pub mod Formats
pub mod Library
pub mod Auth
pub mod Device
pub mod Saves
