-- ===== src/Lib.antt =====
-- A verification development for rstorrent, a client of the rtorrent daemon: the pure policies of
-- the shared core crate and of its hosts, over what the daemon reports on each poll. Each tick the
-- host fetches the torrents (`Torrent`), asks the queue (`Queue`), the schedule (`Schedule`), the
-- mover (`Mover`, by the rules of `Complete`) and the bandwidth rules (`Bandwidth`) what to do, and
-- carries that out; the web server guards its callers by `Sessions`.
--
-- * `Base` has what the parts share: `i64` as an integer with its wrap-around and saturation
--   written out, `String` as the list of its code points, `HashSet` and `HashMap` as lists whose
--   order the program cannot see, the stable `sort_by`, and membership.
-- * `Torrent` is `RawTorrent` (crates/rtorrent/src/rtorrent/mod.rs).
-- * `Queue` is crates/rtorrent/src/queue.rs: `decide_queues` is the composition of the windows
--   (`wanted`), of the memory (`remember`) and of the verdict loops (`verdict`). A loop over a
--   vector is a recursion on the list, `&mut QueueMemory` is passed and returned. `sort_by` is an
--   insertion sort, which is stable as the standard library's is.
-- * `Reorder` is the manual reorder of the same file, `plan_reorder`, with `force_toggle_value`. The
--   closures' captured state goes through the rounds of each loop.
-- * `Schedule` is crates/rtorrent/src/schedule.rs: `evaluate` over the weekly grid, `next_change`
--   with the boundaries it looks at in `Schedule/Boundaries`, and in `Schedule/Held` the hashes that a
--   pause window holds. The local time is an argument.
-- * `Types` is the snapshot's part of crates/rtorrent/src/types.rs, and `Delta` is
--   crates/rtorrent/src/delta.rs: `diff` on the host, `apply` on its clients. A `HashMap` that is
--   collected from rows is an association list, in which a later row replaces an earlier one.
-- * `ErrorKind` is crates/rtorrent/src/rtorrent/error_kind.rs, and `Derive` is
--   crates/rtorrent/src/rtorrent/derive.rs with crates/rtorrent/src/snapshot.rs: what a row and the
--   globals show of the daemon's report.
-- * `Server` is the web server's state, server/src/state.rs. `Server/Poll` is server/src/poller.rs: a
--   poll takes in the daemon's answers (`take_in`), decides the queue and publishes a snapshot
--   (`publish`); `Server/Api` has the answers of server/src/api.rs to `GET /api/state` and `GET
--   /api/delta`. `Server/Trace` puts polls, failures and requests into sequences. serde_json and the
--   hash of the ETag are the parameter `Wire`. The other routes, the moves' tasks and the waiting of
--   the loop and of idle requests are not modelled.
-- * `Tags` is crates/rtorrent/src/tags.rs, `Duplicates` crates/rtorrent/src/duplicates.rs.
-- * `Scgi` is the frame of a request and the split of a response in
--   crates/rtorrent/src/rtorrent/scgi.rs, on bytes; the sockets are not modelled.
-- * `XmlRpc` is the values and the encoder of crates/rtorrent/src/rtorrent/xmlrpc.rs, and
--   `XmlRpc/Decode` its decoder, on the events that quick_xml reports. `trimmed` is its option
--   `trim_text(true)`; the trim of a text, the reader of entities, base64 and the text of floats are the
--   record `Codec`. Where a function loops over events and calls
--   another that does, both are one recursion on fuel: a unit for each event, and one to start with.
-- * `Rss` is crates/rtorrent/src/rss.rs: `Rss/Episode`, `Rss/Quality` and `Rss/Match` judge an item,
--   and `Rss/Plan` is a pass of the engine. The crate `regex` and the Unicode case mapping are in
--   the record `Outside`. The parser of a feed's document, the fetch and the file of seen guids
--   are not modelled. The loop of `episode_key` has as many rounds as the title has characters.
-- * `Session` is crates/rtorrent/src/session.rs up to the plan of a restore, and `Import` its import
--   driver with the journal. The daemon, the disk and the clock of a run are a record of functions on a
--   state of the world, `Backend`. The crate `base64` and the parser of `.torrent` files are the
--   parameters `decode` and `read_info_hash`. The JSON form of manifests is not modelled.
-- * `Complete` is crates/rtorrent/src/complete.rs: destinations, collisions, free space, and in
--   `Complete/Journal` the journal of moves without its file.
-- * `Mover` is crates/rtorrent/src/mover.rs: the planning of a tick and the store of moves. The
--   execution of a move, which drives the daemon and the file system, is not modelled.
-- * `Bandwidth` is crates/rtorrent/src/bandwidth.rs: rules by label and tag, and the plan of a tick.
--   `carry_out` is what crates/gpui/src/policy.rs makes of an action where each call succeeds.
-- * `FileIndex` is crates/rtorrent/src/file_index.rs, the bounded index of file paths.
-- * `History` is `record` with its trimming in server/src/history.rs.
-- * `Sessions` is server/src/auth.rs: the token store with its file, and the login rate limiter. The
--   clock, the fresh token and the success of a write are arguments, the token's hash (SHA-256) is a
--   parameter. The password hash is third-party code and not modelled.
-- * `Selection` is the selection of crates/gpui/src/table_state.rs: clicks, keyboard moves, pruning.
--   An `isize` wraps at 64 bits. Where `extend_by` visits a hash set, the model visits it in the order of its list.
--
-- The Unicode `to_lowercase` and `to_uppercase` are the parameters `lower` and `upper`.
-- Arithmetic on `i64` is that of a release build: it wraps. `f64` is the parameter `Floats`.
-- Besides those of `XmlRpc` and `Rss`, the functions with a count of rounds are `first_free` and
-- `wait_rounds`, which have the source's own bounds of 999 suffixes and 300 polls, and
-- `digits_from`, whose rounds are more than the number has digits. Daemon I/O, sockets,
-- rendering, secrets and the file system are outside.
pub mod Bandwidth
pub mod Base
pub mod Complete
pub mod Delta
pub mod Derive
pub mod Duplicates
pub mod ErrorKind
pub mod FileIndex
pub mod History
pub mod Import
pub mod Mover
pub mod Queue
pub mod Reorder
pub mod Rss
pub mod Scgi
pub mod Schedule
pub mod Selection
pub mod Server
pub mod Session
pub mod Sessions
pub mod Tags
pub mod Torrent
pub mod Types
pub mod XmlRpc
