-- ===== src/Lib.antt =====
-- rockcast plays internet radio on the local sound device or on a Chromecast, and keeps favourites
-- and history in step with a RockServer account. This library models the parts of it in which a
-- wrong byte, a lost record or a stale event would be a fault: the wire format of the Cast channel,
-- the ring through which the relay hands a station's stream to its listeners, the cutting of AAC
-- streams into frames, the playback controller, the commands and states of device control, and the
-- personal data and its synchronisation.
--
-- Which file models what:
--   Cast/Proto.antt: src/cast/proto.rs, the protobuf messages of the Cast channel. `encode` and
--   `decode` are `CastMessage::encode` and `CastMessage::decode`; a buffer is a list of bytes and
--   an index into it; an addition that overflows `usize` is `panic`. `valid_utf8`
--   (Cast/Proto/Utf8.antt) is the test of `String::from_utf8`.
--   Relay/Fanout.antt: src/relay/fanout.rs, the ring between the feeder of a stream and the clients
--   of the relay. Each operation is the code's under its mutex, as a function of the state;
--   `read_at` goes through the states that it finds when it wakes up. Relay/Fanout/Client.antt
--   interleaves pushes and reads as a step relation.
--   PersonalSync.antt: the wire types of src/personal_sync/contract.rs. PersonalSync/Diff.antt and
--   PersonalSync/Chunks.antt: `diff`, `matched_to` and `chunk_requests` of
--   src/personal_sync/state.rs. PersonalSync/Engine.antt: `sync_once`, `deliver` and
--   `retry_backoff` of src/personal_sync/engine.rs; the channel trait of
--   src/personal_sync/transport.rs is the record `SyncChannel`, which the cycle takes as an
--   argument, with the channel's state passed along.
--   PersonalData.antt and PersonalData/SyncApply.antt: the records of src/personal_data/records.rs
--   and the two loops of `apply_incoming_records` in src/personal_data/sync_apply.rs, written once
--   over what they differ in. PersonalData/Favourites.antt and PersonalData/History.antt: the
--   operations of `PersonalDataStore` in src/personal_data/mod.rs, the clock's and the file
--   system's answers given; PersonalData/Resolver.antt: `CatalogResolver` of records.rs, whose loop
--   has one round of fuel more than there are tombstones; PersonalData/Remap.antt:
--   `remap_legacy_station_ids`.
--   Playback.antt: the controller of src/playback/mod.rs, with the phases and events of
--   src/playback/phase.rs. Playback/Job.antt: what its workers do, as functions of what they
--   observe, giving the calls and the events in order. Playback/Machine.antt: commands, workers'
--   events and polls interleaved as a step relation; the commands of a run are fewer than 2 ^ 64.
--   Audio/Icy.antt: `IcyStreamReader` of src/audio/decode/icy.rs, against a layout of the stream
--   that Audio/Icy/Strip.antt gives byte by byte; the source is the sequence of what its reads
--   meet, and the stop flag is not set. Audio/Adts.antt: `AdtsStreamReader` of
--   src/audio/decode/live/adts.rs with `find_adts_sync` of src/audio/format.rs; the source of the
--   bytes is the sequence of what the refills meet.
--   DeviceControl.antt and its child modules: src/device_control.rs and src/device_control/.
--   Protocol has the commands and the checks of protocol.rs on a frame, whose readings by serde are
--   given; Book has `CommandBook`, with one turn for each time its lock is held; State has the slot
--   of the latest state and what a connection sends of it; Worker has the rounds of `run_worker`;
--   Receivers has the cache of output.rs. The parser and the writer of time stamps, the ids of
--   `Uuid::new_v4` and the socket's errors are arguments.
--   Session.antt: the renewal of the access token in src/session/client.rs, with the credentials of
--   src/session/types.rs. The storage is what it holds and the errors that it makes.
--   Cast/Channel.antt: src/cast/channel/mod.rs and src/cast/channel/recv.rs. The stream is a list
--   of bytes and lulls, a lull is a read that times out; of the logging it has `short_payload`,
--   which can panic, at the log level that main sets by default; `receive_find`
--   (Cast/Channel/Receive.antt) takes a list of looks at the flag and the clock, one for each
--   round, so that it ends when they are used up.
--   Stations.antt: src/stations. Stations/Catalog.antt is `stations_from_document` and what it
--   calls, Stations/Catalog/Snapshot.antt `catalog_snapshot` with the resolver and the check of the
--   built-in catalogue, Stations/Sha256.antt `sha256_hex`, whose loop of padding has fuel for 64
--   rounds, one more than it needs, Stations/Order.antt `order_stations`, and Stations/Codec.antt
--   `infer_codec` and `content_type`. A panic is the error `panicked`.
--   Remote.antt: src/app/actions/playback.rs with the ends of commands in src/app/actions/poll.
--   Remote/Plan.antt is `plan_remote_command`, Remote/Controls.antt `play`, `stop` and the choice
--   of stations and devices, Remote/Carry.antt the branches of `poll_device_control_commands`, and
--   Remote.antt that loop, the pending command and the pending scan. `Desk` and `Player` are fields
--   of `RockCastApp`; a `Moment` is what a round finds outside them.
--   Voice.antt: src/voice/rank.rs, `rerank_voice_candidates` in Voice/Rank.antt and
--   `clean_voice_query` in Voice/Query.antt.
--   Prelude.antt and its child modules: numbers, bytes, words and lists that the others share.
--
-- How the parts interact: the engine's cycle takes its requests from the chunks of the diff. What a
-- cycle pulls goes to `apply_all` of the personal data. The controller's workers start and stop the
-- relay and the players, which are parameters there. The commands of device control wait in its
-- book until the user interface takes them. The favourites are remapped through the resolver. The
-- catalogue is what the resolver is made from, device control's book is where the player takes its
-- commands, and the Cast channel carries the codec's messages. The ring stands alone: the relay's
-- feeder and server, and the Cast client, are their callers.
--
-- Bounds and fuel. Words of 64 bits wrap where the source's do; revisions and retries stay at their
-- maximum, as `saturating_add` does. `write_varint` has 9 rounds, since a 64-bit number has at most
-- 10 groups of 7 bits. `decode` runs on as many rounds as the buffer has bytes, each of which reads
-- at least one. `slice::chunks` runs on as many rounds as there are elements.
--
-- Taken as parameters: the clock behind a tombstone's time stamp, the equality and the push form of
-- a record (the record `Synced`), the server behind a channel, JSON values, the readers and texts
-- of serde, `to_lowercase` and `is_alphanumeric`, the joining of paths, what is read of a file,
-- whether one can be written, and the time crate's parser and writer of time stamps. A hash map or
-- a hash set is a list of its entries. Uuids are numbers.
--
-- Not modelled: threads, sockets, sound devices, files, the user interface, and the other parts of
-- the program: the files of the personal data and their migration, audio decoding, the handshake
-- and heartbeats of device control, TLS and discovery of the Cast client, icons, the recording and
-- sending of speech, pairing and the account's pages.
pub mod Prelude
pub mod Cast
pub mod Relay
pub mod PersonalSync
pub mod PersonalData
pub mod Playback
pub mod Audio
pub mod DeviceControl
pub mod Session
pub mod Stations
pub mod Remote
pub mod Voice
