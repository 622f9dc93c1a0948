-- ===== src/Lib.antt =====
-- The core of iroh-drop, a library for dropping files among peers: crates/iroh-drop, with presence and
-- collections of two crates above it, as definitions that can be run, and theorems about them.
--
-- The peers of a topic gossip signed messages: an offer of a blob, the announcement or withdrawal of a
-- provider, a request for providers, an extension. A session decodes what arrives, charges the peer
-- that delivers it, drops replays, retains the frame, and applies the body to its state; an offer may
-- start a fetch. A peer that joins pulls the retained frames from others and replays them through the
-- same handler.
--
-- Files, and the code that they model (paths below crates/iroh-drop/src):
--   Message, Error    message.rs, error.rs: the messages and the errors, as data.
--   Frame             message.rs: MessageV1::encode and decode, the verification of a signature.
--   Name              message.rs: validate_body, validate_name, collision_safe_path.
--   Hash              hash.rs: the hex forms of a blob hash.
--   Seal              seal.rs: the keys of a private drop, the proofs of possession, and the frames:
--                     sealed, relayed and opened.
--   Ticket            ticket.rs: DropTicket, its bounds and its printed form.
--   Dedup             state.rs: DedupCache, the replay cache.
--   SyncLog           state.rs: retain_frame, retain_unknown_frame, sync_frames, and the paging of
--                     session.rs: export_history.
--   State             state.rs: DropState, its offers with quotas and eviction, its known peers, and
--                     find_offer.
--   Provider          provider.rs: ProviderSet.
--   Limits            limits.rs: PeerRateLimiter.
--   Policy            policy.rs: DropPolicy::check_auto_fetch and the decision hook.
--   Sync              sync.rs: the serving of pages and the catch-up.
--   Session           session.rs: handle_message, handle_offer, handle_request,
--                     handle_transport_event, maybe_sync_from_neighbor, restore_history,
--                     decode_for_session, broadcast, broadcast_signed, send_extension, on_extension.
--   Fetch             session.rs: fetch and what it calls: download_attempt, mark_complete, export.
--   Publish           session.rs: publish_bytes_with, finish_import_with.
--   Presence          crates/iroh-drop-presence/src/lib.rs: announce, subscribe, decode.
--   Collection        crates/iroh-drop-sdk/src/collections.rs: fetch_any_reporting, read_manifest and the
--                     checks of names and paths.
--   Prelude, Text, Map, Sort, Run are helpers: strings, hash maps as association lists, sorting, and
--   steps that emit events and may fail; Serial is a toy serialization for the tests.
-- A file X.antt holds the definitions, X/ what is proved of them, X/Tests.antt runs and instances.
--
-- A state is a record with the source's fields; a method that changes it returns it. A method that
-- reads a clock takes the reading. Instants are numbers of nanoseconds, endpoint and frame ids the
-- numbers that their bytes spell, blob hashes lists of bytes, texts lists of code points. Where a
-- handler acts on the outside (an event, a fetch, a frame to send) it returns what it does.
--
-- Bounds and fuel. The loop of export_history has one round more than there are frames, that of a
-- catch-up one more than its page budget. Counters of the session wrap at 2^64 as atomics do. Tokens of
-- a rate limiter are whole billionths, where the source has f64. The client of a catch-up reads at most
-- MAX_RESPONSE_BYTES of an answer; what a peer answers, or that it does not, is an argument.
--
-- A step of a fetch has the state, emits events and returns or fails. Where it waits or downloads, other
-- handlers run: what they do to the state there is an argument, as is every answer of the store, the
-- downloader and the disk. Its loop has three rounds, as in the source. While a blob that has arrived is
-- marked, announced and exported, nothing else changes the state but the sending.
--
-- A path is a list of names below the destination; links that are on the disk already are not followed.
-- What a fetch of a member does, for a collection, is a parameter.
--
-- Parameters: hex encoding and base32 (data_encoding), HKDF, HMAC and the cipher, postcard, UTF-8,
-- ed25519, the addresses of iroh, the blob store, JSON, the output directory, the answers of a peer. Their
-- laws, where a theorem needs them, are records named in its hypotheses: Frame.Laws,
-- Seal.RoundTrip.IsAead, Presence.Heard.IsUtf8, Ticket.Printed.IsBase32, Fetch.Outcome.IsSending,
-- Sync.Complete.IsCodec. The handlers of a session take the decoding of a frame as an argument, which
-- Session.Broadcast.decode_for_session fills.
--
-- Not modelled: the transport and the blob store; the builder; the publishing of files, the withdrawal and
-- the shutdown of a session; the publishing of a directory; the other crates (daemon, the rest of the
-- SDK and the user interfaces).
pub mod Collection
pub mod Dedup
pub mod Error
pub mod Fetch
pub mod Frame
pub mod Hash
pub mod Limits
pub mod Map
pub mod Message
pub mod Name
pub mod Policy
pub mod Prelude
pub mod Presence
pub mod Provider
pub mod Publish
pub mod Run
pub mod Seal
pub mod Serial
pub mod Session
pub mod Sort
pub mod State
pub mod Sync
pub mod SyncLog
pub mod Text
pub mod Ticket
