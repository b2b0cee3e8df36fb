-- ===== src/Lib.antt =====
-- Synapt: a desktop launcher that searches local files and transfers files between paired devices.
-- This library models the Rust program under src-tauri/src and proves what its components promise.
--
-- The parts and the files that model them:
--   network/queue.rs        the queue of transfers shown to the user: Network/Queue. The Mutex
--                           around the vector makes each operation one step from queue to queue.
--   network/manual_pair.rs  invite codes (encode_invite, decode_invite): Network/Invite.
--   network/crypto.rs       frames, sealed messages, session keys, pairing codes: Network/Crypto.
--   network/mod.rs          messages over a stream and the session handshake: Network/Stream holds
--                           the reads and writes, Network/Session the two sides of the handshake.
--   network/transfer.rs     transfers of files: Network/Transfer holds the messages and the world in
--                           which an action runs, Transfer/Serve the side that has the files
--                           (is_path_allowed, serve_one_file, serve_batch), Transfer/Request the side
--                           that asks (request_transfer), Transfer/Retry the loop around it
--                           (request_transfer_with_retry, request_batch_transfer_with_retry),
--                           Transfer/Push the receiving of a pushed file (recv_pushed_file), and
--                           Transfer/Delivery what is on the wire.
--                           Transfer/Send pushes files to a peer (push_files, push_clip_file) and
--                           chooses what to do with a connection (handle_server_conn).
--   network/peer.rs         the pairing ceremony of two devices: Network/Pairing, with its messages
--                           and its steps in Network/Ceremony.
--   network/discovery.rs    the devices on the local network, and whom of them the user is told of:
--                           Network/Discovery.
--   network/search_server.rs  searches and launches for a peer: Network/RemoteSearch.
--   search/trie.rs          the tree of lower-cased file names with their frequencies: Search/Trie.
--   search/fuzzy.rs         the edit distance of two names (levenshtein): Search/Fuzzy; the
--                           Jaro-Winkler similarity and the matcher: Search/Fuzzy/Similarity.
--   search/bloom.rs         the Bloom filter: Search/Bloom.
--   search/calc.rs          the calculator: Search/Calc, with its grammar in Calc/Grammar.
--   search/engine.rs        the search of names, directories and extensions: Search/Engine, with
--                           the results and the helpers of its stages in Search/Ranked.
--   storage/db.rs           the tables of the database: Storage, with Rows for the row types,
--                           Devices for peers, settings and the identity, History for transfers,
--                           Catalog for files, directories and applications, and Lookup for the
--                           searches by a pattern.
--   trust/store.rs          the identity of this device and its trusted peers: Trust.
--   notify.rs               what the desktop notifications say: Notify.
--   ipc/server.rs           the requests of the local clipboard program: Ipc.
--
-- How they interact. trust/store.rs keeps the identity in the database and reads the peers that
-- storage/db.rs holds. A session (network/mod.rs) looks the initiator up among those peers, derives
-- a key with network/crypto.rs and exchanges frames. A transfer shows its progress in the queue and
-- keeps it in the history table, from which a later run resumes. The search engine feeds the tree,
-- asks the index, the database and the matcher, and orders what they find; the remote search server
-- answers peers from it. A pairing writes the peers that sessions look up; discovery keeps those
-- that are online, to whom the local server sends clips.
--
-- How the model is made. A text is the list of its code points and a byte is a number below 256.
-- Code that blocks on a stream is a function of the stream's state: the bytes received and not yet
-- read, and the bytes sent. A read past what was received is the error that the source reports when
-- a connection closes. Errors are values of the source's enums. Ciphers, digests, key agreement,
-- base64, the UUID parser, the JSON encoder, the full text index and the LRU cache belong to crates;
-- they are parameters, as are floating point numbers, random values and times, and the laws that are
-- used of them are fields beside the operations. Tables of the database are lists of rows in the
-- order of their ids; a statement that fails is the caller's matter. Recursion is on the structure
-- of a list, a tree or a number, and the descent in the tree of names goes by the letters of a key;
-- the rest has fuel. The loop that trims the queue gets as many rounds as there are entries. The
-- loops over the chunks of a file that is served or pushed get one round more than the file has
-- bytes, and the loop over the chunks that are received as many rounds as bytes are missing: each
-- round takes at least one byte. The scan of a text into tokens gets one round more than it has
-- characters, and the descent of the calculator three more than four times the tokens: between two
-- tokens it goes through at most four functions. Counts of bytes are numbers without a bound, since
-- no file reaches 2^64 bytes; their casts to the columns are written out.
--
-- The world of a transfer lists which of the next calls of the file system and the database fail, how
-- much the next reads of a file give, the times, the nonces and the connections. Files are known by
-- the path that names them, canonical paths come from a parameter, and opening anything but a file is
-- taken to fail. Files do not change while they are served. The notification of a completed transfer
-- is left out.
--
-- Not modelled: the desktop shell, the operating system and the user interface; the tantivy index;
-- the walking and watching of directories (search/indexer.rs) and the reading of desktop entries
-- (search/app_indexer.rs); the commands of the shell (commands.rs), which forward to the components;
-- the loops that accept connections; and the webhook of received clips (ipc/webhook.rs).
pub mod Prelude
pub mod Network
pub mod Search
pub mod Storage
pub mod Trust
pub mod Notify
pub mod Ipc
