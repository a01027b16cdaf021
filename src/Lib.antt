-- ===== src/Lib.antt =====
-- SubaSync: a peer-to-peer client that mirrors directories between nodes.
--
-- The program's core is the class PeerManager (src/peer_manager.hpp, src/peer_manager.cpp): the table
-- of peers, the registry of directories, the shared files, and the requests that wait for an answer.
-- A file is fetched from several peers at once by run_swarm_download (src/swarm_downloader.cpp),
-- which asks a peer for a chunk through PeerManager::request_file_chunk; the peer answers it in
-- PeerManager::handle_message. The parts and the files that model them:
--
--   Prelude        shared types and lemmas: native numbers, byte strings, association lists
--   Text           std::string, <cctype>, std::to_string and std::stoi
--   Paths          normalize_relative_path, is_internal_path, and std::filesystem::path on POSIX
--   Hex            hex_from_bytes (src/utils.cpp), generate_directory_guid
--   Json           nlohmann::json, as an interface
--   Peers          peers_, connections_, in_progress_connects_: add_peer_discovered, on_connected,
--                  on_disconnected, attempt_connect_more (Peers/Dial), the recipients of a broadcast
--   Directories    path_to_dir_guid_, dir_guid_to_path_, dir_guid_origin_: registering a hierarchy,
--                  ensuring, resolving, replacing and removing a GUID
--   Shares         shared_files_by_hash_, path_to_hash_: register_local_share, the lookups, and
--                  local_listing_items_for_path (Shares/Listing)
--   Requests       the pending handlers of list and chunk requests, handle_list_response, and
--                  request_hash_listing_all with its loop over the peers (Requests/HashListing)
--   Chunks         the branches file_chunk_request and file_chunk_response of handle_message
--   Messages       handle_message (Messages/Dispatch) with the other branches (Messages/Handlers), and
--                  the documents of src/protocol.cpp and of PeerManager
--   Connection     the write queue of src/connection.cpp, with any number of writes under way and with
--                  write errors
--   FileIndex      src/file_index.cpp
--   Settings       SettingsManager (src/settings_manager.hpp): the table of settings, conversion,
--                  and the file (Settings/Files)
--   CommandLine    CommandLineParser (src/command_line_parser.cpp), which fills the settings
--   Cli            src/MeshCLI.hpp: parse_list_command and the labels of sources; the queue of
--                  conflicts (Cli/Conflicts), the ignore rules (Cli/Ignore), the commands on them, and the
--                  lookups and preferences of watches (Cli/Watches)
--   Engine         MeshEngine (src/mesh_engine.cpp): starting and stopping
--   Swarm          run_swarm_download: its state and closures, the workers as steps (Swarm/Worker),
--                  the start and the answer (Swarm/Setup)
--
-- State and steps. Each operation of PeerManager holds the mutex over its state, so it is a function
-- of the state; histories are lists of operations (Peers/State, Directories/Calls, Requests/Calls).
-- Where a function releases the mutex and takes it again, what may have changed is an argument
-- (`later` of Requests.request), or each locked part is a call of its own (`registers`, `replaces` and
-- `enters` of Directories/Calls, the last one for ensure_directory_guid). The workers of a download
-- are phases between two blocks of code under a lock, and a schedule, a list of actions, says who
-- moves and what the callbacks answer; a wait on a condition variable is a step that is not possible.
--
-- The conflicts and the ignore rules of MeshCLI stand under two mutexes that functions take while they
-- hold them; there a lock is a test of a flag in the state, and a lock that is held already is the
-- result `blocks` (Cli/State).
--
-- Numbers. Sizes, offsets and counters are native numbers; the wrap of 64-bit offsets and request
-- counters and of the cast to a 16-bit port is written out. Only std::to_string runs on fuel, one
-- more than the number, which has no more digits than that.
-- An unordered map is a list whose order is the order of iteration, so theorems hold for each order.
-- The loop that draws a GUID until it is new consumes a list of draws, and returns `none` where the
-- list runs out; Directories/Supply shows how many are enough.
--
-- Parameters. SHA-256 (OpenSSL), base64, the disk and the random numbers are arguments of what uses
-- them; a theorem that needs decoding to undo encoding says so among its hypotheses.
--
-- Not modelled: sockets and threads (asio), logging, the progress meter, the document of a chunk
-- request, reading and dialling in src/connection.cpp, the accept loop and the timer tick of
-- src/mesh_engine.cpp, of src/MeshCLI.hpp the commands that synchronise files,
-- run and edit watches and manage GUIDs, and the programs under tests. base64.cpp is a copy of another project's
-- library.
pub mod Prelude
pub mod Text
pub mod Paths
pub mod Hex
pub mod Json
pub mod Peers
pub mod Directories
pub mod Swarm
pub mod Shares
pub mod Requests
pub mod Chunks
pub mod Connection
pub mod FileIndex
pub mod Settings
pub mod CommandLine
pub mod Cli
pub mod Messages
pub mod Engine
