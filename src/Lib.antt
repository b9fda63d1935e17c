-- ===== src/Lib.antt =====
-- secretov keeps secrets in one encrypted file, served to local clients by a daemon over a Unix
-- socket. This library models the store, the files under it, the daemon with its socket and framing,
-- the manifests and the registry with their checks and edits, the dotenv parser, the local backend,
-- the client with its commands, the input of secrets, and the text helpers of the terminal interface.
--
-- The program's parts and the modules that model them:
-- - src/paths.hpp, read_file_string and write_file_atomic: Files. A file is a path and its bytes, the
--   disk a function of the path. A whole-file write is a sequence of system calls, each of which may
--   fail, be interrupted or be short; their answers come from the platform. File modes, the umask and
--   symbolic links are not part of the disk.
-- - src/store.cpp, the header of the file: Header (put_u64_le, get_u64_le, Envelope,
--   read_common_header, the layout that persist writes). Bytes are natural numbers; a 64-bit integer
--   is a number whose bound is a premise where it matters.
-- - src/store.cpp, keys and payload: Keys (derive_kdf_key, unwrap, mint_data_key,
--   mint_fresh_envelope, decrypt_payload, persist).
-- - src/store.cpp and src/store.hpp, class Store: Store. The object is a record; an operation takes it
--   and the world and gives back both with its result or exception, so that what an exception leaves
--   behind is part of the model. Store.Session has the calls in sequence, Store.Create and
--   Store.Migrate the making of a store and the migration of a version-1 file, both over Store.Written.
-- - src/protocol.hpp: Protocol (Request, parse_request, the responses).
-- - src/daemon.cpp: Daemon (token_matches, dispatch, serve_connection) and Daemon.Startup (run_daemon
--   before the socket is bound). A connection is the list of lines that arrive, each with the clock at
--   that time and whether its reply can be written. Daemon calls Protocol for each line and Store for
--   each request, as serve_connection does. Daemon.Loop is run_daemon as a whole: the start, the
--   listener, and the loop over what accept gives. It runs on the list of the connections so far, so
--   what is proved of it holds at every point of the endless loop.
-- - src/transport.cpp, Connection::read_line and write_line: Transport, over the outcomes of each read
--   and send. Listener, connect_unix and unlink_if_same_inode: Transport.Listener, over what the path
--   of the socket names.
-- - src/manifest.cpp and src/manifest.hpp: Manifest. Manifest.Scopes has the keys of the store,
--   Manifest.EnvNames the names of variables (Manifest.EnvNames.Documented is the list of USING.md),
--   Manifest.Group (collect_group_members) and Manifest.Trust (require_trusted) the checks of who
--   can write a manifest, over a record of what the account database and the file system answer.
--   parse_manifest is Manifest.Document, above Manifest.Parse (the backend and its place),
--   Manifest.Entries (secrets and variables of an environment) and Manifest.Cloud (names and paths
--   of AWS and GCP). yaml-cpp is the record Manifest.Yaml, without laws: what is proved of the
--   parser holds for any library and any text.
-- - src/manifest.cpp, parse_dotenv: Manifest.Dotenv; manifest_with_entries: Manifest.Edit, above
--   Manifest.Blocks (find_child, insert_point, ensure_block) and Manifest.Lines (split_lines). An edit
--   ends with parse_manifest on its own result.
-- - src/manifest.cpp, read_manifest_text, load_manifest, find_manifest_upward and
--   require_creatable_manifest_dir: Manifest.Files, over the answers of a file system;
--   registry_project_root, registry_write_targets and expand_vars: Manifest.Registry.
-- - src/backend.cpp and src/backend.hpp: Backend (local_request, LocalBackend, open_backend). The
--   daemon client is the record Client of its requests; Backend.Stored gives one that is answered from
--   a store, as the daemon's dispatch answers.
-- - src/client.cpp, cmd_exec: Client.Plan (arguments, what is wanted), Client.Exec (the fetch through
--   Backend, and the child's environment) and Client.Exec.Command (the whole command). Which names setenv
--   refuses and whether execvp returns are parameters.
-- - src/client.cpp, DaemonClient: Client.Requests. An Exchange is what the system and the peer do on one
--   connection; the model gives the lines that leave the client with the result. Client.Requests.Served
--   puts the daemon's handler behind it.
-- - src/client.cpp, cmd_import: Client.ImportOptions (its arguments), Client.Import, on a record Server of
--   the requests that it makes, and Client.Import.Command (its status);
--   resolve_manifest, resolve_scope, resolve_target and parse_entry_args: Client.Resolve; the commands
--   get, set, list, delete, rotate and passwd: Client.Commands; init: Client.Init, with sodium_bin2hex as
--   a parameter. src/main.cpp: Main.
-- - src/paths.hpp, resolve_paths: Paths; read_secret_line and read_passphrase: Input.
-- - src/tui_edit.cpp: TuiEdit, with Columns (widths and cuts), Wrap (wrapped lines), Names (control
--   characters, names of keys, the copy sequence, with libsodium's base64 as a parameter), Cursor
--   (editing) and Rows (the tree of keys).
--
-- The code that is not part of the repository is a parameter, a record Platform of Platform.antt:
-- System (random bytes, locked memory, the outcomes of the system calls, error texts), Sodium (the
-- key derivation and secretbox of libsodium) and Json (nlohmann::json). What the code relies on is in
-- the records SodiumLaws (a box opens to what was put in it, and has its length; the limits are
-- ordered) and JsonLaws (a value that was printed parses back; the accessors read what the
-- constructors made). Tests.Platform and Tests.Json give a platform that runs and meets both.
--
-- Io.World holds the disk, the number of calls answered so far (so that two calls can have different
-- answers) and what was written to stderr. Prelude has texts as lists of bytes, maps as lists of
-- pairs, sorting and results.
--
-- Loops are structural recursions: on the answers of the system calls, on the connections and their
-- lines, on the bytes of a text. The cuts of TuiEdit.Wrap and of Manifest.Cloud (split_on) run on fuel, the
-- length of the text: each round takes at least one byte, and TuiEdit.Wrap.Lines and
-- Manifest.Cloud.Split prove that it is enough. The search of Manifest.Files upward runs on the length
-- of the directory, which parent_path shortens; Manifest.Files.Nearest proves that this is enough.
--
-- Simplified: a file that is on the disk opens and is read whole, and one that is not is absent (an
-- open, an access or a read that fails for another reason is not modelled); a path has one answer to the
-- queries for an access ACL; the socket's path changes only by the listener's own calls; and widths of
-- text are not negative.
--
-- Not modelled: that buffers with secrets are zeroed and locked; the time that the limits of a
-- connection take (a call that runs out is an answer of the system); the installation of the signal
-- handlers; the text of the usages and what import prints when it succeeds; and src/tui.cpp, which draws
-- the terminal interface and handles its events with the widgets of FTXUI (the functions that it calls
-- for its rows, texts and cursors are those of src/tui_edit.cpp, in TuiEdit).
pub mod Prelude
pub mod Platform
pub mod Io
pub mod Files
pub mod Header
pub mod Keys
pub mod Store
pub mod Backend
pub mod Client
pub mod Daemon
pub mod Input
pub mod Main
pub mod Manifest
pub mod Paths
pub mod Protocol
pub mod Tests
pub mod Transport
pub mod TuiEdit
