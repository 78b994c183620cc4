-- ===== src/Lib.antt =====
-- The SSH transport of this repository: ssh-transport/src/lib.rs and ssh-transport/src/known_hosts.rs.
--
-- `connect` dials a target, if need be through a chain of hops, checks each host key with the app's
-- verifier, authenticates, opens a PTY and a shell and pumps the shell's messages into the app's event
-- sink. Commands, forwarded channels and SFTP hang off the session. `known_hosts` has the fingerprint
-- of a host key and the test that a blob is one.
--
-- The files, with what they model:
--   Base        shared names, Boolean tests, lists and strings as bytes, Rust's UTF-8 check.
--               Children of Base/Utf8: Scalars and Decoding (the check against Unicode),
--               Joining (texts put together).
--   KnownHosts  known_hosts.rs: `base64_encode`, `blob_fingerprint` and `is_plausible_blob`. Children:
--               Base64 (the encoder against RFC 4648, and a decoder), Fingerprint, Families, Plausible,
--               Wire (the blobs that its tests write).
--   Russh       what lib.rs sees of the crates russh and russh-sftp: messages, calls and replies.
--   Outcome     `SshSpikeError`, and the monad of the operations: a result is a value, an error, a panic
--               or a wait that never ends, and each call of the library is put on a history. Child:
--               Errors (kinds of failure), Expect (`expect` and `assert` of tests).
--   HostKey     `ProbeHandler::check_server_key`. Child: Verified.
--   Connect     `connect_inner`, `transport_config`, `map_connect_error`, `authenticate`: `dial_loop` is
--               the loop over the dial list, `dial_hop` its body up to the connection, `open_shell`
--               and `open_session` what follows it. Children: Steps (what a handshake adds to the
--               history), Credentials, Trace (the calls of a dial, hop by hop), Connections,
--               Panics, Failures (a refused key), Attribution (what can fail to authenticate).
--   Channel     `SshSpikeChannel`: read, write, eof (here `send_eof`) and disconnect. Child: Reads.
--   Pump        `pump` and `SshSpikeEvent`. Child: Events.
--   Session     `SshSpikeSession`: exec, write, resize, disconnect, `direct_tcpip_banner`,
--               `open_direct_tcpip`, the remote forwards and `sftp_open`. Children: Exec and Output (a
--               command), Banner (the probe), Texts (bytes as text), Errors,
--               Closed (the operations after disconnect), Teardown (the tasks that disconnect spawns),
--               Lifetime (from the dial to the teardown), Locks (the mutexes: what operations that run
--               side by side keep, that they go on and end, and what one that gets no reply holds up).
--   Sftp        `SshSpikeSftp` and `SshSpikeRemoteFile` (its read and write are `read_chunk` and
--               `write_chunk`), `sftp` and `sftp_read` of the session. Children: Remote (streaming
--               reads), Files (what opening and writing ask of the server), Listings, Store (a server that
--               keeps files), Uploads, Staged, Downloads and Streams (transfers to and from such a
--               server), Errors.
--   Forward     `ForwardRouter` and `server_channel_open_forwarded_tcpip`. Child: Order.
--   Entry       how the app enters: `runtime().block_on`, `lock().unwrap()` and poisoned mutexes around
--               `connect` and the operations of a session. Children: Clean (each entry and its body),
--               Worker (callbacks on a thread of the runtime), Pipes (the same for channels and files, in
--               Threads, and the sink of the tests that echoes, in Echo and RoundTrip).
--   Clients     tests that dial, as clients that panic at a failed `expect` or `assert`
--               (`Outcome.Expect`). Dialling: the tests whose dial must fail (Rejected, FailingHop), and the
--               one that looks at what the verifier saw (Verifying).
--   Examples    a world in which the theorems are applied, and their runs.
--
-- The parameters. The crates russh, russh-sftp and sha2 are not in the repository. Their replies are
-- functions of the history, arbitrary ones, so that a theorem holds for every network and server; what
-- a channel delivers is a finite list of messages that ends in the end of the transport or in silence,
-- and a message carries one mark for time, whether it is more than 300 ms late. What is relied on is
-- named: `IsDigest` (a digest is 32 bytes), `ChecksKey` (a handshake that gets far enough shows the key
-- to the check once and goes by the answer), `ShowsWireKeys` (the same, of keys that are encoded as
-- RFC 4253 and OpenSSH say), `Serves` (an SFTP server returns a file's bytes in order),
-- `KeepsFiles` (an SFTP server does to its files what the calls that succeed ask for), `Reads` (it
-- lets a file that is there be read from its cursor on, also while another one is closed).
--
-- Choices. `Session`, `Channel` and `Sftp` have what an operation does on the runtime and under its guard;
-- `block_on` and `lock().unwrap()`, with their panics, are added in `Entry`. Objects of the libraries are numbers. A spawned task is the list of its calls, each awaited
-- without limit or for some seconds; two tasks are any interleaving of their calls. Mutexes are the
-- fields of a record, and an operation runs alone, but for `Entry`, where they can be poisoned, and for
-- `Session.Locks`: there each operation is the list of its lockings, tests and calls, and any number of
-- them take turns. A text is the list of its UTF-8 bytes, a port or a size a natural number, and
-- `as i64` is written out. No operation of the source needs fuel: its loops recurse on the messages or
-- on the dial list. `display` prints at most 20 digits, enough for 64 bits; the clients' loops
-- `drain`, `read_to_end`, `read_beside` and `first_chunk` have fuel, and their theorems say how much
-- is enough.
-- `to_lowercase` is that of ASCII, as the names of russh's `AlgorithmKind` are.
--
-- Not modelled: tokio and its scheduling (`runtime`; whether a thread may enter it is the parameter
-- `enters` of `Entry`), the app's callbacks beyond their answers, endless streams of messages, and the
-- tests that go by the output or the files of a real server. In `Clients` no test ends with
-- `session.disconnect()`, and whether the servers are up (`matrix_ready`) is left out. The loops of the
-- clients that stream a file are in `Sftp`; the other steps of these tests are not modelled.
pub mod Base
pub mod KnownHosts
pub mod Russh
pub mod Outcome
pub mod HostKey
pub mod Connect
pub mod Channel
pub mod Pump
pub mod Session
pub mod Sftp
pub mod Forward
pub mod Entry
pub mod Clients
pub mod Examples
