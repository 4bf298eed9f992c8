-- ===== src/Lib.antt =====
-- pond: an NBD server over a local cache of S3 objects, secrets and who may read them, and parts of
-- an initramfs.
--
-- The program's parts that are modelled, and how they interact. A client speaks the NBD protocol
-- to nbd/server: a handshake, a negotiation in which it chooses an export, and the transmission.
-- The export is a backend that reads at an offset; the one of nbd/s3 is a cache over a remote
-- object, made of a local file, a map of the chunks that are in it, and queues that limit the
-- connections to the remote storage. secrets/access decides who may read and write which secrets:
-- certificates grant capabilities over paths, and a table is loaded from those that a chain of
-- signatures from the master key stands behind. lib/bytepack serializes sequences of byte strings
-- for the secrets.
-- nbd/verity checks what the cache has read against the leaf hashes of a dm-verity tree. In the
-- initramfs, kmod loads kernel modules behind the modules that they depend on, and ldd finds the
-- libraries that a program needs; lib/sandbox keeps the output of the programs that it runs.
-- secrets/agent signs with a key that ssh-agent holds. lib/block fills marked sections of documents.
--
--   Bytepack    lib/bytepack. Utf8 has utf8.EncodeRune and bytes.Runes, as far as integer.go
--               uses them; Pack has Pack, Wrap and decodeHead; Unpack has Element and Unpack.
--   S3.Chunk    nbd/s3/chunk.go: the chunk map. The bitmap is a natural number (math/big), a
--               channel is its number and whether it is closed, a time is a number.
--   S3.Persist  nbd/s3/chunk.go: Save and openChunkMap. The steps of Save may fail one by one.
--   S3.Remote   nbd/s3/remote.go: the range that Reader asks for.
--   S3.Queue    nbd/s3/queue.go: one queue, with any number of goroutines, each step of which is
--               one select.
--   S3.Cache    nbd/s3/cache.go: fetch, ReadAt and bgFetchAll. Files are functions from offsets to
--               bytes. What the network answers is a parameter of each call; the remote object does
--               not change.
--   Verity      nbd/verity/verity.go: what Verify checks, and where the leaf hashes are. crypto/sha256 and
--               the reader are parameters.
--   Server.Conn nbd/server/proto_negotiate.go: send and receive, in a state monad with errors,
--               panics and exhausted fuel as results. A connection has the bytes that the client
--               sends, then ends; the client takes a number of bytes, then writing fails.
--   Server.Discard, Server.Handshake, Server.Negotiate
--               nbd/server/util.go and nbd/server/proto_negotiate.go. What a pooled buffer
--               holds, when the context is done, and the function that finds an export are
--               parameters.
--   Server.Session
--               nbd/server/server.go: serveNBD up to the transmission.
--   Server.Transmit
--               nbd/server/proto_transmit.go: the handler of NBD_CMD_READ. The backend is a
--               parameter that may fail in any call; io.ReaderAt's contract is a hypothesis.
--   Server.Dispatch
--               nbd/server/proto_transmit.go: the goroutines of transmission as interleaved steps. The
--               backend answers what it likes within io.ReaderAt's contract; a header is received in
--               one step, a payload is discarded in one, and sendError is one from lock to unlock. The
--               variable err of transmission is part of the state: it is assigned and tested in steps of
--               their own, whoever does it. Sources has what the client has sent, Runs the states that are reached.
--   Access      secrets/access: Certificate has capabilities.go and cert.go, Delegate has
--               delegate.go, Acl has acl.go and schema.sql. Keys are numbered; what the file of
--               each path is parsed to, ssh.CertChecker, SQLite's GLOB and the clock are
--               parameters, and no statement of the database fails.
--   Agent       secrets/agent/agent.go: Connection has the methods of Conn. What ssh-agent, the socket
--               and crypto/rand answer is a parameter, by the number of the question.
--   Repo        secrets/repo/search.go, with Clean, Join and Split of path/filepath for rooted paths.
--               Which files exist is a parameter.
--   Value       secrets/value/value.go: Sign and Verify. The keys of golang.org/x/crypto/ssh are a
--               parameter, and so is what crypto/rand gives.
--   Kmod        initramfs/kmod: modinfo.go, Walk and Load with modprobe.go. debug/elf, the directory,
--               filepath.Match and the kernel are parameters; a directory is rooted.
--   Ldd         initramfs/ldd/ldd.go: Paths has what it uses of path/filepath, Walk the recursive search.
--               debug/elf, the files and the machine's name are parameters. Socache has ldsocache.go.
--   Sandbox     lib/sandbox/output.go: a buffer's calls one behind the other, as its lock orders them.
--   Template    lib/block/template.go: Fill. What the markers' regular expressions find is a parameter.
--   Prelude     lists, tests, words, big-endian bytes and the bits of a natural number.
--
-- Numbers are natural numbers; int64 and uint64 wrap at 2 ^ 64 where the code adds or multiplies
-- them. Loops run on fuel: as much as the bytes that are left (discard, schedule), a round for each
-- 16 bytes of the client (negotiate), six calls for each chunk (bgFetchAll), three rounds for each
-- path (Search of secrets/repo), 32 rounds for each byte (NBD_CMD_READ, in which 30 errors in a row
-- precede a byte), a call for each rank of a module (Load of kmod), a call for each file (Search of
-- ldd), 64 layers (findFirstLeafHash), a round for each byte (Verify); theorems show for these that
-- it is enough, or that what a loop returns in time is right.
--
-- Not modelled: timers, the order in which goroutines are scheduled beyond what is said above, the
-- MinIO client, the file system below the named calls, TLS, logging, and the other parts of the
-- repository (the rest of initramfs and of lib/sandbox, metal-id, rootfs and the services of secrets).
pub mod Prelude
pub mod Access
pub mod Agent
pub mod Bytepack
pub mod Kmod
pub mod Ldd
pub mod Repo
pub mod S3
pub mod Sandbox
pub mod Server
pub mod Template
pub mod Value
pub mod Verity
