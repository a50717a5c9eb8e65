-- ===== src/Lib.antt =====
-- A model of the core of space-daemon: the background process that keeps a user's files in local Textile
-- buckets, mirrors them to a hub, and serves them to apps over gRPC and as a virtual drive.
--
-- The parts and their files.
--   * core/textile/sync, the synchronizer. Announcing calls (`NotifyItemAdded`, ..., here `Sync/Notify`)
--     put tasks (`Sync/Task`) into one of two queues (`Sync/Queue`), each worked off by a loop
--     (`Sync/Loop`) that executes a task itself or starts a goroutine for it. The executors
--     (`Sync/Executors`, with `Sync/Mirror`, `Sync/Pinning` and `Sync/Restore`) call buckets, the hub and
--     the thread database, which are the parameter `Deps` of `Sync/Deps`; they may enqueue further tasks.
--     `Sync/Machine` puts the two loops, their goroutines and the callers together: a run is a list of
--     choices of who takes the next step, so that a theorem on all lists holds for every interleaving of
--     these steps. `Sync/Held` says that a queue holds a task of a type with its arguments. `Sync/Stored` is
--     how the queues are kept over a restart, which the runs of `Sync/Machine` do not start with.
--   * core/textile/bucket: `Bucket`, the walk over the files of a bucket, and `Bucket/Files`, the operations
--     on one bucket over a client of buckets, without its lock.
--   * core/textile/bucket/crypto: `Crypto`, the encryption of the paths and the files of a bucket; the
--     ciphers, Base64 and the temporary files are the parameter `Ciphers`.
--   * core/textile/secure_bucket_client.go: `SecureClient`, the client of buckets that encrypts with
--     `Crypto` before it calls the client of the Textile SDK (the parameter `Network`, with the store
--     and the IPFS node); `SecureClient/Pulling` is how it reads a file. `SecureClient/Buckets` is
--     what a client of buckets promises, once as a law of the SDK's client on what it stores, and
--     once as a theorem of the encrypting client on what those who have the key see.
--     `SecureClient/Names` relates names and encrypted names, `SecureClient/Refines` is about
--     writing, `SecureClient/Cache`, `Caching`, `Races`, `Available` and `Pulls` about reading, where three
--     calls race.
--   * core/vault: `Vault`, keys kept by the vault service under a passphrase. core/backup and
--     core/space/services/services_vault.go: `Backup`, which puts the key pair of `Keychain` into a file
--     or into the vault, and imports it again.
--   * core/textile/hub/hub_auth.go: `Hub`, the tokens for the hub and their cache.
--   * core/textile/model: `Model`, the collections of the user's thread database with what is stored of
--     buckets, mirror files, received and sent files and shared keys. A collection of the database is the
--     parameter `Collection`, and `Model/Rows` says which rows its calls keep, add and find.
--   * core/textile/sharing.go and mailbox.go, and core/space/services/services_sharing.go: `Sharing`.
--     In it `Sharing/Mail` has the messages of the mailbox as notifications, `Entries` and `Members`
--     what is told of shared files, `Invites` and `Replies` the service of invitations, and `Links`
--     the files that are shared by a public link. It stores what was received in the collections of
--     `Model`. The hub, the mailbox, JSON forms, temporary files, zip and the encryption by a
--     password are the parameters `Textile`, `Mailbox`, `Space` and `Disk`. `Sharing/Received`,
--     `Accepted`, `Status` and `Shown` are about accepting invitations, `Resolved` and `Calls` about
--     sending them, `Sealed` and `Opened` about links.
--   * core/permissions: `Permissions`, the tokens of apps. core/keychain and
--     core/space/services/services_keypair.go: `Keychain`, where tokens and the key pair are stored; the
--     keyring, the store and the cryptography are the parameters `Devices` and `Cryptography`.
--   * grpc/auth: `Auth`, which calls of the API a token authorizes; it reads tokens from the keychain.
--   * core/space/fuse: `Fuse`, the controller of the virtual drive.
--   * core/sync: `OpenFiles`, the files that are opened outside of the app.
--
-- Conventions. `Outcome` has Go's errors as values, and a run-time panic as one of them. `Exec` has the
-- methods that change an object and may fail: what was written before an error stays written. Pointers
-- to tasks are positions in a heap, so that the queues, the map by ID and the goroutines share them.
-- Machine integers do not overflow here: counters of retries, goroutines and list elements are natural
-- numbers, and the only signed field, `MaxRetries`, is an integer. Texts are those of the language, and
-- the texts of numbers and times are parameters; encoding/hex, strings.Split and the functions of the
-- package path are written out in `Prelude`.
--
-- Steps and bounds. One step of a loop looks at one element of its queue, or executes one task; a
-- goroutine executes its task in one step, so that two executors do not interleave with each other
-- inside. Enqueueing a task, which tests the map and pushes without a lock, is one step too, and so
-- is what follows an executor: the state `taskFailed`, which a task that failed has for a moment, is
-- seen by no one else. The counter of goroutines is increased and decreased in one step each. What
-- can go wrong between such points in the program is not covered by the theorems on the steps. The
-- walk over a bucket's tree has fuel, because the listing of a directory is a parameter that may be
-- infinitely deep: at the end of the fuel it returns the error `out_of_fuel`, which the program does
-- not have. `Bucket/Fuel` shows that over a tree of finite depth the walk is the same with every
-- amount of fuel above that depth; no other theorem takes a result of the walk for granted. The
-- reader that decrypts a message goes through it in blocks, and its fuel is one more than the length
-- of the message, of which each round takes off a block. Waiting for the token of the hub has fuel
-- for the messages that come before it (`Hub/Awaited`). The three calls that race to read a file are
-- run in any order in which they may end, and the first that succeeds wins; one that succeeds too
-- before the others are cancelled blocks the race, which then has the error `never_returns`, for a
-- call that does not return. Readers are what is read from them with the error they end with.
--
-- Not modelled: the mutexes, the timer and the shutdown of the synchronizer; logging and tracing; the
-- rest of the Textile client; setting up the mailbox; the search index over files (also that of the
-- model) and the configuration of the collections; identities; the file systems below the virtual
-- drive; the IPFS node; the gRPC handlers, which convert requests, and generated code.
pub mod Auth
pub mod Backup
pub mod Bucket
pub mod Crypto
pub mod Exec
pub mod Fuse
pub mod Hub
pub mod Keychain
pub mod Model
pub mod OpenFiles
pub mod Outcome
pub mod Permissions
pub mod Prelude
pub mod SecureClient
pub mod Sharing
pub mod Sync
pub mod Vault
