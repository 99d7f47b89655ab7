-- ===== src/Lib.antt =====
-- A model of semp-ts, the TypeScript implementation of the Sealed Envelope Messaging Protocol, and
-- what is proved of it.
--
-- The program is a library of parts that an application joins. A session (src/session) follows a
-- handshake, whose server (src/handshake/server_state.ts) answers INIT and CONFIRM, and carries messages, which the dispatcher hands to handlers. An envelope (src/envelope)
-- is padded onto a bucket before it is sent. The sending side's scheduler (src/delivery/scheduler.ts)
-- keeps a record for each (envelope, recipient) pair, attempts deliveries after the schedule of
-- src/delivery/retry.ts, and reports ends as events (src/delivery/submission.ts). The receiving
-- side's pipeline (src/delivery/pipeline.ts) checks an envelope, opens its brief, asks the block list
-- (src/delivery/blocklist.ts) and puts the envelope into the inbox (src/delivery/inbox.ts). The
-- staged runner (src/delivery/staged_runner.ts) holds an envelope until the devices of each stage have
-- voted on it; the stages come from the certificates of the account's devices
-- (src/delivery/stage_partition.ts, src/keys/device_certificate.ts). The transparency log (src/transparency) keeps key events in a Merkle tree and proves their inclusion.
-- A consumer of device directories refuses older ones (src/keys/directory_cache.ts), and an address
-- that has moved away is locked out (src/migration/lockout.ts).
-- An account is closed at the end of a grace period after its user's request (src/closure). A domain's reputation (src/reputation) is published as metrics whose counts are bucketed.
--
-- Which module models which file, a function under its own name in snake case:
--   Common               texts, numbers, lists, results that may throw, and `Map`s
--   Clockskew            src/clockskew/index.ts
--   Transparency.Merkle  src/transparency/merkle.ts, the inclusion side
--   Transparency.Log     src/transparency/log.ts and validateLogEntry of src/transparency/sign.ts
--   Delivery.Queue, Delivery.Retry, Delivery.Submission, Delivery.Ack, Delivery.Blocklist,
--   Delivery.Inbox, Delivery.Pipeline, Delivery.Scheduler
--                        the file of that name in src/delivery
--   Delivery.Scheduler.Store
--                        InMemorySchedulerStore of src/delivery/scheduler.ts
--   Delivery.Disposition, Delivery.Staged
--                        src/delivery/disposition.ts and src/delivery/staged_runner.ts
--   Delivery.Partition   src/delivery/stage_partition.ts
--   Keys.Signed          src/keys/signed.ts, and sign and verify of src/keys/sign.ts
--   Keys.Certificate     src/keys/device_certificate.ts
--   Envelope.Buckets     src/envelope/buckets.ts, and the choice of a bucket of src/envelope/padding.ts
--   Reputation.Bucketize src/reputation/bucketize.ts and src/reputation/eligibility.ts
--   Delivery.Silence     src/delivery/persistent_silent.ts
--   Keys.DirectoryCache  src/keys/directory_cache.ts
--   Migration.Lockout    src/migration/lockout.ts
--   Closure.Record, Closure.Store, Closure.Driver
--                        closure.ts, store.ts and driver.ts of src/closure
--   Handshake.Messages, Handshake.Server
--                        messages.ts, confirm.ts and server_state.ts of src/handshake, and the
--                        configuration and the opening of proofs of server.ts and identity.ts there
--   Session.Live         src/session/session.ts
--   Session.Dispatcher   src/session/dispatcher.ts
-- The modules below these hold the proofs and are named for them; Tests, Receiving and Toy hold
-- concrete inputs.
--
-- How the code is read. A method takes the state and returns the new one; an error is a value of the
-- component's own type, or the state comes with it where the code has changed it before it throws. A
-- number is a whole number from 0 on, a `Date` is its milliseconds, and a timestamp's text, where the
-- code formats and reads it itself, is its time cut to the second. A `Map` is the list of its entries
-- in the order of insertion. A random number is the numerator over 2^32 that the code draws, a jitter
-- fraction is in hundredths, at most 10000, and a multiplier is whole. The product of floats that the
-- schedule floors may come out one millisecond off either way, and a draw says how. A delivery stage is
-- a whole number or absent, as in a certificate that validates. What other calls do while the scheduler awaits a delivery is a function of the environment. Key buffers of a
-- session are in a heap, so that sharing shows.
--
-- Parameters. SHA-256, base64, signatures, JSON, `Date.parse` and `toLowerCase` are arguments of
-- the definitions that call them; those of the handshake are one record (Handshake.Platform), those
-- of signed documents another (Keys.Signed). A key pair is one whose signatures verify, with base64
-- that reads what it has written (Keys.Signed.Roundtrip). Of SHA-256 and the log's base64 the
-- proofs ask that a digest has 32 bytes and that decoding undoes encoding (Transparency.Platform),
-- which a toy platform (Transparency.Toy) has; of the others they ask nothing. That two texts have
-- one digest is an outcome of its own (Collision), never assumed away.
--
-- The server of the handshake hashes the bytes of INIT as they were received, although the comment on
-- confirmationHash (src/handshake/confirm.ts) asks for canonical bytes; the model does as the server
-- does. The names that a refused CONFIRM leaves on the server are kept, as in the code.
--
-- Fuel and bounds. The recursion on slices of a tree has the list's length as fuel, and each slice is
-- shorter. The doubling loops have as much fuel as the number that they double up to, and each round
-- adds at least one. The verifier of inclusion shifts by `>>>` and tests by `&`, which work on 32
-- bits, and the model cuts to 32 bits as they do.
--
-- Not modelled: the client's side of the handshake, federation, discovery, key records, recovery, the orchestration of
-- a migration, gossip, attachments
-- and transports, the consistency proofs of the log, and everything that only formats, encodes or
-- calls cryptography. The texts of errors are constructors with the values that they name.
pub mod Common
pub mod Clockskew
pub mod Transparency
pub mod Delivery
pub mod Envelope
pub mod Session
pub mod Reputation
pub mod Keys
pub mod Migration
pub mod Closure
pub mod Handshake
