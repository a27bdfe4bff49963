-- ===== src/Lib.antt =====
-- Verification library of the Icebreaker tokenizer proxy.
--
-- Icebreaker is an HTTP proxy that holds secrets for its clients. A client sends a sealed token;
-- the proxy opens it, checks that the token allows the request (host, method, path, expiry,
-- replay limit), injects the secret into the request to the upstream, and scans what the upstream
-- answers so that the secret does not come back. The parts modelled, and their files:
--
-- * Nonce (crates/icebreaker-nonce/src/store.rs): the in-memory nonce store that counts the uses
--   of a token. The HashMap of entries is a function from keys to optional entries; an operation
--   takes the map and the clock (one number, nanoseconds of the monotonic clock and its Instant
--   values) and returns the map. `check_and_record` and `cleanup` hold the write lock for their
--   work on the map, so that a run of concurrent calls is a list of them in the order of the
--   lock, with clock readings that need not be in order (Nonce/Trace). Nonce/View is the contract
--   on live counts, Nonce/Replay the bound on uses in a window of the TTL.
-- * RateLimit (crates/icebreaker-proxy/src/middleware/rate_limit.rs): the GCRA limiter. Durations
--   are nanoseconds; every method holds the mutex of the map, so that runs are again lists
--   (RateLimit/Trace). RateLimit/Bound and RateLimit/Limits are about runs.
-- * Body (crates/icebreaker-proxy/src/body): OverlapBuffer and Scanner are overlap_buffer.rs,
--   Scanning and Config are scanning.rs, Decompressing and Reader decompressing.rs, with the
--   decoders of `async-compression` as an instance parameter. A byte is a number, a buffer a
--   list, a pattern a list. How the capacity of a BytesMut grows is code of the crate `bytes` and
--   an instance parameter. The inner body is the list of the answers of its polls.
-- * Token (crates/icebreaker-common/src): Payload, Expiration, Allowlist and Authority are
--   token.rs, Config is processor.rs and auth.rs. Text is a list of character codes, so that
--   `split_host_port` is executable; the crate `regex` is an instance parameter (Token/Regex).
--   u64 sums wrap as in a release build. HashSets are lists, asked only for membership.
-- * Network (crates/icebreaker-proxy/src/network, and `resolve_and_validate` of
--   tunnel/connect_handler.rs): IpFilter is ip_filter.rs over the crate `ipnet` as an instance
--   parameter, with what it documents of `contains` as a law; Connector is the way from a URI to
--   the address that is connected to, over the system's resolver.
-- * HostPolicy (crates/icebreaker-proxy/src/middleware/host_validation.rs): the static policy on
--   hosts, over the crate `regex`.
-- * Admission (crates/icebreaker-proxy/src/admission.rs): `check_replay` over any nonce store,
--   and in Pipeline the whole of `admit`. Decryption, client authentication and the processors
--   are the record Backend that the pipeline takes as an instance argument, and that Proxy fills
--   from Token, Crypto, ClientAuth, Processors and ResponseScan; Proxy/Leaks follows a secret to
--   the response. Admission/Trace runs `check_replay` on the in-memory store of Nonce, with both
--   clocks advancing; both are read at one moment, where the code reads the Unix clock just
--   before the store reads the other, and the run is taken to be in the order of these times.
-- * Crypto (crates/icebreaker-crypto/src/keypair.rs and sealed_box.rs): the key store, the
--   sealing and opening of tokens, and TokenCrypto. The cipher, base64 and JSON are an instance
--   parameter.
-- * Http (types of the crate `http`): headers and requests as the parts share them; a HeaderMap
--   is the list of its pairs, and the parsing of names and values is a parameter.
-- * ClientAuth (crates/icebreaker-crypto/src/auth_validation.rs): whether a client may use a
--   token; HMAC, HKDF, hex and base64 are an instance parameter. ClientAuth/Credentials has the
--   hashes, the configurations that the functions `create_*` make, and the parsing of headers;
--   ClientAuth/Keys is about these configurations.
-- * Signing (crates/icebreaker-crypto/src/hmac.rs): request signers and the canonical text.
-- * Processors (crates/icebreaker-proxy/src/processor): Inject, InjectBody, OAuth, Hmac and Sigv4
--   are the files of these names, Dispatch is mod.rs. A body is collected once, as its bytes or
--   the text of the error. The replacement of a placeholder runs on fuel, a round for each byte
--   of the body, which is enough because a round takes a byte at least where the placeholder is
--   not empty.
-- * ResponseScan (crates/icebreaker-proxy/src/middleware/response_scan.rs): the services around
--   the inner call, over Body/Decompressing and Body/Scanning; Patterns are the forms of a
--   secret.
-- * Tunnel (crates/icebreaker-proxy/src/tunnel/connect_handler.rs and serve/connect.rs): the
--   target of a CONNECT request, over the same Backend as admission.
-- * KeyDerivation (crates/icebreaker-crypto/src/hkdf.rs): keys from a master key.
-- * Errors (crates/icebreaker-common/src/error.rs): the error type that the parts return, and in
--   Status what it tells the client and the metrics.
--
-- Common has the shared lists, texts, maps and tests. Loops are structural recursion on a list,
-- but for the replacement above and the digits of a number (twenty rounds, enough for 64 bits).
--
-- Not modelled: sockets, TLS and the tower wrappers (serve, tls), metrics, the command line,
-- which are input and output; cryptographic primitives, JSON, base64 and the decoders, which are
-- libraries; the Redis nonce store and the SSO endpoints.
mod Common
pub mod Http
pub mod Errors
pub mod Nonce
pub mod RateLimit
pub mod Body
pub mod Token
pub mod Processors
pub mod Network
pub mod HostPolicy
pub mod Admission
pub mod Crypto
pub mod ClientAuth
pub mod Signing
pub mod ResponseScan
pub mod Tunnel
pub mod KeyDerivation
