-- ===== src/Lib.antt =====
-- libce: end-to-end encryption, the Olm double ratchet and the Megolm group ratchet.
--
-- The parts and the files that model them:
--   src/megolm.c, include/libce/megolm.h              Megolm: the hash ratchet of group sessions
--   src/ratchet.c, include/libce/ratchet.h            Ratchet: state, key schedule and set-up; Ratchet/Encrypt and
--                                                     Ratchet/Decrypt: messages; Ratchet/Sending and
--                                                     Ratchet/Following: the state after a message;
--                                                     Ratchet/Pickled: pickles
--   src/message.c, include/libce/message.h            Varint: numbers; Fields: tagged fields; Message: the three kinds
--                                                     of messages
--   include/libce/list.h                              OlmList: a list in an array of fixed size
--   src/pickle.c, include/libce/pickle.h              Pickle: numbers, arrays and keys
--   src/base64.c                                      Base64
--   src/crypto.c, include/libce/crypto.h              Crypto: what the library computes over its primitives
--   src/cipher.c, include/libce/cipher.h              Cipher: the interface, and AES-CBC with HMAC-SHA-256
--   src/pickle_encoding.c                             PickleEncoding: pickles sealed with a key
--   src/outbound_group_session.c                      GroupSession/Outbound: the sender of a group
--   src/inbound_group_session.c                       GroupSession/Inbound: the receivers; GroupSession/Stored: their
--                                                     pickles; GroupSession: what both files share
--   src/account.c, include/libce/account.h            Account: one-time and fallback keys; Account/Json: the objects
--                                                     of public keys; Account/Stored: pickles
--   src/session.c, include/libce/session.h            Session: messages; Session/Start: set-up;
--                                                     Session/Stored: pickles
--   src/pk.c                                          Pk: encryption to a public key, and signatures from a seed
--   src/memory.c                                      Memory
--   src/error.c, include/libce/error.h                Error
-- Base holds what these share: tests, lists measured by native numbers, bit operations, iteration.
--
-- How the parts interact: Ratchet encrypts and decrypts through the record of operations Cipher, which the
-- AES cipher fills, and frames its messages with Message; its chains and skipped keys are OlmLists, and
-- its pickles are those of Pickle. Megolm and Ratchet derive keys with Crypto. A group session owns a Megolm
-- ratchet, frames its messages with Message, seals them with Cipher, signs them with Crypto and writes them
-- in Base64; it is stored through Pickle and PickleEncoding. An account keeps its one-time keys in an
-- OlmList, and pickles it as Ratchet does its lists. A session sets up a ratchet from the keys of an account
-- and passes messages on to it, wrapped in a pre-key message until an answer has come.
-- Pk uses the cipher with a ciphertext that lies apart from the buffer of its MAC.
--
-- How C becomes definitions: a function takes the structs that it reads and returns those that it writes.
-- Bytes are lists of numbers, and a pointer into a buffer is the list of bytes from there on, or what is
-- written before it. A pointer with a length is one list, NULL is `none`, and so is SIZE_MAX as an error.
-- Numbers are natural numbers; the wrap of a uint32_t is written out where it can happen. A size_t is
-- not wrapped, but where a length is refused only by its wrap (PickleEncoding) or accepted by it (the random
-- bytes for one-time keys in Account).
--
-- Loops: those over bytes and items follow the list. The varint writers recurse on the accessibility of
-- the order. The field loop of the decoders runs on fuel, the number of bytes left: each round takes at
-- least one, and Message/Loop proves that the fuel is enough. The loops that advance a chain run on the
-- distance to the counter (Ratchet/Existing). The four rounds over the counter of a session key are a
-- recursion on their number. The generation of one-time keys runs on fuel, as many rounds as keys: that
-- is enough below 2^32 keys, and from there on no fuel is, since the index wraps (Account/Generation).
--
-- Parameters: the functions of libsodium and the CBC of lib/aes-ct64 are the record Crypto.Primitives.
-- What a theorem needs of them is a hypothesis: IsCbc, that decryption undoes encryption of whole blocks
-- and keeps their number of bytes; IsHmac, that an HMAC has 32 bytes; AreBytes, that CBC and HMAC give
-- bytes; IsEd25519, the equation of a signature, with the sizes of points and scalars; IsX25519, that two
-- key pairs share a secret and that a public key has 32 bytes; ArePublicBytes, that it is bytes.
-- Crypto/Example has functions that satisfy them. The randomness is an argument, as in C.
--
-- Not modelled: what a failed call leaves in an output buffer, what a failed unpickling leaves in the
-- session or account, the wiping of buffers on the stack, the allocation of a struct in memory that the
-- caller gives, the description of a session for logs, and the parts that stand above these:
-- src/sas.c, src/utility.c, src/dehydrated_device.c and the public functions of src/olm.c.
-- lib/ is third-party code, and android/ bindings.
pub mod Base
pub mod OlmList
pub mod Pickle
pub mod Base64
pub mod Crypto
pub mod Megolm
pub mod Varint
pub mod Fields
pub mod Message
pub mod Error
pub mod Memory
pub mod Cipher
pub mod Ratchet
pub mod Account
pub mod Session
pub mod PickleEncoding
pub mod Pk
pub mod GroupSession
