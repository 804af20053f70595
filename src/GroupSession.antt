-- ===== src/GroupSession.antt =====
-- src/outbound_group_session.c and src/inbound_group_session.c: sessions over the Megolm ratchet.
-- What the two files share stands here: the cipher of src/megolm.c, and the counter in a session key.
-- A session whose call fails keeps what the call had written by then, its last error included; what is
-- wiped on the stack or of the caller's random bytes has no counterpart.
pub mod Outbound
pub mod Inbound
pub mod Counter
pub mod Known
pub mod Sharing
pub mod Sealing
pub mod Exchange
pub mod Safety
pub mod Stored
pub mod Restored
mod Runs
use libce.Base.{ℕ, zero, suc, ◌+◌, ◌*◌, ◌/◌, ◌%◌, ◌^◌, List, [], ◌∷◌, bit_and, bit_or}
use libce.Base.Bytes.{Bytes}
use libce.Crypto.{Primitives}
use libce.Cipher.{Cipher, aes_sha_256_cipher}
use libce.Megolm.{megolm_ratchet_length}

-- "MEGOLM_KEYS"
abbrev pub megolm_kdf_info : Bytes
megolm_kdf_info = 0x4d ∷ 0x45 ∷ 0x47 ∷ 0x4f ∷ 0x4c ∷ 0x4d ∷ 0x5f ∷ 0x4b ∷ 0x45 ∷ 0x59 ∷ 0x53 ∷ []

unfoldable pub megolm_cipher : Primitives → Cipher
megolm_cipher p = aes_sha_256_cipher p megolm_kdf_info

abbrev pub olm_protocol_version : ℕ
olm_protocol_version = 3

abbrev pub group_session_id_length : ℕ
group_session_id_length = 32

abbrev pub session_key_version : ℕ
session_key_version = 2

abbrev pub session_export_version : ℕ
session_export_version = 1

abbrev pub ed25519_signature_length : ℕ
ed25519_signature_length = 64

abbrev pub session_export_raw_length : ℕ
session_export_raw_length = 1 + 4 + megolm_ratchet_length + 32

abbrev pub session_key_raw_length : ℕ
session_key_raw_length = 1 + 4 + megolm_ratchet_length + 32 + ed25519_signature_length

-- `for (i = 0; i < 4; i++) { *ptr++ = 0xFF & (counter >> 24); counter <<= 8; }`, n rounds of it.
unfoldable pub write_counter : ℕ → ℕ → Bytes
write_counter zero counter = []
write_counter (suc n) counter =
    bit_and 0xff (counter / 2 ^ 24) ∷ write_counter n (counter * 2 ^ 8 % 2 ^ 32)

-- `for (i = 0; i < 4; i++) { counter <<= 8; counter |= *ptr++; }`, n rounds of it inside the buffer.
unfoldable pub read_counter : ℕ → ℕ → Bytes → ℕ
read_counter zero counter ptr = counter
read_counter (suc n) counter [] = counter
read_counter (suc n) counter (b ∷ ptr) = read_counter n (bit_or (counter * 2 ^ 8 % 2 ^ 32) b) ptr
