-- ===== src/Storage/Client.antt =====
-- What src/storage/wrbpod.rs takes from others: the trait `StackerDBClient` (src/storage/mod.rs),
-- the messages of the crate libstackerdb, and the hashes and signatures of stacks_common.
pub mod Steps
use wrb.Common.{ℕ, Bool, true, false, Option, none, some, List}
use wrb.Storage.Codec.{CodecError, Result, ok, err}
use wrb.Storage.Codec.Vectors.{VecCodec}

pub record StacksAddress : Type 0 where
  pub version : ℕ
  pub bytes : List ℕ

pub record SlotMetadata : Type 0 where
  pub slot_id : ℕ
  pub slot_version : ℕ
  pub data_hash : List ℕ
  pub signature : List ℕ

pub record StackerDbChunkData : Type 0 where
  pub slot_id : ℕ
  pub slot_version : ℕ
  pub sig : List ℕ
  pub body : List ℕ

-- Why a chunk was not put, for the texts of the code.
pub data PutChunkReason : Type 0 where
  no_superblock_slot : PutChunkReason
  reason_not_given : PutChunkReason
  slot_too_big : ℕ → ℕ → PutChunkReason
  no_such_slot : ℕ → PutChunkReason
  bad_signature : ℕ → PutChunkReason
  old_version : ℕ → ℕ → ℕ → PutChunkReason
  told_by_node : List ℕ → PutChunkReason

pub record StackerDbChunkAckData : Type 0 where
  pub accepted : Bool
  pub reason : Option PutChunkReason
  pub metadata : Option SlotMetadata
  pub code : Option ℕ

-- Why a chunk was not got, for the texts of the code.
pub data GetChunkReason : Type 0 where
  no_superblock_chunk : GetChunkReason
  no_signer_list : GetChunkReason
  no_such_signer : ℕ → GetChunkReason
  verify_failed : GetChunkReason
  invalid_signature : GetChunkReason
  hash_mismatch : GetChunkReason
  no_such_app_chunk : GetChunkReason
  no_app_metadata : GetChunkReason
  no_public_key : GetChunkReason

-- `Error` (src/storage/mod.rs); a runtime error is the client's.
pub data Error : Type 0 where
  runtime : ℕ → Error
  codec : CodecError → Error
  get_chunk_error : GetChunkReason → Error
  put_chunk_error : PutChunkReason → Error
  no_such_chunk : Error
  no_superblock : Error
  no_such_row : Error

-- A call to a node: a result or a runtime error, and the node's state then.
abbrev pub Call : Type 0 → Type 0 → Type 0
Call S A = S → Result ℕ A × S

-- The methods of the trait that the wrbpod calls.
pub record StackerDbClient : Type 1 where
  pub State : Type 0
  pub list_chunks : Call State (List SlotMetadata)
  pub get_latest_chunks : List ℕ → Call State (List (Option (List ℕ)))
  pub put_chunk : StackerDbChunkData → Call State StackerDbChunkAckData
  pub get_signers : Call State (List StacksAddress)

pub record Crypto : Type 0 where
  -- `Sha512Trunc256Sum::from_data`
  pub data_hash : List ℕ → List ℕ
  -- `StacksAddress::p2pkh(true, &StacksPublicKey::from_private(key)).bytes()`
  pub address_bytes : List ℕ → List ℕ
  -- what `chunk.sign(key)` sets `chunk.sig` to, with `none` where it fails
  pub sign : List ℕ → StackerDbChunkData → Option (List ℕ)
  -- `metadata.verify(address)`, with `none` where it fails
  pub verify : SlotMetadata → StacksAddress → Option Bool
  -- `StacksPublicKey::recover_to_pubkey(digest, signature)`
  pub recover_to_pubkey : List ℕ → List ℕ → Option (List ℕ)
  -- `MessageSignature::empty()`
  pub empty_signature : List ℕ
  -- `C32_ADDRESS_VERSION_MAINNET_SINGLESIG` and `C32_ADDRESS_VERSION_TESTNET_SINGLESIG`
  pub mainnet_singlesig : ℕ
  pub testnet_singlesig : ℕ

-- What a wrbpod is given.
pub record Env : Type 1 where
  pub replica : StackerDbClient
  pub home : StackerDbClient
  pub crypto : Crypto
  pub codec : VecCodec
  -- `libstackerdb::STACKERDB_MAX_CHUNK_SIZE`
  pub chunk_max_size : ℕ

-- A method: it may run on for good (`none`), or end with a result or an error. What it wrote stays
-- written after an error too.
abbrev pub Action : Type 0 → Type 0 → Type 0
Action S A = S → Option (Result Error A × S)

abbrev pub and_do :
    {S A B : Type 0} → (A → Action S B) → Option (Result Error A × S) → Option (Result Error B × S)
and_do f none = none
and_do f (some (ok a, s)) = f a s
and_do f (some (err e, s)) = some (err e, s)

infixl 5 ◌>>=◌ ◌>>◌
abbrev pub ◌>>=◌ : {S A B : Type 0} → Action S A → (A → Action S B) → Action S B
m >>= f = λ s. and_do f (m s)

abbrev pub ◌>>◌ : {S B : Type 0} → Action S (Unit {0}) → Action S B → Action S B
m >> k = m >>= λ _. k

abbrev pub pure : {S A : Type 0} → A → Action S A
pure a s = some (ok a, s)

abbrev pub raise : {S A : Type 0} → Error → Action S A
raise e s = some (err e, s)

abbrev pub or_raise : {S A : Type 0} → Option A → Error → Action S A
or_raise none e = raise e
or_raise (some a) e = pure a

abbrev pub raise_if : {S : Type 0} → Bool → Error → Action S (Unit {0})
raise_if true e = raise e
raise_if false e = pure tt

abbrev pub gets : {S A : Type 0} → (S → A) → Action S A
gets f s = some (ok (f s), s)

abbrev pub modify : {S : Type 0} → (S → S) → Action S (Unit {0})
modify f s = some (ok tt, f s)

-- The code's `?` on a runtime error.
abbrev pub from_runtime : {A : Type 0} → Result ℕ A → Result Error A
from_runtime (ok a) = ok a
from_runtime (err e) = err (runtime e)
