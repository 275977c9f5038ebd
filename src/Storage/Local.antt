-- ===== src/Storage/Local.antt =====
-- `LocalStackerDBClient` (src/storage/mock.rs): a StackerDB in a table of SQLite, which stands for a
-- node where there is none. The table is a map from its primary key, and a query is a function of
-- it; opening the file is SQLite's.
pub mod Put
pub mod Numbered
pub mod Reached
use wrb.Common.{
  ℕ, zero, suc, Bool, true, false, not, ◌&&◌, Option, none, some, List, [], ◌∷◌, map, leb, ◌==◌,
  if◌then◌else◌, replicate,
}
use wrb.Common.Order.{nat_ord, text_beq}
use wrb.Common.Map.{lookup, insert}
use wrb.Storage.Codec.{Result, ok, err}
use wrb.Storage.Client.{
  StacksAddress, SlotMetadata, StackerDbChunkData, StackerDbChunkAckData, PutChunkReason,
  slot_too_big, no_such_slot, bad_signature, old_version, Call, StackerDbClient, Crypto,
}

-- A row of the table `chunks`, without its key.
pub record LocalStackerDbChunk : Type 0 where
  pub slot_version : ℕ
  pub pubkh : List ℕ
  pub data_hash : List ℕ
  pub body : List ℕ
  pub signature : List ℕ

pub record Signer : Type 0 where
  pub address : StacksAddress
  pub num_slots : ℕ

-- The row of the table `config`; the latency is not modelled.
pub record LocalStackerDbConfig : Type 0 where
  pub max_slots : ℕ
  pub mainnet : Bool

pub record LocalDb : Type 0 where
  pub chunks : List (ℕ × LocalStackerDbChunk)
  pub config : Option LocalStackerDbConfig

-- `slot_version == 0 && data_hash == Sha512Trunc256Sum([0x00; 32])`
unfoldable pub is_empty : SlotMetadata → Bool
is_empty md = md.slot_version == 0 && text_beq md.data_hash (replicate 32 0)

abbrev pub metadata_of : ℕ → LocalStackerDbChunk → SlotMetadata
metadata_of slot_id row = record {
  slot_id = slot_id;
  slot_version = row.slot_version;
  data_hash = row.data_hash;
  signature = row.signature;
}

abbrev pub inner_list_chunks : LocalDb → List SlotMetadata
inner_list_chunks db = map (λ (r : ℕ × LocalStackerDbChunk). metadata_of r.0 r.1) db.chunks

-- Each call starts by reading the configuration; `0` is the error of a table without a row.
abbrev pub configured :
    {A : Type 0}
    → Option LocalStackerDbConfig
    → (LocalStackerDbConfig → A)
    → LocalDb
    → Result ℕ A × LocalDb
configured none f db = (err 0, db)
configured (some config) f db = (ok (f config), db)

unfoldable pub list_chunks : Call LocalDb (List SlotMetadata)
list_chunks db = configured db.config (λ config. inner_list_chunks db) db

-- Chunks with a hash of zeros are made to seem not to be there.
abbrev pub unless_empty : ℕ → Option LocalStackerDbChunk → Option (List ℕ)
unless_empty slot_id none = none
unless_empty slot_id (some row) = if is_empty (metadata_of slot_id row) then none else some row.body

unfoldable pub get_latest_chunks : List ℕ → Call LocalDb (List (Option (List ℕ)))
get_latest_chunks slot_ids db =
    configured db.config
      (λ config. map (λ slot_id. unless_empty slot_id (lookup slot_id db.chunks)) slot_ids) db

-- `SELECT data FROM chunks WHERE slot_id = ?1 AND slot_version = ?2`
abbrev pub at_version : ℕ → Option LocalStackerDbChunk → Option LocalStackerDbChunk
at_version slot_version none = none
at_version slot_version (some row) = if row.slot_version == slot_version then some row else none

unfoldable pub get_chunks : List (ℕ × ℕ) → Call LocalDb (List (Option (List ℕ)))
get_chunks slots_and_versions db =
    configured db.config
      (λ config.
        map (λ (sv : ℕ × ℕ). unless_empty sv.0 (at_version sv.1 (lookup sv.0 db.chunks)))
          slots_and_versions)
      db

abbrev pub rejected : PutChunkReason → Option SlotMetadata → ℕ → StackerDbChunkAckData
rejected reason metadata code = record {
  accepted = false;
  reason = some reason;
  metadata = metadata;
  code = some code;
}

abbrev pub accepted : StackerDbChunkAckData
accepted = record { accepted = true; reason = none; metadata = none; code = none }

-- `verify(..).unwrap_or(false)`
abbrev pub unwrap_or_false : Option Bool → Bool
unwrap_or_false none = false
unwrap_or_false (some b) = b

module _ (crypto : Crypto) where
  -- Whether what the row holds is signed for the row's key; an empty row need not be.
  unfoldable pub well_signed : ℕ → LocalStackerDbChunk → Bool
  well_signed slot_id row =
      unwrap_or_false
        (crypto.verify (metadata_of slot_id row) (record { version = 0; bytes = row.pubkh }))

  -- `UPDATE chunks SET ... WHERE slot_id = ?5`
  abbrev pub updated : StackerDbChunkData → LocalStackerDbChunk → LocalStackerDbChunk
  updated chunk row = record row {
    slot_version = chunk.slot_version;
    data_hash = crypto.data_hash chunk.body;
    body = chunk.body;
    signature = chunk.sig;
  }

  -- The answer to a chunk for a row that is there, and the row then.
  abbrev pub put_row :
      StackerDbChunkData → LocalStackerDbChunk → LocalDb → StackerDbChunkAckData × LocalDb
  put_row chunk row db =
      let md = metadata_of chunk.slot_id row in
      if not (is_empty md) && not (well_signed chunk.slot_id row)
      then (rejected (bad_signature chunk.slot_id) (some md) 2, db)
      else (if not (is_empty md) && leb chunk.slot_version row.slot_version
          then (
            rejected (old_version chunk.slot_id chunk.slot_version row.slot_version) (some md) 0,
            db,
          )
          else (
            accepted,
            record db { chunks = insert chunk.slot_id (updated chunk row) db.chunks },
          ))

  abbrev pub put_found :
      StackerDbChunkData → Option LocalStackerDbChunk → LocalDb → StackerDbChunkAckData × LocalDb
  put_found chunk none db = (rejected (no_such_slot chunk.slot_id) none 1, db)
  put_found chunk (some row) db = put_row chunk row db

  abbrev pub put_configured :
      StackerDbChunkData → Option LocalStackerDbConfig → Call LocalDb StackerDbChunkAckData
  put_configured chunk none db = (err 0, db)
  put_configured chunk (some config) db =
      if leb config.max_slots chunk.slot_id
      then (ok (rejected (slot_too_big chunk.slot_id config.max_slots) none 1), db)
      else (let r = put_found chunk (lookup chunk.slot_id db.chunks) db in (ok r.0, r.1))

  unfoldable pub put_chunk : StackerDbChunkData → Call LocalDb StackerDbChunkAckData
  unfolding well_signed
  put_chunk chunk db = put_configured chunk db.config db

  abbrev pub addr_version : Bool → ℕ
  addr_version true = crypto.mainnet_singlesig
  addr_version false = crypto.testnet_singlesig

  unfoldable pub get_signers : Call LocalDb (List StacksAddress)
  get_signers db =
      configured db.config
        (λ config.
          map
            (λ (r : ℕ × LocalStackerDbChunk). record {
              version = addr_version config.mainnet;
              bytes = r.1.pubkh;
            })
            db.chunks)
        db

  abbrev pub local_client : StackerDbClient
  local_client = record {
    State = LocalDb;
    list_chunks = list_chunks;
    get_latest_chunks = get_latest_chunks;
    put_chunk = put_chunk;
    get_signers = get_signers;
  }

  -- The row that a signer's slot starts with.
  abbrev pub empty_row : Signer → LocalStackerDbChunk
  empty_row signer = record {
    slot_version = 0;
    pubkh = signer.address.bytes;
    data_hash = replicate 32 0;
    body = [];
    signature = crypto.empty_signature;
  }

  -- The inner loop of `open_or_create`: `n` rows from `slot_id`.
  unfoldable pub insert_slots :
      ℕ → Signer → ℕ → List (ℕ × LocalStackerDbChunk) → ℕ × List (ℕ × LocalStackerDbChunk)
  insert_slots zero signer slot_id rows = (slot_id, rows)
  insert_slots (suc n) signer slot_id rows =
      insert_slots n signer (suc slot_id) (insert slot_id (empty_row signer) rows)

  -- The outer loop.
  unfoldable pub insert_signers :
      List Signer → ℕ → List (ℕ × LocalStackerDbChunk) → List (ℕ × LocalStackerDbChunk)
  unfolding insert_slots
  insert_signers [] slot_id rows = rows
  insert_signers (signer ∷ signers) slot_id rows =
      let r = insert_slots signer.num_slots signer slot_id rows in insert_signers signers r.0 r.1

  -- `open_or_create`, of a file that is not there yet.
  unfoldable pub create : List Signer → ℕ → Bool → LocalDb
  unfolding insert_signers
  create signers max_slots mainnet = record {
    chunks = insert_signers signers 0 [];
    config = some (record { max_slots = max_slots; mainnet = mainnet });
  }
