-- ===== src/Storage/Wrbpod/Runs.antt =====
-- The theorems on `Wrbpod` and `LocalStackerDBClient` at a concrete node with two slots, and tests.
-- The key of a signer is its address, and a signature is the key.
use wrb.Common.{
  ℕ, ◌≤◌, ◌≡◌, ◌||◌, refl, arith, true, false, none, some, List, [], ◌∷◌, map, ap, sym,
}
use wrb.Common.Map.{lookup, insert}
use wrb.Common.Order.{nat_ord, text_beq, text_beq_refl, text_ord}
use wrb.Storage.Codec.{ok, err}
use wrb.Storage.Codec.BigEndianVec.{big_endian_vec, limits-big_endian_vec}
use wrb.Storage.Slices.{WrbpodSlices}
use wrb.Storage.Slices.Valid.{IsValid, new-IsValid, put_slice-IsValid}
use wrb.Storage.Slices.RoundTrip.{IsRanged}
use wrb.Storage.Superblock.{WrbpodSuperblock}
use wrb.Storage.Client.{Crypto, Env, no_such_chunk}
use wrb.Storage.Local.{
  LocalDb, LocalStackerDbChunk, Signer, local_client, create, insert_slots, insert_signers,
  metadata_of, is_empty, well_signed,
}
use wrb.Storage.Local.Put.{IsSlot}
use wrb.Storage.Local.Numbered.{IsNumbered}
use wrb.Storage.Local.Reached.{puts, puts-create, address_at, signer_keys}
use wrb.Storage.Wrbpod.{
  Wrbpod, put_chunk, new_chunk, download_superblock, get_and_verify_raw_chunk, load_signers,
  get_raw_chunk,
}
use wrb.Storage.Wrbpod.Slots.{chunk_id_of}
use wrb.Storage.Wrbpod.Verified.{IsVerified, get_and_verify_raw_chunk-IsVerified}
use wrb.Storage.Wrbpod.Fetched.{IsFetched, fetch_chunk-IsFetched}
use wrb.Storage.Wrbpod.Loop.{local_env, Puts, put_chunk_never_ends, put_chunk_two_rounds}
use wrb.Storage.Wrbpod.SuperblockSlot.{download_superblock_other_slot}
use wrb.Storage.Wrbpod.Saved.{SignsFor, IsSaveable, SavesAndFetches, fetch_chunk-sync_slot}
use wrb.Storage.Slices
use wrb.Storage.Superblock
use wrb.Storage.Local as Local

abbrev toy_crypto : Crypto
toy_crypto = record {
  data_hash = λ bytes. bytes;
  address_bytes = λ key. key;
  sign = λ key chunk. some key;
  verify = λ md signer. some (text_beq md.signature signer.bytes);
  recover_to_pubkey = λ digest signature. some signature;
  empty_signature = [];
  mainnet_singlesig = 22;
  testnet_singlesig = 26;
}

abbrev owner : List ℕ
owner = 5 ∷ []

abbrev two_slots : List Signer
two_slots = record { address = address_at 22 owner; num_slots = 2 } ∷ []

abbrev fresh : LocalDb
fresh = create toy_crypto two_slots 2 true

abbrev toy_env : Env
toy_env = local_env toy_crypto (local_client toy_crypto) big_endian_vec 100

-- The application `chat` has the chunk 1.
abbrev with_chat : WrbpodSuperblock
with_chat = (Superblock.allocate_slots (λ used. used) (Superblock.new (1 ∷ [])) (99 ∷ []) [] 1).0

abbrev one_slice : WrbpodSlices
one_slice = (Slices.put_slice (Slices.new 100) 7 (1 ∷ 2 ∷ [])).0

abbrev wrbpod_at : LocalDb → Wrbpod toy_env
wrbpod_at db = record {
  superblock = with_chat;
  replica_client = db;
  home_client = fresh;
  privkey = owner;
  signers = some (address_at 22 owner ∷ address_at 22 owner ∷ []);
  chunks = (1, one_slice) ∷ [];
  superblock_slot_id = 1;
}

abbrev empty_slot : LocalStackerDbChunk
empty_slot = Local.empty_row toy_crypto (record { address = address_at 22 owner; num_slots = 2 })

fresh-IsNumbered : IsNumbered 0 fresh.chunks
unfolding create insert_signers insert_slots insert
fresh-IsNumbered = (refl, (refl, tt))

fresh-IsSlot : IsSlot toy_crypto fresh 1 empty_slot
unfolding create insert_signers insert_slots insert lookup
fresh-IsSlot = record {
  config = record { max_slots = 2; mainnet = true };
  configured = refl;
  in_range = omega arith;
  found = refl;
}

toy-SignsFor : SignsFor toy_crypto (local_client toy_crypto) big_endian_vec 100 owner owner
toy-SignsFor = record {
  always = λ chunk. (owner, refl);
  verifies = λ chunk sig signer e same.
      let same_text : sig ≡ signer.bytes = cc in
      rw same_text (ap some (text_beq_refl signer.bytes));
  recovers = λ chunk sig e. sym e;
}

one_slice-IsValid : IsValid one_slice
one_slice-IsValid =
    put_slice-IsValid (Slices.new 100) 7 (1 ∷ 2 ∷ []) (omega arith)
      (new-IsValid 100 (omega arith) (omega arith))

one_slice-IsRanged : IsRanged one_slice
unfolding Slices.put_slice Slices.new lookup insert
one_slice-IsRanged = record { version = omega arith; ids = omega arith }

chat_mapped : chunk_id_of toy_env (wrbpod_at fresh) (99 ∷ []) 0 ≡ some 1
unfolding chunk_id_of Superblock.allocate_slots lookup Superblock.app_slot_id_to_stackerdb_chunk_id
    insert
chat_mapped = refl

empty_is_good : is_empty (metadata_of 1 empty_slot) || well_signed toy_crypto 1 empty_slot ≡ true
unfolding is_empty
empty_is_good = refl

one_slice_max : one_slice.max_size ≡ 100
unfolding Slices.put_slice Slices.new lookup
one_slice_max = refl

toy_fits : 100 ≤ toy_env.codec.base.max_len
toy_fits = omega (arith, limits-big_endian_vec.1)

one_slice_held : lookup 1 (wrbpod_at fresh).chunks ≡ some one_slice
unfolding lookup
one_slice_held = refl

fresh-IsSaveable :
    IsSaveable toy_crypto
      (local_client toy_crypto)
      big_endian_vec
      100
      (wrbpod_at fresh)
      (99 ∷ [])
      0
      one_slice
      empty_slot
      owner
fresh-IsSaveable = record {
  chunk_id = 1;
  mapped = chat_mapped;
  held = one_slice_held;
  valid = one_slice-IsValid;
  ranged = one_slice-IsRanged;
  max_size = one_slice_max;
  fits = toy_fits;
  numbered = fresh-IsNumbered;
  slot = fresh-IsSlot;
  good = empty_is_good;
  newer = omega arith;
  signs = toy-SignsFor;
  signers = address_at 22 owner ∷ address_at 22 owner ∷ [];
  cached = refl;
  signer = address_at 22 owner;
  of_slot = refl;
  is_ours = refl;
}

fetch_chunk-sync_slot_example :
    SavesAndFetches toy_crypto
      (local_client toy_crypto)
      big_endian_vec
      100
      1
      (wrbpod_at fresh)
      (99 ∷ [])
      0
      empty_slot
      owner
      []
      []
fetch_chunk-sync_slot_example =
    fetch_chunk-sync_slot toy_crypto (local_client toy_crypto) big_endian_vec 100 0
      (wrbpod_at fresh) (99 ∷ []) 0 one_slice empty_slot owner [] [] fresh-IsSaveable

saved_run :
    SavesAndFetches toy_crypto
      (local_client toy_crypto)
      big_endian_vec
      100
      1
      (wrbpod_at fresh)
      (99 ∷ [])
      0
      empty_slot
      owner
      []
      []
saved_run =
    fetch_chunk-sync_slot toy_crypto (local_client toy_crypto) big_endian_vec 100 0
      (wrbpod_at fresh) (99 ∷ []) 0 one_slice empty_slot owner [] [] fresh-IsSaveable

fetch_chunk-IsFetched_example : IsFetched toy_env (99 ∷ []) 0 saved_run.1 1 owner
fetch_chunk-IsFetched_example =
    fetch_chunk-IsFetched toy_env (99 ∷ []) 0 (record saved_run.0 { privkey = []; chunks = [] })
      saved_run.1 1 owner saved_run.3

put_chunk_two_rounds_example :
    Puts toy_crypto
      (local_client toy_crypto)
      big_endian_vec
      100
      2
      (new_chunk 1 0 (8 ∷ []))
      (wrbpod_at fresh)
      empty_slot
put_chunk_two_rounds_example =
    put_chunk_two_rounds toy_crypto (local_client toy_crypto) big_endian_vec 100 0
      (new_chunk 1 0 (8 ∷ [])) (wrbpod_at fresh) empty_slot toy-SignsFor.always fresh-IsSlot
      empty_is_good (omega arith)

-- A row that another key has written.
abbrev forged : LocalStackerDbChunk
forged = record empty_slot {
  slot_version = 3;
  data_hash = 8 ∷ [];
  body = 8 ∷ [];
  signature = 6 ∷ [];
}

abbrev with_forged : LocalDb
with_forged = record fresh { chunks = (0, empty_slot) ∷ (1, forged) ∷ [] }

with_row :
    (row : LocalStackerDbChunk)
    → IsSlot toy_crypto (record fresh { chunks = (0, empty_slot) ∷ (1, row) ∷ [] }) 1 row
unfolding create lookup
with_row row = record {
  config = record { max_slots = 2; mainnet = true };
  configured = refl;
  in_range = omega arith;
  found = refl;
}

forged_full : is_empty (metadata_of 1 forged) ≡ false
unfolding is_empty
forged_full = refl

forged_unsigned : well_signed toy_crypto 1 forged ≡ false
unfolding well_signed
forged_unsigned = refl

put_chunk_never_ends_example :
    put_chunk toy_env 9 (new_chunk 1 4 (8 ∷ [])) (wrbpod_at with_forged) ≡ none
put_chunk_never_ends_example =
    put_chunk_never_ends toy_crypto (local_client toy_crypto) big_endian_vec 100 9
      (new_chunk 1 4 (8 ∷ [])) (wrbpod_at with_forged) forged toy-SignsFor.always (with_row forged)
      forged_full forged_unsigned

-- A row that its owner has written.
abbrev written : LocalStackerDbChunk
written = record empty_slot {
  slot_version = 3;
  data_hash = 8 ∷ [];
  body = 8 ∷ [];
  signature = owner;
}

abbrev with_written : LocalDb
with_written = record fresh { chunks = (0, empty_slot) ∷ (1, written) ∷ [] }

written_full : is_empty (metadata_of 1 written) ≡ false
unfolding is_empty
written_full = refl

download_superblock_other_slot_example :
    download_superblock toy_env (wrbpod_at with_written)
    ≡ some (err no_such_chunk, wrbpod_at with_written)
download_superblock_other_slot_example =
    download_superblock_other_slot toy_crypto (local_client toy_crypto) big_endian_vec 100
      (wrbpod_at with_written) written (address_at 22 owner ∷ address_at 22 owner ∷ [])
      (address_at 22 owner)
      (record {
        numbered = (refl, (refl, tt));
        slot = with_row written;
        full = written_full;
        cached = refl;
        of_slot = refl;
        verified = refl;
      })
      (omega arith)

written_got :
    get_and_verify_raw_chunk toy_env 1 (wrbpod_at with_written)
    ≡ some (ok (some (8 ∷ [])), wrbpod_at with_written)
unfolding get_and_verify_raw_chunk load_signers get_raw_chunk create lookup is_empty
    Local.list_chunks Local.get_latest_chunks
written_got = refl

get_and_verify_raw_chunk-IsVerified_example : IsVerified toy_env (wrbpod_at with_written) 1 (8 ∷ [])
get_and_verify_raw_chunk-IsVerified_example =
    get_and_verify_raw_chunk-IsVerified toy_env 1 (wrbpod_at with_written) (wrbpod_at with_written)
      (8 ∷ []) written_got

puts-create_example :
    IsNumbered 0 (puts toy_crypto (new_chunk 1 4 (8 ∷ []) ∷ []) fresh).chunks
    × ((Local.get_signers toy_crypto (puts toy_crypto (new_chunk 1 4 (8 ∷ []) ∷ []) fresh)).0
        ≡ ok (
            map
              (address_at (Local.addr_version toy_crypto true))
              (signer_keys toy_crypto two_slots)))
puts-create_example = puts-create toy_crypto two_slots 2 true (new_chunk 1 4 (8 ∷ []) ∷ [])
