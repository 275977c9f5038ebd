-- ===== src/Storage/Wrbpod/Verified.antt =====
-- What a wrbpod (src/storage/wrbpod.rs) takes from a replica: `get_and_verify_raw_chunk`,
-- `fetch_chunk` and what they call.
use wrb.Common.{
  arith, not, sym, ℕ, Bool, true, false, Option, none, some, List, [], ◌∷◌, ◌≡◌, refl, ◌∙◌, ap,
  get_elem?, ◌⊎◌, inl, inr, if◌then◌else◌,
}
use wrb.Common.Order.{text_beq, text_eq}
use wrb.Storage.Codec.{Result, ok, err, CodecError}
use wrb.Storage.Client.{
  raise_if, ◌>>=◌, ◌>>◌, or_raise, Action, StacksAddress, SlotMetadata, Error, Env, Call, pure,
  raise,
}
use wrb.Storage.Client.Steps.{raise_if_inv, step_inv, or_raise_inv, from_runtime_inv}
use wrb.Storage.Wrbpod.{
  is_unset, get_and_verify_raw_chunk, Wrbpod, call_replica, call_home, found_chunk, checked_chunk,
  load_signers, refresh_signers, refresh_if_none, get_raw_chunk, decoded,
}

if_pure_inv :
    {S A : Type 0} (b : Bool) (a : A) (x : Error) {s s' : S} {r : A}
    → (if b then pure a else raise x) s ≡ some (ok r, s')
    → (b ≡ true) × (a ≡ r) × (s' ≡ s)
if_pure_inv true a x h = (refl, cc, cc)
if_pure_inv false a x h = cc

-- A chunk that is signed by the signer of its slot: the node told the metadata, and it has the
-- chunk's hash.
pub record IsSigned (e : Env) (signers : List StacksAddress) (slot_id : ℕ) (md : SlotMetadata)
    (chunk : List ℕ) : Type 0 where
  pub signer : StacksAddress
  pub of_slot : get_elem? signers slot_id ≡ some signer
  pub is_verified : e.crypto.verify md signer ≡ some true
  pub same_hash : md.data_hash ≡ e.crypto.data_hash chunk

-- Where the signers are from: those that are cached, or the home client's.
abbrev pub AreSigners : (e : Env) → Wrbpod e → List StacksAddress → Type 0
AreSigners e w signers =
    (w.signers ≡ some signers) ⊎ ((e.home.get_signers w.home_client).0 ≡ ok signers)

module _ (e : Env) where
  open e use {crypto, chunk_max_size}

  pub call_replica_inv :
      {A : Type 0} (f : Call e.replica.State A) {w w' : Wrbpod e} {a : A}
      → call_replica e f w ≡ some (ok a, w')
      → ((f w.replica_client).0 ≡ ok a)
        × (w' ≡ record w { replica_client = (f w.replica_client).1 })
  call_replica_inv f {w} h = (from_runtime_inv (f w.replica_client).0 cc, cc)

  pub call_home_inv :
      {A : Type 0} (f : Call e.home.State A) {w w' : Wrbpod e} {a : A}
      → call_home e f w ≡ some (ok a, w')
      → ((f w.home_client).0 ≡ ok a) × (w' ≡ record w { home_client = (f w.home_client).1 })
  call_home_inv f {w} h = (from_runtime_inv (f w.home_client).0 cc, cc)

  pub decoded_inv :
      {A B : Type 0} (r : Result CodecError (A × B)) {w w' : Wrbpod e} {a : A}
      → decoded e r w ≡ some (ok a, w')
      → (rest : B) × (r ≡ ok (a, rest)) × (w' ≡ w)
  decoded_inv (ok (a, rest)) h = (rest, cc, cc)
  decoded_inv (err x) h = cc

  pub checked_chunk_inv :
      (c : Option (List ℕ)) (hash : List ℕ) {w w' : Wrbpod e} {chunk : List ℕ}
      → checked_chunk e c hash w ≡ some (ok chunk, w')
      → (hash ≡ crypto.data_hash chunk) × (w' ≡ w)
  checked_chunk_inv none hash h = cc
  checked_chunk_inv (some c) hash h =
      let (same, is_chunk, kept) = if_pure_inv (text_beq hash (crypto.data_hash c)) c _ h in
      (text_eq hash (crypto.data_hash c) same ∙ ap crypto.data_hash is_chunk, kept)

  pub found_chunk_inv :
      (c : Option (Option (List ℕ))) (hash : List ℕ) {w w' : Wrbpod e} {chunk : List ℕ}
      → found_chunk e c hash w ≡ some (ok chunk, w')
      → (hash ≡ crypto.data_hash chunk) × (w' ≡ w)
  found_chunk_inv none hash h = cc
  found_chunk_inv (some c) hash h = checked_chunk_inv c hash h

  pub refresh_signers_inv :
      (w : Wrbpod e) {w' : Wrbpod e} {u : Unit {0}}
      → refresh_signers e w ≡ some (ok u, w')
      → (signers : List StacksAddress) × ((e.home.get_signers w.home_client).0 ≡ ok signers)
        × (w'.signers ≡ some signers)
        × (w'.replica_client ≡ w.replica_client)
        × (w'.superblock ≡ w.superblock)
  unfolding refresh_signers
  refresh_signers_inv w h = step_inv (call_home e e.home.get_signers) _ w h λ signers w₁ h₁ g₁.
      let (told, is_w₁) = call_home_inv e.home.get_signers h₁ in (signers, told, cc, cc, cc)

  refresh_if_none_inv :
      (w : Wrbpod e) (o : Option (List StacksAddress)) {w' : Wrbpod e} {u : Unit {0}}
      → w.signers ≡ o
      → refresh_if_none e o w ≡ some (ok u, w')
      → (signers : List StacksAddress) × AreSigners e w signers
        × (w'.signers ≡ some signers)
        × (w'.replica_client ≡ w.replica_client)
        × (w'.superblock ≡ w.superblock)
  refresh_if_none_inv w none o h =
      let (signers, told, now, same, kept) = refresh_signers_inv w h in
      (signers, inr told, now, same, kept)
  refresh_if_none_inv w (some signers) o h = (signers, inl o, cc, cc, cc)

  pub load_signers_inv :
      (w : Wrbpod e) {w' : Wrbpod e} {signers : List StacksAddress}
      → load_signers e w ≡ some (ok signers, w')
      → AreSigners e w signers
        × (w'.signers ≡ some signers)
        × (w'.replica_client ≡ w.replica_client)
        × (w'.superblock ≡ w.superblock)
  unfolding load_signers
  load_signers_inv w {w'} {signers} h = step_inv (refresh_if_none e w.signers) _ w h λ _ w₁ h₁ g₁.
      let (signers', from', now, same, super) = refresh_if_none_inv w w.signers refl h₁ in
      let (is_signers, kept) = or_raise_inv w₁.signers _ g₁ in
      let same_signers : signers ≡ signers' = cc in (rw same_signers from', cc, cc, cc)

  pub get_raw_chunk_inv :
      (slot_id : ℕ) (data_hash : List ℕ) (w : Wrbpod e) {w' : Wrbpod e} {chunk : List ℕ}
      → get_raw_chunk e slot_id data_hash w ≡ some (ok chunk, w')
      → (data_hash ≡ crypto.data_hash chunk)
        × (w'.signers ≡ w.signers)
        × (w'.superblock ≡ w.superblock)
  unfolding get_raw_chunk
  get_raw_chunk_inv slot_id data_hash w h =
      step_inv (call_replica e (e.replica.get_latest_chunks (slot_id ∷ []))) _ w h
        λ chunks w₁ h₁ g₁.
          let (_, is_w₁) = call_replica_inv (e.replica.get_latest_chunks (slot_id ∷ [])) h₁ in
          let (same, is_w') = found_chunk_inv (get_elem? chunks 0) data_hash g₁ in (same, cc, cc)

  -- A list of metadata that the replica told has the entry for the slot.
  abbrev pub IsListed : e.replica.State → ℕ → SlotMetadata → Type 0
  IsListed node slot_id md =
      (mds : List SlotMetadata) × ((e.replica.list_chunks node).0 ≡ ok mds)
      × (get_elem? mds slot_id ≡ some md)

  abbrev pub IsVerified : Wrbpod e → ℕ → List ℕ → Type 0
  IsVerified w slot_id chunk =
      (signers : List StacksAddress) × (md : SlotMetadata) × AreSigners e w signers
      × IsListed w.replica_client slot_id md
      × IsSigned e signers slot_id md chunk

  pub verify_inv :
      (md : SlotMetadata) (signer : StacksAddress) (x y : Error) {A : Type 0}
      (k : Action (Wrbpod e) A) (w : Wrbpod e) {w' : Wrbpod e} {r : A}
      → (or_raise (crypto.verify md signer) x >>= λ valid. (raise_if (not valid) y >> k)) w
        ≡ some (ok r, w')
      → (crypto.verify md signer ≡ some true) × (k w ≡ some (ok r, w'))
  verify_inv md signer x y k w {w'} {r} h =
      step_inv (or_raise (crypto.verify md signer) x) _ w h λ valid w₁ h₁ g₁.
        step_inv (raise_if (not valid) y) _ w₁ g₁ λ _ w₂ h₂ g₂.
          let (told, same₁) = or_raise_inv (crypto.verify md signer) x h₁ in
          let (holds, same₂) = raise_if_inv (not valid) y h₂ in
          let is_true : valid ≡ true = ground arith in
          let same : w₂ ≡ w = cc in (cc, ap k (sym same) ∙ g₂)

  unless_unset_inv :
      (b : Bool) (m : Action (Wrbpod e) (Option (List ℕ))) (w : Wrbpod e) {w' : Wrbpod e}
      {c : List ℕ}
      → (if b then pure none else m) w ≡ some (ok (some c), w')
      → m w ≡ some (ok (some c), w')
  unless_unset_inv true m w h = cc
  unless_unset_inv false m w h = h

  -- If get_and_verify_raw_chunk, on any replica, gives bytes, then the replica listed metadata for
  -- the slot that has the hash of the bytes and that verifies for the slot's signer, and the
  -- signers are those that were cached or that the home client told.
  pub get_and_verify_raw_chunk-IsVerified :
      (slot_id : ℕ) (w w' : Wrbpod e) (chunk : List ℕ)
      → get_and_verify_raw_chunk e slot_id w ≡ some (ok (some chunk), w')
      → IsVerified w slot_id chunk
  unfolding get_and_verify_raw_chunk
  get_and_verify_raw_chunk-IsVerified slot_id w w' chunk h =
      step_inv (load_signers e) _ w h λ signers w₁ h₁ g₁.
        step_inv (or_raise (get_elem? signers slot_id) _) _ w₁ g₁ λ signer w₂ h₂ g₂.
          step_inv (call_replica e e.replica.list_chunks) _ w₂ g₂ λ mds w₃ h₃ g₃.
            step_inv (or_raise (get_elem? mds slot_id) _) _ w₃ g₃ λ md w₄ h₄ g₄.
              let (is_verified, g₅) =
                verify_inv md signer _ _ _ w₄ (unless_unset_inv (is_unset md) _ w₄ g₄) in
              step_inv (get_raw_chunk e slot_id md.data_hash) _ w₄ g₅ λ bytes w₅ h₅ g₅.
                let (from', _, same₁, _) = load_signers_inv w h₁ in
                let (of_slot, same₂) = or_raise_inv (get_elem? signers slot_id) _ h₂ in
                let (told, same₃) = call_replica_inv e.replica.list_chunks h₃ in
                let (listed, same₄) = or_raise_inv (get_elem? mds slot_id) _ h₄ in
                let same_node : w₂.replica_client ≡ w.replica_client = cc in
                let is_chunk : bytes ≡ chunk = cc in
                (
                  signers,
                  md,
                  from',
                  (mds, rw (sym same_node) told, listed),
                  record {
                    signer = signer;
                    of_slot = of_slot;
                    is_verified = is_verified;
                    same_hash =
                        (get_raw_chunk_inv slot_id md.data_hash w₄ h₅).0
                        ∙ ap crypto.data_hash is_chunk;
                  },
                )
