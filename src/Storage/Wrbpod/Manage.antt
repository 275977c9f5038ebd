-- ===== src/Storage/Wrbpod/Manage.antt =====
-- `Wrbpod` (src/storage/wrbpod.rs): how it is opened and formatted, and how its slots are given to
-- applications.
use wrb.Common.{ℕ, Bool, true, false, Option, none, some, List, [], if◌then◌else◌}
use wrb.Common.Order.{nat_ord, text_ord}
use wrb.Storage.Codec.{Result, ok, err}
use wrb.Storage.Superblock.{WrbpodSuperblock}
use wrb.Storage.Superblock
use wrb.Storage.Client.{
  StacksAddress, Error, runtime, no_superblock, Env, Action, ◌>>=◌, ◌>>◌, pure, gets, modify,
}
use wrb.Storage.Wrbpod.{
  Wrbpod, refresh_signers, download_superblock, upload_superblock, make_superblock, set_superblock,
}

module _ (e : Env) where
  abbrev pub new_wrbpod :
      WrbpodSuperblock
      → e.home.State
      → e.replica.State
      → List ℕ
      → Option (List StacksAddress)
      → ℕ
      → Wrbpod e
  new_wrbpod sb home replica privkey signers slot_id = record {
    superblock = sb;
    replica_client = replica;
    home_client = home;
    privkey = privkey;
    signers = signers;
    chunks = [];
    superblock_slot_id = slot_id;
  }

  -- `open`: the wrbpod, with what became of it.
  unfoldable pub open_wrbpod :
      e.home.State → e.replica.State → List ℕ → ℕ → Option (Result Error (Unit {0}) × Wrbpod e)
  unfolding refresh_signers download_superblock
  open_wrbpod home replica privkey slot_id =
      (refresh_signers e >> download_superblock e)
        (new_wrbpod Superblock.empty home replica privkey none slot_id)

  -- `format`, after the signers are known.
  abbrev pub format_with :
      ℕ
      → e.replica.State
      → List ℕ
      → ℕ
      → Result ℕ (List StacksAddress) × e.home.State
      → Option (Result Error (Unit {0}) × Option (Wrbpod e))
  format_with rounds replica privkey slot_id (err x, home) = some (err (runtime x), none)
  format_with rounds replica privkey slot_id (ok signers, home) =
      elim (make_superblock e slot_id signers privkey) [
        | none ↦ some (err no_superblock, none)
        | some sb ↦
            elim (upload_superblock e rounds
              (new_wrbpod sb home replica privkey (some signers) slot_id)) [
                | none ↦ none
                | some (r, w) ↦ some (r, some w)
              ]
      ]

  -- A new wrbpod with an empty superblock.
  unfoldable pub format :
      ℕ
      → e.home.State
      → e.replica.State
      → List ℕ
      → ℕ
      → Option (Result Error (Unit {0}) × Option (Wrbpod e))
  unfolding make_superblock upload_superblock
  format rounds home replica privkey slot_id =
      format_with rounds replica privkey slot_id (e.home.get_signers home)

  -- Whether the slots were had; what is changed is saved.
  unfoldable pub allocate_slots :
      (List ℕ → List ℕ) → ℕ → List ℕ → List ℕ → ℕ → Action (Wrbpod e) Bool
  unfolding download_superblock upload_superblock
  allocate_slots order rounds app_name code_hash num_slots = do
    download_superblock e
    w ← gets (λ w. w)
    let r = Superblock.allocate_slots order w.superblock app_name code_hash num_slots
    set_superblock e r.0
    if r.1 then (upload_superblock e rounds >> pure true) else pure false

  unfoldable pub delete_slots : ℕ → List ℕ → Action (Wrbpod e) (Unit {0})
  unfolding download_superblock upload_superblock
  delete_slots rounds app_name = do
    download_superblock e
    modify (λ w. record w { superblock = Superblock.delete_slots w.superblock app_name })
    upload_superblock e rounds

  abbrev pub get_num_slots : Wrbpod e → List ℕ → ℕ
  get_num_slots w app_name = Superblock.num_app_slots w.superblock app_name
