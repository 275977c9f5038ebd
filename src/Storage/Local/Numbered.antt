-- ===== src/Storage/Local/Numbered.antt =====
-- The table of `LocalStackerDBClient` (src/storage/mock.rs): its keys are the numbers from 0, so that
-- the entry for a slot of a list of metadata is at the slot's number, as the wrbpod takes it to be.
use wrb.Common.{
  ℕ, zero, suc, ◌+◌, none, some, List, [], ◌∷◌, map, ◌≡◌, refl, ap, arith, inl, inr, Bool-cases,
  ◌<◌, get_elem?, ◌==◌,
}
use wrb.Common.Order.{nat_ord}
use wrb.Common.Map.{lookup, insert}
use wrb.Storage.Local.{LocalDb, LocalStackerDbChunk, metadata_of, inner_list_chunks}

-- The keys count from `i`.
abbrev pub IsNumbered : ℕ → List (ℕ × LocalStackerDbChunk) → Type 0
IsNumbered i [] = Unit {0}
IsNumbered i ((k, row) ∷ rows) = (k ≡ i) × IsNumbered (suc i) rows

lookup_before :
    (i j : ℕ) (rows : List (ℕ × LocalStackerDbChunk))
    → IsNumbered i rows
    → j < i
    → lookup j rows ≡ none
unfolding lookup
lookup_before i j [] n h = refl
lookup_before i j ((k, row) ∷ rows) (is_i, n) h = ground (arith, lookup_before (suc i) j rows n)

get_elem?-Numbered :
    (i k j : ℕ) (rows : List (ℕ × LocalStackerDbChunk)) (row : LocalStackerDbChunk)
    → IsNumbered i rows
    → k ≡ i + j
    → lookup k rows ≡ some row
    → get_elem? rows j ≡ some (k, row)
unfolding lookup
get_elem?-Numbered i k j [] row n e h = cc
get_elem?-Numbered i k zero ((l, r) ∷ rows) row (is_i, n) e h = ground arith
get_elem?-Numbered i k (suc j) ((l, r) ∷ rows) row (is_i, n) e h =
    get_elem?-Numbered (suc i) k j rows row n (omega arith) (ground arith)

pub insert-Numbered :
    (i k : ℕ) (new old : LocalStackerDbChunk) (rows : List (ℕ × LocalStackerDbChunk))
    → IsNumbered i rows
    → lookup k rows ≡ some old
    → IsNumbered i (insert k new rows)
unfolding lookup insert
insert-Numbered i k new old [] n h = cc
insert-Numbered i k new old ((j, row) ∷ rows) (is_i, n) h = elim (Bool-cases (k == j)) [
  | inl same ↦ rw same (ground arith)
  | inr other ↦
      ground (arith, insert-Numbered (suc i) k new old rows n, lookup_before (suc i) k rows n)
]

get_elem?-map :
    {A B : Type 0} (f : A → B) (xs : List A) (i : ℕ) {x : A}
    → get_elem? xs i ≡ some x
    → get_elem? (map f xs) i ≡ some (f x)
get_elem?-map f [] i h = cc
get_elem?-map f (y ∷ xs) zero h = ap some (ap f cc)
get_elem?-map f (y ∷ xs) (suc i) h = get_elem?-map f xs i h

-- The metadata of a slot is at the slot's place of the list.
pub list_chunks-Numbered :
    (db : LocalDb) (slot_id : ℕ) (row : LocalStackerDbChunk)
    → IsNumbered 0 db.chunks
    → lookup slot_id db.chunks ≡ some row
    → get_elem? (inner_list_chunks db) slot_id ≡ some (metadata_of slot_id row)
list_chunks-Numbered db slot_id row n h =
    get_elem?-map (λ (r : ℕ × LocalStackerDbChunk). metadata_of r.0 r.1) db.chunks slot_id
      (get_elem?-Numbered 0 slot_id slot_id db.chunks row n (omega arith) h)

-- The key of every slot.
abbrev pub slot_keys : List (ℕ × LocalStackerDbChunk) → List (List ℕ)
slot_keys rows = map (λ (r : ℕ × LocalStackerDbChunk). r.1.pubkh) rows

pub slot_keys-insert :
    (i k : ℕ) (new old : LocalStackerDbChunk) (rows : List (ℕ × LocalStackerDbChunk))
    → IsNumbered i rows
    → lookup k rows ≡ some old
    → new.pubkh ≡ old.pubkh
    → slot_keys (insert k new rows) ≡ slot_keys rows
unfolding lookup insert
slot_keys-insert i k new old [] n h e = cc
slot_keys-insert i k new old ((j, row) ∷ rows) (is_i, n) h e = elim (Bool-cases (k == j)) [
  | inl same ↦ rw same (ground arith)
  | inr other ↦
      ground (arith, slot_keys-insert (suc i) k new old rows n, lookup_before (suc i) k rows n)
]
