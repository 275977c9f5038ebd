-- ===== src/Storage/Codec/Vectors.antt =====
-- What src/storage/mod.rs takes of the crate `stacks_common` beside numbers: vectors of what has a
-- codec, and a hash. `is_utf8` is `std::str::from_utf8`, whether it succeeds.
use wrb.Common.{ℕ, ◌≤◌, ◌<◌, ◌≡◌, List, ◌++◌, length, Bool, true, All}
use wrb.Storage.Codec.{MessageCodec, Reader, ok}

-- An item is read back, whatever follows it.
abbrev pub ReadsBack : (A : Type 0) → (A → List ℕ) → Reader A → A → Type 0
ReadsBack A write read x = (rest : List ℕ) → read (write x ++ rest) ≡ ok (x, rest)

pub record VecCodec : Type 1 where
  pub base : MessageCodec
  pub write_hash160 : List ℕ → List ℕ
  pub read_hash160 : Reader (List ℕ)
  pub write_vec : (A : Type 0) → (A → List ℕ) → List A → List ℕ
  pub read_vec : (A : Type 0) → Reader A → Reader (List A)
  pub read_vec_at_most : (A : Type 0) → ℕ → Reader A → Reader (List A)
  pub is_utf8 : List ℕ → Bool
  -- the most items of a vector that is read back
  pub max_items : ℕ
  pub read-write_hash160 :
      (h rest : List ℕ) → length h ≡ 20 → read_hash160 (write_hash160 h ++ rest) ≡ ok (h, rest)
  pub read-write_vec :
      (A : Type 0) (write : A → List ℕ) (read : Reader A) (xs : List A) (rest : List ℕ)
      → length xs ≤ max_items
      → All (ReadsBack A write read) xs
      → read_vec A read (write_vec A write xs ++ rest) ≡ ok (xs, rest)
  pub read-write_vec_at_most :
      (A : Type 0) (n : ℕ) (write : A → List ℕ) (read : Reader A) (xs : List A) (rest : List ℕ)
      → length xs ≤ n
      → length xs ≤ max_items
      → All (ReadsBack A write read) xs
      → read_vec_at_most A n read (write_vec A write xs ++ rest) ≡ ok (xs, rest)
  pub ascii_is_utf8 : (text : List ℕ) → All (λ c. c < 0x80) text → is_utf8 text ≡ true
