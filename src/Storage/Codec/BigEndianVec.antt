-- ===== src/Storage/Codec/BigEndianVec.antt =====
-- A codec of vectors that meets the laws: a length of four bytes, and then the items.
use wrb.Common.{
  sym, ℕ, zero, suc, ◌≤◌, ◌^◌, ◌≡◌, refl, ap, ◌∙◌, arith, List, [], ◌∷◌, ◌++◌, length, All, true,
  take, drop, ltb, if◌then◌else◌, append_assoc, ge→ltb, length-append, take-append, drop-append,
  append-nil,
}
use wrb.Storage.Codec.{Reader, ok, err, library, ◌>>=◌, pure, bind_ok}
use wrb.Storage.Codec.BigEndian.{max_len-big_endian, big_endian}
use wrb.Storage.Codec.Vectors.{VecCodec, ReadsBack}

read_20 : Reader (List ℕ)
read_20 bs = if ltb (length bs) 20 then err (library 2) else ok (take 20 bs, drop 20 bs)

read-write_20 : (h rest : List ℕ) → length h ≡ 20 → read_20 (h ++ rest) ≡ ok (h, rest)
unfolding read_20
read-write_20 h rest e = rw (
  ge→ltb (length (h ++ rest)) 20 (omega (arith, length-append h rest, e)),
  take-append 20 h rest e,
  drop-append 20 h rest e,
)

module _ (A : Type 0) where
  write_items : (A → List ℕ) → List A → List ℕ
  write_items write [] = []
  write_items write (x ∷ xs) = write x ++ write_items write xs

  read_items : ℕ → Reader A → List A → Reader (List A)
  read_items zero read acc = pure acc
  read_items (suc n) read acc = do x ← read; read_items n read (acc ++ (x ∷ []))

  write_vec : (A → List ℕ) → List A → List ℕ
  write_vec write xs = big_endian.write_u32 (length xs) ++ write_items write xs

  read_vec : Reader A → Reader (List A)
  read_vec read = do n ← big_endian.read_u32; read_items n read []

  -- Refused where there are more.
  read_vec_at_most : ℕ → Reader A → Reader (List A)
  read_vec_at_most most read = do
    n ← big_endian.read_u32
    if ltb most n then (λ bs. err (library 3)) else read_items n read []

  read-write_items :
      (write : A → List ℕ) (read : Reader A) (xs acc : List A) (rest : List ℕ)
      → All (ReadsBack A write read) xs
      → read_items (length xs) read acc (write_items write xs ++ rest) ≡ ok (acc ++ xs, rest)
  unfolding read_items write_items
  read-write_items write read [] acc rest h =
      ap (λ (l : List A). ok (l, rest)) (sym (append-nil acc))
  read-write_items write read (x ∷ xs) acc rest (p, h) = rw append_assoc (
      bind_ok read _ _ (p (write_items write xs ++ rest))
      ∙ read-write_items write read xs (acc ++ (x ∷ [])) rest h
      ∙ ap (λ (l : List A). ok (l, rest)) (append_assoc acc (x ∷ []) xs))

  read-write_vec :
      (write : A → List ℕ) (read : Reader A) (xs : List A) (rest : List ℕ)
      → length xs ≤ 2 ^ 24
      → All (ReadsBack A write read) xs
      → read_vec read (write_vec write xs ++ rest) ≡ ok (xs, rest)
  unfolding read_vec write_vec
  read-write_vec write read xs rest short h = rw append_assoc (
      bind_ok big_endian.read_u32 _ _
        (big_endian.read-write_u32 (length xs) (write_items write xs ++ rest) (omega arith))
      ∙ read-write_items write read xs [] rest h)

  read-write_vec_at_most :
      (most : ℕ) (write : A → List ℕ) (read : Reader A) (xs : List A) (rest : List ℕ)
      → length xs ≤ most
      → length xs ≤ 2 ^ 24
      → All (ReadsBack A write read) xs
      → read_vec_at_most most read (write_vec write xs ++ rest) ≡ ok (xs, rest)
  unfolding read_vec_at_most write_vec
  read-write_vec_at_most most write read xs rest few short h = rw append_assoc (
      bind_ok big_endian.read_u32 _ _
        (big_endian.read-write_u32 (length xs) (write_items write xs ++ rest) (omega arith))
      ∙ rw (ge→ltb most (length xs) few) (read-write_items write read xs [] rest h))

pub big_endian_vec : VecCodec
big_endian_vec = record {
  base = big_endian;
  write_hash160 = λ h. h;
  read_hash160 = read_20;
  write_vec = write_vec;
  read_vec = read_vec;
  read_vec_at_most = read_vec_at_most;
  is_utf8 = λ text. true;
  max_items = 2 ^ 24;
  read-write_hash160 = read-write_20;
  read-write_vec = read-write_vec;
  read-write_vec_at_most = read-write_vec_at_most;
  ascii_is_utf8 = λ text h. refl;
}

pub limits-big_endian_vec :
    (big_endian_vec.max_items ≡ 2 ^ 24) × (big_endian_vec.base.max_len ≡ 2 ^ 24)
unfolding big_endian_vec
limits-big_endian_vec = (refl, max_len-big_endian)
