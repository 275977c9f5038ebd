-- ===== src/Storage/Codec/BigEndian.antt =====
-- A codec that meets the laws: integers highest byte first, a length of four bytes before a `Vec<u8>`.
use wrb.Common.{
  refl, ℕ, ◌+◌, ◌^◌, ◌≤◌, ◌<◌, ◌≡◌, ◌∙◌, arith, List, ◌++◌, ltb, if◌then◌else◌, length,
  length-append, take, drop, take-append, drop-append, length-take, length-drop, append_assoc,
  ge→ltb,
}
use wrb.Common.Bytes.{to_be_bytes, from_be_bytes, length-to_be_bytes, from_be_bytes-to_be_bytes}
use wrb.Storage.Codec.{MessageCodec, Reader, ok, err, library, ◌>>=◌, bind_ok, bind_inv}

read_be : ℕ → Reader ℕ
read_be n bs =
    if ltb (length bs) n then err (library 0) else ok (from_be_bytes (take n bs), drop n bs)

take_bytes : ℕ → Reader (List ℕ)
take_bytes n bs = if ltb (length bs) n then err (library 1) else ok (take n bs, drop n bs)

read_vec : Reader (List ℕ)
read_vec = do n ← read_be 4; take_bytes n

write_vec : List ℕ → List ℕ
write_vec v = to_be_bytes 4 (length v) ++ v

read-write_be :
    (n x : ℕ) (rest : List ℕ) → x < 256 ^ n → read_be n (to_be_bytes n x ++ rest) ≡ ok (x, rest)
unfolding read_be
read-write_be n x rest h =
    let e = length-to_be_bytes n x in
    rw (
      ge→ltb (length (to_be_bytes n x ++ rest)) n
          (omega (arith, length-append (to_be_bytes n x) rest, e)),
      take-append n (to_be_bytes n x) rest e,
      drop-append n (to_be_bytes n x) rest e,
      from_be_bytes-to_be_bytes n x h,
    )

read_be_takes :
    (n : ℕ) (bs : List ℕ) (x : ℕ) (rest : List ℕ)
    → read_be n bs ≡ ok (x, rest)
    → length bs ≡ n + length rest
unfolding read_be
read_be_takes n bs x rest e = ground (arith, length-drop n bs)

take_bytes_takes :
    (n : ℕ) (bs v rest : List ℕ)
    → take_bytes n bs ≡ ok (v, rest)
    → length bs ≡ length v + length rest
unfolding take_bytes
take_bytes_takes n bs v rest e = ground (arith, length-drop n bs, length-take n bs)

length-write_vec : (v : List ℕ) → length (write_vec v) ≡ 4 + length v
unfolding write_vec
length-write_vec v =
    omega (arith, length-append (to_be_bytes 4 (length v)) v, length-to_be_bytes 4 (length v))

read-write_vec :
    (v rest : List ℕ) → length v ≤ 2 ^ 24 → read_vec (write_vec v ++ rest) ≡ ok (v, rest)
unfolding read_vec write_vec take_bytes
read-write_vec v rest h = rw append_assoc (
    bind_ok (read_be 4) _ _ (read-write_be 4 (length v) (v ++ rest) (omega arith))
    ∙ rw (
      ge→ltb (length (v ++ rest)) (length v) (omega (arith, length-append v rest)),
      take-append (length v) v rest refl,
      drop-append (length v) v rest refl,
    ))

read_vec_takes :
    (bs v rest : List ℕ) → read_vec bs ≡ ok (v, rest) → length bs ≡ 4 + length v + length rest
unfolding read_vec
read_vec_takes bs v rest e =
    bind_inv (read_be 4) _ bs e
      λ n more e₁ f₁. omega (arith, read_be_takes 4 bs n more e₁, take_bytes_takes n more v rest f₁)

pub big_endian : MessageCodec
big_endian = record {
  write_u8 = to_be_bytes 1;
  write_u32 = to_be_bytes 4;
  write_u64 = to_be_bytes 8;
  write_bytes = write_vec;
  read_u8 = read_be 1;
  read_u32 = read_be 4;
  read_u64 = read_be 8;
  read_bytes = read_vec;
  max_len = 2 ^ 24;
  length-write_u8 = length-to_be_bytes 1;
  length-write_u32 = length-to_be_bytes 4;
  length-write_u64 = length-to_be_bytes 8;
  length-write_bytes = length-write_vec;
  read-write_u8 = λ x rest h. read-write_be 1 x rest h;
  read-write_u32 = λ x rest h. read-write_be 4 x rest h;
  read-write_u64 = λ x rest h. read-write_be 8 x rest h;
  read-write_bytes = read-write_vec;
  read_u8_takes = read_be_takes 1;
  read_u64_takes = read_be_takes 8;
  read_bytes_takes = read_vec_takes;
}

pub max_len-big_endian : big_endian.max_len ≡ 2 ^ 24
unfolding big_endian
max_len-big_endian = refl
