-- ===== src/Storage/Codec.antt =====
-- The wire format that src/storage/mod.rs takes from the crate `stacks_common::codec`. That crate
-- is not part of the repository, so what the code calls of it is a parameter, with its documented
-- behaviour as laws.
pub mod BigEndian
pub mod Vectors
pub mod BigEndianVec
use wrb.Common.{
  ℕ, ◌+◌, ◌^◌, ◌≤◌, ◌<◌, ◌≡◌, List, ◌++◌, length, Bool, true, false, refl, sym, ◌∙◌, arith,
}

-- Why the code itself refuses some bytes. `library` is an error of the crate or of a reader.
pub data CodecError : Type 0 where
  index_exceeds_slices : ℕ → ℕ → CodecError
  duplicate_slice_id : CodecError
  invalid_fill_byte : CodecError
  name_not_utf8 : CodecError
  name_not_ascii : CodecError
  read_u128_failed : CodecError
  failed_to_sign : CodecError
  library : ℕ → CodecError

pub data Result {ℓ} (E : Type 0) (A : Type ℓ) : Type ℓ where
  ok : A → Result E A
  err : E → Result E A

-- A reader takes bytes from the front of its input, and hands on the rest.
abbrev pub Reader {ℓ} : Type ℓ → Type ℓ
Reader A = List ℕ → Result CodecError (A × List ℕ)

infixl 5 ◌>>=◌ ◌>>◌
abbrev pub ◌>>=◌ {ℓ κ} : {A : Type ℓ} {B : Type κ} → Reader A → (A → Reader B) → Reader B
◌>>=◌ m f bs = elim (m bs) [ ok (a, rest) ↦ f a rest | err e ↦ err e ]

abbrev pub ◌>>◌ {ℓ} : {B : Type ℓ} → Reader (Unit {0}) → Reader B → Reader B
m >> k = m >>= λ _. k

abbrev pub pure {ℓ} : {A : Type ℓ} → A → Reader A
pure a bs = ok (a, bs)

-- `return Err(e)` where the test holds.
abbrev pub refuse_if : Bool → CodecError → Reader (Unit {0})
refuse_if true e bs = err e
refuse_if false e bs = ok (tt, bs)

-- `write_next` and `read_next` at the types that the code uses them.
pub record MessageCodec : Type 1 where
  pub write_u8 : ℕ → List ℕ
  pub write_u32 : ℕ → List ℕ
  pub write_u64 : ℕ → List ℕ
  pub write_bytes : List ℕ → List ℕ
  pub read_u8 : Reader ℕ
  pub read_u32 : Reader ℕ
  pub read_u64 : Reader ℕ
  pub read_bytes : Reader (List ℕ)
  -- the longest `Vec<u8>` that is read back
  pub max_len : ℕ
  pub length-write_u8 : (x : ℕ) → length (write_u8 x) ≡ 1
  pub length-write_u32 : (x : ℕ) → length (write_u32 x) ≡ 4
  pub length-write_u64 : (x : ℕ) → length (write_u64 x) ≡ 8
  pub length-write_bytes : (v : List ℕ) → length (write_bytes v) ≡ 4 + length v
  pub read-write_u8 :
      (x : ℕ) (rest : List ℕ) → x < 2 ^ 8 → read_u8 (write_u8 x ++ rest) ≡ ok (x, rest)
  pub read-write_u32 :
      (x : ℕ) (rest : List ℕ) → x < 2 ^ 32 → read_u32 (write_u32 x ++ rest) ≡ ok (x, rest)
  pub read-write_u64 :
      (x : ℕ) (rest : List ℕ) → x < 2 ^ 64 → read_u64 (write_u64 x ++ rest) ≡ ok (x, rest)
  pub read-write_bytes :
      (v rest : List ℕ) → length v ≤ max_len → read_bytes (write_bytes v ++ rest) ≡ ok (v, rest)
  -- What is accepted takes as many bytes as writing it does.
  pub read_u8_takes :
      (bs : List ℕ) (x : ℕ) (rest : List ℕ)
      → read_u8 bs ≡ ok (x, rest)
      → length bs ≡ 1 + length rest
  pub read_u64_takes :
      (bs : List ℕ) (x : ℕ) (rest : List ℕ)
      → read_u64 bs ≡ ok (x, rest)
      → length bs ≡ 8 + length rest
  pub read_bytes_takes :
      (bs v rest : List ℕ) → read_bytes bs ≡ ok (v, rest) → length bs ≡ 4 + length v + length rest

-- A step that succeeds hands its value on.
pub bind_ok {ℓ κ} :
    {A : Type ℓ} {B : Type κ} (m : Reader A) (f : A → Reader B) (bs : List ℕ) {a : A}
    {rest : List ℕ}
    → m bs ≡ ok (a, rest)
    → (m >>= f) bs ≡ f a rest
bind_ok m f bs e = rw (e, ◌>>=◌)

pub refuse_passes :
    (b : Bool) (e : CodecError) (bs : List ℕ) → b ≡ false → refuse_if b e bs ≡ ok (tt, bs)
refuse_passes true e bs h = cc
refuse_passes false e bs h = refl

-- Inversion of a chain that succeeds.
pub bind_inv {ℓ κ η} :
    {A : Type ℓ} {B : Type κ} {P : Type η} (m : Reader A) (f : A → Reader B) (bs : List ℕ)
    {r : B × List ℕ}
    → (m >>= f) bs ≡ ok r
    → ((a : A) (rest : List ℕ) → m bs ≡ ok (a, rest) → f a rest ≡ ok r → P)
    → P
bind_inv {A} {B} {P} m f bs {r} e k = on_result (m bs) refl
  where
    on_result : (x : Result CodecError (A × List ℕ)) → m bs ≡ x → P
    on_result (ok (a, rest)) p = k a rest p (sym (bind_ok m f bs p) ∙ e)
    on_result (err x) p = cc (rw (p, ◌>>=◌) at e)

pub refuse_inv :
    (b : Bool) (e : CodecError) (bs : List ℕ) {u : Unit {0}} {rest : List ℕ}
    → refuse_if b e bs ≡ ok (u, rest)
    → (b ≡ false) × (rest ≡ bs)
refuse_inv true e bs h = cc
refuse_inv false e bs h = (refl, ground arith)

pub ok_inj {ℓ} : {E : Type 0} {A : Type ℓ} {a b : A} → ◌≡◌ {A = Result E A} (ok a) (ok b) → a ≡ b
ok_inj h = cc
