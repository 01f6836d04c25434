-- ===== src/Latent/PackedCodec.antt =====
-- crates/factum-l/src/packed_codec.rs: strings and argument types as numbers in f32 components. A
-- text's `chars` are the bytes that begin a character; those of other characters than ASCII's stand
-- for them, since all of them have the index 0.
pub mod RoundTrip
use factum.Prelude.{
  ℕ, zero, suc, ◌+◌, ◌-◌, ◌*◌, ◌/◌, ◌%◌, Bool, true, false, not, ◌&&◌, List, [], ◌∷◌, Text, codes,
  eqb, ltb, leb, if◌then◌else◌, Option, none, some,
}
use factum.Core.Platform.{Platform, f32_lt}
use factum.Core.Types.{PredicateHead}
use factum.Core.Morphemes.{MorphemeRegistry, resolve, lookup_id}
use factum.Latent.Floats.{Floats}

abbrev pub charset : Text
charset = codes "ABCDEFGHIJKLMNOPQRSTUVWXYZabcdefghijklmnopqrstuvwxyz0123456789-.()"

abbrev pub base : ℕ
base = 67

-- the loop of `char_to_idx`, at an index
unfoldable pub index_from : ℕ → ℕ → Text → ℕ
index_from c i [] = 0
index_from c i (x ∷ xs) = let rest = index_from c (i + 1) xs in if eqb x c then i + 1 else rest

-- `char_to_idx`
unfoldable pub char_to_idx : ℕ → ℕ
char_to_idx c = if eqb c 0 then 0 else index_from c 0 charset

-- `CHARSET[i]`; the default is not reached.
unfoldable pub nth : Text → ℕ → ℕ
nth [] i = b'.'
nth (x ∷ xs) zero = x
nth (x ∷ xs) (suc i) = nth xs i

-- `idx_to_char`
unfoldable pub idx_to_char : ℕ → ℕ
idx_to_char idx = if eqb idx 0 then 0 else if ltb 66 idx then b'.' else nth charset (idx - 1)

-- `s.chars()`
unfoldable pub chars : Text → Text
chars [] = []
chars (c ∷ cs) = let rest = chars cs in if leb 0x80 c && ltb c 0xC0 then rest else c ∷ rest

-- `get(i).unwrap_or('\0')` on what is left, and what is left behind two characters
abbrev pub first : Text → ℕ
first [] = 0
first (c ∷ cs) = c

abbrev pub rest : Text → Text
rest [] = []
rest (c ∷ cs) = cs

-- `PackedCodecEncoder::head_to_index`
unfoldable pub head_to_index : MorphemeRegistry → PredicateHead → ℕ
unfolding resolve
head_to_index r (PredicateHead.id i) = i
head_to_index r (PredicateHead.name n) = elim (resolve r n) [ none ↦ 0 | some i ↦ i ]

-- the number as a count and three types; the types are u8
unfoldable pub unpacked : ℕ → ℕ × ℕ × ℕ × ℕ
unpacked packed =
    let count = packed / 1331 in
    let remainder = packed % 1331 in
    (if ltb 3 count then 3 else count, remainder / 121 % 256, remainder / 11 % 11, remainder % 11)

module _ {p : Platform} (f : Floats p) where
  abbrev pub max_encoded : p.F32
  max_encoded = f.of_usize (base * base - 1)

  -- `clamp(0.0, 1.0)`
  unfoldable pub clamp : p.F32 → p.F32
  clamp x =
      if f32_lt p x (p.float 0 0)
      then p.float 0 0
      else if f32_lt p (p.float 1 0) x
      then p.float 1 0
      else x

  -- `encode_2chars`
  unfoldable pub encode_2chars : ℕ → ℕ → p.F32
  unfolding char_to_idx
  encode_2chars c1 c2 = f.div (f.of_usize (char_to_idx c1 * base + char_to_idx c2)) max_encoded

  -- `decode_2chars`
  unfoldable pub decode_2chars : p.F32 → ℕ × ℕ
  unfolding clamp idx_to_char
  decode_2chars x =
      let value = f.round_usize (p.mul (clamp x) max_encoded) in
      (idx_to_char (value / base % base), idx_to_char (value % base))

  -- the loop of `encode_string`, on the characters that are left
  unfoldable pub encode_chars : Text → ℕ → List p.F32
  unfolding encode_2chars
  encode_chars cs zero = []
  encode_chars cs (suc n) =
      encode_2chars (first cs) (first (rest cs)) ∷ encode_chars (rest (rest cs)) n

  -- `encode_string`
  unfoldable pub encode_string : Text → ℕ → List p.F32
  unfolding chars encode_chars
  encode_string s num_floats = encode_chars (chars s) num_floats

  -- `decode_string`
  unfoldable pub decode_string : List p.F32 → Text
  unfolding decode_2chars
  decode_string [] = []
  decode_string (x ∷ xs) =
      let (c1, c2) = decode_2chars x in
      let more = decode_string xs in
      if eqb c1 0 then [] else if eqb c2 0 then c1 ∷ [] else c1 ∷ c2 ∷ more

  -- `PackedCodecEncoder::pack_args`; a missing type is 0
  unfoldable pub pack_args : ℕ → Text → p.F32
  pack_args arg_count types =
      f.div
        (f.of_usize (
          arg_count * 1331
          + first types * 121
          + first (rest types) * 11
          + first (rest (rest types))))
        (f.of_usize 5323)

  -- `PackedCodecDecoder::unpack_args`; `max(0.0)` changes nothing before `as usize`
  unfoldable pub unpack_args : p.F32 → ℕ × ℕ × ℕ × ℕ
  unfolding unpacked
  unpack_args raw = unpacked (f.round_usize (p.mul raw (f.of_usize 5323)))
