-- ===== src/Latent/PackedCodec/RoundTrip.antt =====
-- What crates/factum-l/src/packed_codec.rs decodes from what it encodes.
use factum.Prelude.{
  ℕ, zero, suc, ◌+◌, ◌-◌, ◌*◌, ◌/◌, ◌%◌, ◌≤◌, ◌<◌, Bool-cases, false, ◌≡◌, refl, sym, ap, ◌∙◌, ◌⊎◌,
  inl, inr, List, [], ◌∷◌, Text, eqb, ltb, leb, eqb_iff, if◌then◌else◌, length, All, arith,
}
use factum.Core.Platform.{Platform}
use factum.Latent.Floats.{Floats}
use factum.Latent.PackedCodec.{
  charset, base, index_from, char_to_idx, nth, idx_to_char, chars, max_encoded, clamp,
  encode_2chars, decode_2chars, encode_chars, encode_string, decode_string, pack_args, unpacked,
  unpack_args,
}

-- What the codec relies on: a quotient of small numbers lies between 0 and 1, and multiplied by the
-- divisor it rounds to the dividend. In single precision the errors of the quotient and of the
-- product are far below one half at these sizes.
pub record IsExact {p : Platform} (f : Floats p) : Type 0 where
  pub in_range :
      (v m : ℕ)
      → v ≤ m
      → m ≤ 5323
      → clamp f (f.div (f.of_usize v) (f.of_usize m)) ≡ f.div (f.of_usize v) (f.of_usize m)
  pub recovers :
      (v m : ℕ)
      → v ≤ m
      → m ≤ 5323
      → f.round_usize (p.mul (f.div (f.of_usize v) (f.of_usize m)) (f.of_usize m)) ≡ v

-- an ASCII character of the codec's alphabet
abbrev pub InCharset : ℕ → Type 0
InCharset c = (c < 128) × (1 ≤ char_to_idx c)

-- Where the index is found.
index_from-nth :
    (c i : ℕ) (xs : Text)
    → (index_from c i xs ≡ 0)
      ⊎ ((k : ℕ) × (index_from c i xs ≡ i + k + 1) × (k < length xs) × (nth xs k ≡ c))
unfolding index_from nth
index_from-nth c i [] = inl refl
index_from-nth c i (x ∷ xs) = elim (Bool-cases (eqb x c)) [
  | inl e ↦ inr (zero, rw (e, index_from) (omega arith), omega arith, (eqb_iff x c).0 e)
  | inr e ↦ elim (index_from-nth c (i + 1) xs) [
    | inl n ↦ inl (rw (e, index_from) n)
    | inr (k, q, l, h) ↦ inr (suc k, rw (e, index_from) (q ∙ omega arith), omega arith, h)
  ]
]

-- A character whose index gives it back.
abbrev IsCode : ℕ → Type 0
IsCode c = (idx_to_char (char_to_idx c) ≡ c) × (char_to_idx c < base)

char_to_idx-from : (c : ℕ) → eqb c 0 ≡ false → char_to_idx c ≡ index_from c 0 charset
unfolding char_to_idx
char_to_idx-from c e = rw (e, char_to_idx) refl

idx_to_char-nth : (k : ℕ) → k < 66 → idx_to_char (k + 1) ≡ nth charset k
unfolding idx_to_char
idx_to_char-nth k h =
    let e1 : eqb (k + 1) 0 ≡ false = ground arith in
    let e2 : ltb 66 (k + 1) ≡ false = ground arith in
    let e3 : k + 1 - 1 ≡ k = omega arith in rw (e1, idx_to_char) (rw e2 (ap (nth charset) e3))

zero-IsCode : IsCode 0
unfolding char_to_idx idx_to_char
zero-IsCode = (refl, omega arith)

char-IsCode : (c : ℕ) → 1 ≤ char_to_idx c → IsCode c
char-IsCode c h = elim (Bool-cases (eqb c 0)) [
  | inl e ↦ rw ((eqb_iff c 0).0 e) zero-IsCode
  | inr e ↦ elim (index_from-nth c 0 charset) [
    | inl n ↦ absurd (omega (arith, char_to_idx-from c e, n))
    | inr (k, q, l, n) ↦
        let at : char_to_idx c ≡ k + 1 = char_to_idx-from c e ∙ (q ∙ omega arith) in
        (ap idx_to_char at ∙ (idx_to_char-nth k l ∙ n), omega (arith, at))
  ]
]

ascii_below : (c : ℕ) → c < 128 → leb 0x80 c ≡ false
ascii_below c h = ground arith

not-ltb : (a b : ℕ) → b ≤ a → ltb a b ≡ false
not-ltb a b h = ground arith

abbrev pub take : ℕ → Text → Text
take zero xs = []
take (suc k) [] = []
take (suc k) (x ∷ xs) = x ∷ take k xs

take-nil : (k : ℕ) → take k [] ≡ []
take-nil zero = refl
take-nil (suc k) = refl

two_more : (n : ℕ) → 2 * suc n ≡ suc (suc (2 * n))
two_more n = omega arith

nonzero : (a : ℕ) → 1 ≤ char_to_idx a → eqb a 0 ≡ false
unfolding char_to_idx
nonzero a h = elim (Bool-cases (eqb a 0)) [
  | inr e ↦ e
  | inl e ↦ absurd (omega (arith, h, ap char_to_idx ((eqb_iff a 0).0 e)))
]

chars-ascii : (s : Text) → All InCharset s → chars s ≡ s
unfolding chars
chars-ascii [] h = refl
chars-ascii (c ∷ cs) h =
    let low : leb 0x80 c ≡ false = ascii_below c h.0.0 in
    rw low (ap (λ (r : Text). c ∷ r) (chars-ascii cs h.1))

unpacked-reads :
    (count t1 t2 t3 : ℕ)
    → count ≤ 3
    → t1 ≤ 10
    → t2 ≤ 10
    → t3 ≤ 10
    → unpacked (count * 1331 + t1 * 121 + t2 * 11 + t3) ≡ (count, t1, t2, t3)
unfolding unpacked
unpacked-reads count t1 t2 t3 h h1 h2 h3 =
    let v = count * 1331 + t1 * 121 + t2 * 11 + t3 in
    let c : v / 1331 ≡ count = omega arith in
    let r : v % 1331 ≡ t1 * 121 + t2 * 11 + t3 = omega arith in
    let a1 : v % 1331 / 121 % 256 ≡ t1 = omega arith in
    let a2 : v % 1331 / 11 % 11 ≡ t2 = omega arith in
    let a3 : v % 1331 % 11 ≡ t3 = omega arith in
    let few : ltb 3 count ≡ false = not-ltb 3 count h in
    rw (c) (rw few (rw a1 (rw a2 (rw a3 refl))))

decode_nil : {p : Platform} (f : Floats p) → decode_string f [] ≡ []
unfolding decode_string
decode_nil f = refl

module _ {p : Platform} (f : Floats p) (exact : IsExact f) where
  pair-reads : (a b : ℕ) → IsCode a → IsCode b → decode_2chars f (encode_2chars f a b) ≡ (a, b)
  unfolding decode_2chars encode_2chars
  pair-reads a b ha hb =
      let v = char_to_idx a * base + char_to_idx b in
      let back : f.round_usize
            (p.mul (clamp f (f.div (f.of_usize v) (max_encoded f))) (max_encoded f))
          ≡ v =
        ap (λ (x : p.F32). f.round_usize (p.mul x (max_encoded f)))
          (exact.in_range v 4488 (omega arith) (omega arith))
        ∙ exact.recovers v 4488 (omega arith) (omega arith) in
      let high : v / base % base ≡ char_to_idx a = omega arith in
      let low : v % base ≡ char_to_idx b = omega arith in
      ap (λ (w : ℕ). (idx_to_char (w / base % base), idx_to_char (w % base))) back
      ∙ (ap (λ (w : ℕ). (idx_to_char w, idx_to_char (v % base))) (high)
          ∙ (ap (λ (w : ℕ). (idx_to_char (char_to_idx a), idx_to_char w)) low
              ∙ (ap (λ (w : ℕ). (w, idx_to_char (char_to_idx b))) ha.0
                  ∙ ap (λ (w : ℕ). (a, w)) hb.0)))

  -- what `decode_string` makes of a component for two characters
  decode_string-pair :
      (a b : ℕ) (xs : List p.F32)
      → IsCode a
      → IsCode b
      → decode_string f (encode_2chars f a b ∷ xs)
        ≡ (if eqb a 0 then [] else if eqb b 0 then a ∷ [] else a ∷ b ∷ decode_string f xs)
  unfolding decode_string
  decode_string-pair a b xs ha hb =
      ap
        (λ (c : ℕ × ℕ).
          if eqb c.0 0 then [] else if eqb c.1 0 then c.0 ∷ [] else c.0 ∷ c.1 ∷ decode_string f xs)
        (pair-reads a b ha hb)

  decode_string-encode_chars :
      (cs : Text) (n : ℕ)
      → All InCharset cs
      → decode_string f (encode_chars f cs n) ≡ take (2 * n) cs
  unfolding encode_chars
  decode_string-encode_chars cs zero h = decode_nil f
  decode_string-encode_chars [] (suc n) h =
      decode_string-pair 0 0 (encode_chars f [] n) zero-IsCode zero-IsCode
      ∙ sym (take-nil (2 * suc n))
  decode_string-encode_chars (a ∷ []) (suc n) h =
      decode_string-pair a 0 (encode_chars f [] n) (char-IsCode a h.0.1) zero-IsCode
      ∙ rw (nonzero a h.0.1)
          (rw (two_more n) (ap (λ (r : Text). a ∷ r) (sym (take-nil (suc (2 * n))))))
  decode_string-encode_chars (a ∷ b ∷ r) (suc n) h =
      decode_string-pair a b (encode_chars f r n) (char-IsCode a h.0.1) (char-IsCode b h.1.0.1)
      ∙ rw (nonzero a h.0.1) (
          rw (nonzero b h.1.0.1)
            (rw (two_more n) (ap (λ (s : Text). a ∷ b ∷ s) (decode_string-encode_chars r n h.1.1))))

-- A text over the alphabet, encoded in n components and decoded, is cut to its first 2 n
-- characters, and nothing else is lost.
pub decode_string-encode_string :
    {p : Platform} (f : Floats p) (s : Text) (n : ℕ)
    → IsExact f
    → All InCharset s
    → decode_string f (encode_string f s n) ≡ take (2 * n) s
unfolding encode_string
decode_string-encode_string f s n exact h =
    ap (λ (cs : Text). decode_string f (encode_chars f cs n)) (chars-ascii s h)
    ∙ decode_string-encode_chars f exact s n h

-- Up to three arguments with types up to 10 are read back from the component that packs them.
pub unpack_args-pack_args :
    {p : Platform} (f : Floats p) (count t1 t2 t3 : ℕ)
    → IsExact f
    → count ≤ 3
    → t1 ≤ 10
    → t2 ≤ 10
    → t3 ≤ 10
    → unpack_args f (pack_args f count (t1 ∷ t2 ∷ t3 ∷ [])) ≡ (count, t1, t2, t3)
unfolding unpack_args pack_args
unpack_args-pack_args f count t1 t2 t3 exact h h1 h2 h3 =
    ap unpacked
      (exact.recovers (count * 1331 + t1 * 121 + t2 * 11 + t3) 5323 (omega arith) (omega arith))
    ∙ unpacked-reads count t1 t2 t3 h h1 h2 h3
