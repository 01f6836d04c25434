-- ===== src/Tests/Codec.antt =====
-- The packed codec with numbers that are counted in millionths.
use factum.Prelude.{
  ℕ, zero, suc, ◌+◌, ◌*◌, ◌/◌, ◌^◌, ◌≤◌, ◌<◌, codes, ◌≡◌, refl, ap, ◌∙◌, [], ◌∷◌, arith,
}
use factum.Latent.Floats.{Floats}
use factum.Latent.PackedCodec.{
  char_to_idx, index_from, clamp, encode_string, decode_string, pack_args, unpack_args,
}
use factum.Latent.PackedCodec.RoundTrip.{
  IsExact, take, decode_string-encode_string, unpack_args-pack_args,
}
use factum.Tests.Data.{small}

abbrev pub millionths : Floats small
millionths = record {
  of_usize = λ n. n * 10 ^ 6;
  div = λ a b. a / (b / 10 ^ 6);
  round_usize = λ x. (x + 500000) / 10 ^ 6;
}

whole : (m : ℕ) → m * 1000000 / 1000000 ≡ m
whole m = omega arith

quotient_bounds : (a m : ℕ) → 0 < m → (a / m * m ≤ a) × (a < a / m * m + m)
quotient_bounds a m h = grind arith

regroup : (q m : ℕ) → q * (m * 1000000) ≡ q * m * 1000000
regroup q m = grind arith

product : (q m : ℕ) → q * (m * 1000000) / 1000000 ≡ q * m
product q m = ap (λ (t : ℕ). t / 1000000) (regroup q m) ∙ whole (q * m)

rounds : (t v m : ℕ) → t ≤ v * 1000000 → v * 1000000 < t + m → m ≤ 5323 → (t + 500000) / 1000000 ≡ v
rounds t v m h k l = omega arith

millionths-recovers :
    (v m : ℕ)
    → v ≤ m
    → m ≤ 5323
    → (v * 1000000 / (m * 1000000 / 1000000) * (m * 1000000) / 1000000 + 500000) / 1000000 ≡ v
millionths-recovers v zero h l = let e : v ≡ 0 = omega arith in rw e refl
millionths-recovers v (suc n) h l =
    let m = suc n in
    let q = v * 1000000 / m in
    let b = quotient_bounds (v * 1000000) m (omega arith) in
    ap (λ (d : ℕ). (v * 1000000 / d * (m * 1000000) / 1000000 + 500000) / 1000000) (whole m)
    ∙ (ap (λ (t : ℕ). (t + 500000) / 1000000) (product q m) ∙ rounds (q * m) v m b.0 b.1 l)

at_most_one : (q m : ℕ) → 0 < m → q * m ≤ m * 1000000 → q ≤ 1000000
at_most_one q m h k = grind arith

millionths-in_range : (v m : ℕ) → v ≤ m → v * 1000000 / (m * 1000000 / 1000000) ≤ 1000000
millionths-in_range v zero h = let e : v ≡ 0 = omega arith in rw e (omega arith)
millionths-in_range v (suc n) h =
    let m = suc n in
    let b = quotient_bounds (v * 1000000) m (omega arith) in
    rw (whole m) (at_most_one (v * 1000000 / m) m (omega arith) (omega (arith, b.0)))

clamp_below : (x : ℕ) → x ≤ 1000000 → clamp millionths x ≡ x
unfolding clamp
clamp_below x h = ground arith

abbrev millionths-IsExact : IsExact millionths
millionths-IsExact = record {
  in_range =
      λ v m h l. clamp_below (v * 1000000 / (m * 1000000 / 1000000)) (millionths-in_range v m h);
  recovers = λ v m h l. millionths-recovers v m h l;
}

decode_string-encode_string_example :
    decode_string millionths (encode_string millionths (codes "ACME") 1) ≡ take 2 (codes "ACME")
unfolding char_to_idx index_from
decode_string-encode_string_example =
    decode_string-encode_string millionths (codes "ACME") 1 millionths-IsExact (
      (omega arith, omega arith),
      ((omega arith, omega arith), ((omega arith, omega arith), ((omega arith, omega arith), tt))),
    )

unpack_args-pack_args_example :
    unpack_args millionths (pack_args millionths 2 (1 ∷ 4 ∷ 0 ∷ [])) ≡ (2, 1, 4, 0)
unpack_args-pack_args_example =
    unpack_args-pack_args millionths 2 1 4 0 millionths-IsExact (omega arith) (omega arith)
      (omega arith) (omega arith)
