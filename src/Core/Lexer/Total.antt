-- ===== src/Core/Lexer/Total.antt =====
-- `tokenize` of crates/factum-core/src/lexer.rs ends, with a token list of bounded length.
use factum.Prelude.{
  ℕ, zero, suc, ◌+◌, ◌≤◌, ◌<◌, Bool-cases, false, ◌≡◌, refl, ap, subst, ◌⊎◌, inl, inr, Option, none,
  some, List, [], ◌∷◌, Text, length, leb, leb_false→lt, Result, ok, err, arith,
}
use factum.Core.Lexer.Scan.{Cursor, LexError}
use factum.Core.Lexer.{
  Token, skip, next_token, eof, max_tokens, push_token, tokenize_from, tokenize,
}
use factum.Core.Lexer.Progress.{Advances, skip_le, next_token-Advances}
use factum.Core.Parser.Base.{is_eof}

-- A token list: its last token, and no other, is the end of the input.
abbrev pub IsStream : List Token → Type 0
IsStream [] = ⊥
IsStream (t ∷ []) = t.kind ≡ eof
IsStream (t ∷ u ∷ ts) = (is_eof t.kind ≡ false) × IsStream (u ∷ ts)

-- An error, or a token list of at most so many tokens.
abbrev pub Tokenizes : ℕ → Option (Result LexError (List Token)) → Type 0
Tokenizes n none = ⊥
Tokenizes n (some (err e)) = Unit
Tokenizes n (some (ok ts)) = IsStream ts × (length ts ≤ n)

push_token-Tokenizes :
    (n : ℕ) (t : Token) (r : Option (Result LexError (List Token)))
    → is_eof t.kind ≡ false
    → Tokenizes n r
    → Tokenizes (suc n) (push_token t r)
push_token-Tokenizes n t none h k = k
push_token-Tokenizes n t (some (err e)) h k = tt
push_token-Tokenizes n t (some (ok [])) h k = absurd k.0
push_token-Tokenizes n t (some (ok (u ∷ us))) h k = ((h, k.0), omega arith)

List-cases {ℓ} : {A : Type ℓ} (xs : List A) → (xs ≡ []) ⊎ ((y : A) × (ys : List A) × (xs ≡ y ∷ ys))
List-cases [] = inl refl
List-cases (y ∷ ys) = inr (y, ys, refl)

pub Result-cases :
    {A : Type 0} (r : Result LexError A) → ((e : LexError) × (r ≡ err e)) ⊎ ((a : A) × (r ≡ ok a))
Result-cases (err e) = inl (e, refl)
Result-cases (ok a) = inr (a, refl)

-- A token more takes a place of the room.
push_room :
    (room count : ℕ) (t : Token) (r : Option (Result LexError (List Token)))
    → count < max_tokens
    → count + room ≡ max_tokens
    → is_eof t.kind ≡ false
    → ((k : ℕ) → count + 1 + k ≡ max_tokens → Tokenizes (suc k) r)
    → Tokenizes (suc room) (push_token t r)
push_room zero count t r h e q rest = absurd (omega arith)
push_room (suc k) count t r h e q rest = push_token-Tokenizes (suc k) t r q (rest k (omega arith))

-- With more fuel than bytes, and room for so many tokens.
tokenize_from-Tokenizes :
    (fuel count room : ℕ) (c : Cursor)
    → length c.rest < fuel
    → count + room ≡ max_tokens
    → Tokenizes (suc room) (tokenize_from fuel count c)
unfolding tokenize_from
tokenize_from-Tokenizes zero count room c h r = absurd (omega arith)
tokenize_from-Tokenizes (suc fuel) count room c h r =
    let at : Cursor = skip false c.rest c.place in
    elim (List-cases at.rest) [
      | inl e ↦ rw (e, Tokenizes) (refl, omega arith)
      | inr (x, xs, e) ↦ elim (Bool-cases (leb max_tokens count)) [
        | inl full ↦ rw (e, Tokenizes, full) tt
        | inr more ↦ elim (Result-cases (next_token x xs at.place)) [
          | inl (f, e') ↦ rw (e, Tokenizes, more, e') tt
          | inr ((t, c'), e') ↦
              let moved =
                subst (Advances (suc (length xs))) e' (next_token-Advances x xs at.place) in
              rw (e, Tokenizes, more, e')
                (push_room room count t (tokenize_from fuel (count + 1) c')
                  (leb_false→lt max_tokens count more) r moved.1
                  (λ k q.
                    tokenize_from-Tokenizes fuel (count + 1) k c'
                      (omega (arith, moved.0, ap length e, skip_le false c.rest c.place)) q))
        ]
      ]
    ]

-- For every source text the lexer comes to an end. It returns an error, or a token list whose last
-- token, and no other, is the end of the input, of at most one token more than the limit.
pub tokenize_total : (src : Text) → Tokenizes (suc max_tokens) (tokenize src)
unfolding tokenize
tokenize_total src =
    tokenize_from-Tokenizes (suc (length src)) 0 max_tokens
      (record { rest = src; place = record { offset = 0; line = 1; col = 1 } }) (omega arith)
      (omega arith)
