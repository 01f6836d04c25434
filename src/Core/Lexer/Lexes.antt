-- ===== src/Core/Lexer/Lexes.antt =====
-- Texts as sequences of tokens, for `tokenize` of crates/factum-core/src/lexer.rs.
use factum.Prelude.{
  ℕ, zero, suc, ◌+◌, ◌≤◌, ◌<◌, Bool, true, false, not, ◌&&◌, ◌≡◌, refl, sym, ap, subst, inl, inr,
  Option, none, some, List, [], ◌∷◌, Text, eqb, leb, length, Result, ok, err, arith,
}
use factum.Core.Lexer.Scan.{Place, Cursor, LexError}
use factum.Core.Lexer.{
  Token, TokenKind, eof, is_ws, skip, skip_place, next_token, max_tokens, push_token, tokenize_from,
  tokenize,
}
use factum.Core.Lexer.Progress.{Advances, next_token-Advances}
use factum.Core.Lexer.Total.{Result-cases}
use factum.Core.Lexer.Yields.{Gives}
use factum.Core.Parser.Tokens.{Begins}

-- A byte that is neither white space nor opens a comment.
abbrev pub is_solid : ℕ → Bool
is_solid x = not (is_ws x) && not (eqb x b';')

-- The text is a sequence of these tokens, with spaces before them.
pub data Lexes : Text → List TokenKind → Type 0 where
  finish : Lexes [] []
  space : {x : ℕ} {s : Text} {ks : List TokenKind} → x ≡ b' ' → Lexes s ks → Lexes (x ∷ s) ks
  token :
      {x : ℕ} {xs rest : Text} {k : TokenKind} {ks : List TokenKind}
      → is_solid x ≡ true
      → ((pl : Place) → Gives k rest (next_token x xs pl))
      → Lexes rest ks
      → Lexes (x ∷ xs) (k ∷ ks)

-- The token list is these tokens and the end.
abbrev pub Lists : List TokenKind → Option (Result LexError (List Token)) → Type 0
Lists ks none = ⊥
Lists ks (some (err e)) = ⊥
Lists ks (some (ok ts)) = (last : Token) × Begins ks ts (last ∷ []) × (last.kind ≡ eof)

push_token-Lists :
    (k : TokenKind) (ks : List TokenKind) (t : Token) (r : Option (Result LexError (List Token)))
    → t.kind ≡ k
    → Lists ks r
    → Lists (k ∷ ks) (push_token t r)
push_token-Lists k ks t none e h = h
push_token-Lists k ks t (some (err f)) e h = h
push_token-Lists k ks t (some (ok ts)) e (last, b, q) = (last, (e, b), q)

lt→leb_false : (a b : ℕ) → a < b → leb b a ≡ false
lt→leb_false a b h = ground arith

skip-solid :
    (x : ℕ) (xs : Text) (pl : Place)
    → is_solid x ≡ true
    → skip false (x ∷ xs) pl ≡ record { rest = x ∷ xs; place = pl }
unfolding skip
skip-solid x xs pl h = rw (h, skip) refl

tokenize_from-token :
    (fuel count x : ℕ) (xs : Text) (pl : Place) (t : Token) (c : Cursor)
    → is_solid x ≡ true
    → leb max_tokens count ≡ false
    → next_token x xs pl ≡ ok (t, c)
    → tokenize_from (suc fuel) count (record { rest = x ∷ xs; place = pl })
      ≡ push_token t (tokenize_from fuel (count + 1) c)
unfolding tokenize_from
tokenize_from-token fuel count x xs pl t c h m q =
    rw (skip-solid x xs pl h, tokenize_from) (rw (skip-solid x xs pl h) (rw m (rw q refl)))

tokenize_from-space :
    (fuel count : ℕ) (s : Text) (ks : List TokenKind) (pl : Place)
    → Lists ks (tokenize_from fuel count (record { rest = s; place = skip_place b' ' pl }))
    → Lists ks (tokenize_from fuel count (record { rest = b' ' ∷ s; place = pl }))
unfolding tokenize_from skip
tokenize_from-space zero count s ks pl h = absurd h
tokenize_from-space (suc fuel) count s ks pl h = h

tokenize_from-Lists :
    {s : Text} {ks : List TokenKind} (l : Lexes s ks) (fuel count : ℕ) (pl : Place)
    → length s < fuel
    → count + length ks ≤ max_tokens
    → Lists ks (tokenize_from fuel count (record { rest = s; place = pl }))
unfolding tokenize_from skip
tokenize_from-Lists finish zero count pl h m = absurd (omega arith)
tokenize_from-Lists finish (suc fuel) count pl h m = (record { kind = eof; place = pl }, refl, refl)
tokenize_from-Lists (space {x = x} {s = s} {ks = ks} q l) fuel count pl h m =
    subst (λ (y : ℕ). Lists ks (tokenize_from fuel count (record { rest = y ∷ s; place = pl })))
      (sym q)
      (tokenize_from-space fuel count s ks pl
        (tokenize_from-Lists l fuel count (skip_place b' ' pl) (omega arith) m))
tokenize_from-Lists (token solid gives l) zero count pl h m = absurd (omega arith)
tokenize_from-Lists (token {x = x} {xs = xs} {rest = rest} {k = k} {ks = ks} solid gives l)
      (suc fuel) count pl h m =
    let room : leb max_tokens count ≡ false = lt→leb_false count max_tokens (omega arith) in
    elim (Result-cases (next_token x xs pl)) [
      | inl (e, q) ↦ absurd (subst (Gives k rest) q (gives pl))
      | inr ((t, c), q) ↦
          let g = subst (Gives k rest) q (gives pl) in
          let less = subst (Advances (suc (length xs))) q (next_token-Advances x xs pl) in
          let later =
            subst
              (λ (u : Text).
                Lists ks (tokenize_from fuel (count + 1) (record { rest = u; place = c.place })))
              (sym g.1)
              (tokenize_from-Lists l fuel (count + 1) c.place (omega (arith, less.0, ap length g.1))
                (omega arith)) in
          subst (Lists (k ∷ ks)) (sym (tokenize_from-token fuel count x xs pl t c solid room q))
            (push_token-Lists k ks t (tokenize_from fuel (count + 1) c) g.0 later)
    ]

-- A text that is a sequence of tokens, of which there are not more than the limit, is tokenized.
pub tokenize-Lists :
    {s : Text} {ks : List TokenKind} → Lexes s ks → length ks ≤ max_tokens → Lists ks (tokenize s)
unfolding tokenize
tokenize-Lists {s = s} l m =
    tokenize_from-Lists l (suc (length s)) 0 (record { offset = 0; line = 1; col = 1 })
      (omega arith) (omega arith)
