-- ===== src/Core/Lexer/Yields.antt =====
-- The token that crates/factum-core/src/lexer.rs makes of a piece of canonical text.
use factum.Prelude.{
  ℕ, ◌≤◌, ◌<◌, Bool, true, false, ◌≡◌, refl, ap, ◌⊎◌, inl, inr, [], ◌∷◌, ◌++◌, Text, codes,
  if◌then◌else◌, Result, ok, err, All, length, arith,
}
use factum.Prelude.Digits.{is_digit}
use factum.Core.Canonical.{escape}
use factum.Core.Lexer.Scan.{
  Place, Cursor, LexError, LexMessage, scan_name, scan_string, scan_paren, next_col, is_name_byte,
  is_entity_byte,
}
use factum.Core.Lexer.{
  TokenKind, Step, lex_hash, lex_body, lex_open, expect_text, named, closed, next_token,
}
use factum.Core.Lexer.Reads.{
  Scans, Passes, Stops, NoDigit, IsBody, IsAscii, is_uri_byte, scan_name-Scans, scan_uri-Scans,
  string_from-Scans, scan_paren-reads,
}

-- The step gives this token and leaves this text.
abbrev pub Gives : TokenKind → Text → Step → Type 0
Gives k rest (err e) = ⊥
Gives k rest (ok (t, c)) = (t.kind ≡ k) × (c.rest ≡ rest)

-- The end, or a byte that follows a term in the canonical form.
abbrev pub IsDelimited : Text → Type 0
IsDelimited [] = Unit
IsDelimited (r ∷ rs) = (r ≡ b' ') ⊎ (r ≡ b')') ⊎ (r ≡ b']')

-- What holds of the three bytes holds of the first byte there.
pub delimited :
    (P : ℕ → Type 0) (r : ℕ) (rs : Text) → P b' ' → P b')' → P b']' → IsDelimited (r ∷ rs) → P r
delimited P r rs a b c (inl e) = rw e a
delimited P r rs a b c (inr (inl e)) = rw e b
delimited P r rs a b c (inr (inr e)) = rw e c

IsDelimited-Stops :
    (test : ℕ → Bool) (rest : Text)
    → test b' ' ≡ false
    → test b')' ≡ false
    → test b']' ≡ false
    → IsDelimited rest
    → Stops test rest
IsDelimited-Stops test [] a b c d = tt
IsDelimited-Stops test (r ∷ rs) a b c d =
    delimited (λ x. (x < 128) × (test x ≡ false)) r rs (omega arith, a) (omega arith, b)
      (omega arith, c) d

pub IsDelimited-NoDigit : (rest : Text) → IsDelimited rest → NoDigit rest
unfolding is_digit
IsDelimited-NoDigit [] d = tt
IsDelimited-NoDigit (r ∷ rs) d = delimited (λ x. is_digit x ≡ false) r rs refl refl refl d

named-Gives :
    (kind : Text → TokenKind) (m : LexMessage) (start : Place) (s rest : Text)
    (r : Result LexError (Text × Cursor))
    → 1 ≤ length s
    → Scans s rest r
    → Gives (kind s) rest (named kind m start r)
named-Gives kind m start s rest (err e) l h = h
named-Gives kind m start s rest (ok ([], c)) l h = absurd (omega (arith, ap length h.0))
named-Gives kind m start s rest (ok (b ∷ bs, c)) l h = (ap kind h.0, h.1)

closed-Gives :
    (kind : Text → TokenKind) (start : Place) (s rest : Text) (r : Result LexError (Text × Cursor))
    → Scans s rest r
    → Gives (kind s) rest (closed kind start r)
closed-Gives kind start s rest (err e) h = h
closed-Gives kind start s rest (ok (b, c)) h = (ap kind h.0, h.1)

-- A word of bytes that pass a test.
abbrev pub IsWord : (ℕ → Bool) → Text → Type 0
IsWord test s = (1 ≤ length s) × Passes test s

pub word-Gives :
    (kind : Text → TokenKind) (m : LexMessage) (test : ℕ → Bool) (start : Place) (s rest : Text)
    (pl : Place)
    → test b' ' ≡ false
    → test b')' ≡ false
    → test b']' ≡ false
    → IsWord test s
    → IsDelimited rest
    → Gives (kind s) rest (named kind m start (scan_name test 0 (s ++ rest) pl []))
word-Gives kind m test start s rest pl a b c w d =
    named-Gives kind m start s rest (scan_name test 0 (s ++ rest) pl []) w.0
      (scan_name-Scans test s rest pl [] w.1 (IsDelimited-Stops test rest a b c d))

pub var-Gives :
    (s rest : Text) (pl : Place)
    → IsWord is_name_byte s
    → IsDelimited rest
    → Gives (TokenKind.var s) rest (next_token b'?' (s ++ rest) pl)
unfolding next_token
var-Gives s rest pl w d =
    word-Gives TokenKind.var _ is_name_byte pl s rest (next_col pl) refl refl refl w d

pub keyword-Gives :
    (s rest : Text) (pl : Place)
    → IsWord is_name_byte s
    → IsDelimited rest
    → Gives (TokenKind.keyword s) rest (next_token b':' (s ++ rest) pl)
unfolding next_token
keyword-Gives s rest pl w d =
    word-Gives TokenKind.keyword _ is_name_byte pl s rest (next_col pl) refl refl refl w d

pub entity-Gives :
    (s rest : Text) (pl : Place)
    → IsWord is_entity_byte s
    → IsDelimited rest
    → Gives (TokenKind.entity s) rest (next_token b'@' (s ++ rest) pl)
unfolding next_token
entity-Gives s rest pl w d =
    word-Gives TokenKind.entity _ is_entity_byte pl s rest (next_col pl) refl refl refl w d

pub uri-Gives :
    (s rest : Text) (pl : Place)
    → Passes is_uri_byte s
    → Gives (TokenKind.uri s) rest (next_token b'<' (s ++ (b'>' ∷ rest)) pl)
unfolding next_token
uri-Gives s rest pl w =
    closed-Gives TokenKind.uri pl s rest _ (scan_uri-Scans pl s rest (next_col pl) [] w)

pub str-Gives :
    (s rest : Text) (pl : Place)
    → IsAscii s
    → Gives (TokenKind.str s) rest (next_token 34 (escape s ++ (34 ∷ rest)) pl)
unfolding next_token scan_string
str-Gives s rest pl w =
    closed-Gives TokenKind.str pl s rest _ (string_from-Scans pl s rest (next_col pl) [] w)

pub date-Gives :
    (s rest : Text) (pl : Place)
    → All IsBody s
    → Gives (TokenKind.date s) rest (next_token b'#' (codes "date(" ++ (s ++ (b')' ∷ rest))) pl)
unfolding next_token lex_hash lex_body lex_open expect_text
date-Gives s rest pl w =
    let start = next_col (next_col (next_col (next_col (next_col (next_col pl))))) in
    closed-Gives TokenKind.date pl s rest (ok (scan_paren (s ++ (b')' ∷ rest)) start []))
      (scan_paren-reads s rest start [] w)

pub dur-Gives :
    (s rest : Text) (pl : Place)
    → All IsBody s
    → Gives (TokenKind.duration s) rest (next_token b'#' (codes "dur(" ++ (s ++ (b')' ∷ rest))) pl)
unfolding next_token lex_hash lex_body lex_open expect_text
dur-Gives s rest pl w =
    let start = next_col (next_col (next_col (next_col (next_col pl)))) in
    closed-Gives TokenKind.duration pl s rest (ok (scan_paren (s ++ (b')' ∷ rest)) start []))
      (scan_paren-reads s rest start [] w)

pub bool-Gives :
    (b : Bool) (rest : Text) (pl : Place)
    → Gives (TokenKind.bool b) rest (next_token b'#' ((if b then b't' else b'f') ∷ rest) pl)
unfolding next_token lex_hash
bool-Gives true rest pl = (refl, refl)
bool-Gives false rest pl = (refl, refl)
