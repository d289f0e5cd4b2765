-- ===== src/Ssl/Join.antt =====
-- The colon-separated cipher string that the constructor of `SSLContext` in
-- sdk/net/crypto/ssl.cc hands to WolfSSL.
use mathlib.Core.List.{append_assoc}
use iggy_cpp_client.Prelude.{
  subst, sym, All-append, ℕ, ◌≡◌, refl, ◌≢◌, ◌∙◌, ap, [], ◌∷◌, ◌++◌, foldl, arith, ◌==◌,
  if◌then◌else◌, All,
}
use iggy_cpp_client.Prelude.Bytes.{Bytes, NoNul, c_str, c_str-NoNul}
use iggy_cpp_client.Prelude.Errors.{ok}
use iggy_cpp_client.Ssl.Ciphers.{Build, Ciphers, get_default_cipher_list}
use iggy_cpp_client.Ssl.Version.{ProtocolVersion}
use iggy_cpp_client.Ssl.Ciphers.Laws.{IsToken, default_ciphers_tokens}

-- `a + delimiter + b`
abbrev glue : Bytes → Bytes → Bytes
glue a b = a ++ (b':' ∷ b)

unfoldable pub join_ciphers : Ciphers → Bytes
join_ciphers [] = []
join_ciphers (c ∷ cs) = foldl glue c cs

-- Puts a character in front of the first piece.
abbrev onto : ℕ → Ciphers → Ciphers
onto c [] = (c ∷ []) ∷ []
onto c (p ∷ ps) = (c ∷ p) ∷ ps

-- The reading of such a string: its pieces between colons.
unfoldable pub split_ciphers : Bytes → Ciphers
split_ciphers [] = [] ∷ []
split_ciphers (c ∷ s) = let rest = split_ciphers s in if c == b':' then [] ∷ rest else onto c rest

abbrev pub NoColon : Bytes → Type 0
NoColon = All λ c. c ≢ b':'

split-piece : (p s : Bytes) → NoColon p → split_ciphers (p ++ (b':' ∷ s)) ≡ p ∷ split_ciphers s
unfolding split_ciphers
split-piece [] s h = refl
split-piece (c ∷ p) s h = ground (arith, split-piece p s h.1)

split-last : (p : Bytes) → NoColon p → split_ciphers p ≡ p ∷ []
unfolding split_ciphers
split-last [] h = refl
split-last (c ∷ p) h = ground (arith, split-last p h.1)

-- The joined string from its first piece on.
chain : Bytes → Ciphers → Bytes
chain c [] = c
chain c (d ∷ ds) = c ++ (b':' ∷ chain d ds)

foldl-glue : (a c : Bytes) (ds : Ciphers) → foldl glue (a ++ c) ds ≡ a ++ foldl glue c ds
foldl-glue a c [] = refl
foldl-glue a c (d ∷ ds) =
    ap (λ x. foldl glue x ds) (append_assoc a c (b':' ∷ d)) ∙ foldl-glue a (glue c d) ds

foldl-chain : (c : Bytes) (ds : Ciphers) → foldl glue c ds ≡ chain c ds
unfolding chain
foldl-chain c [] = refl
foldl-chain c (d ∷ ds) =
    foldl-glue c (b':' ∷ d) ds
    ∙ ap (λ t. c ++ t) (foldl-glue (b':' ∷ []) d ds ∙ ap (λ t. b':' ∷ t) (foldl-chain d ds))

split-chain :
    (c : Bytes) (ds : Ciphers) → NoColon c → All NoColon ds → split_ciphers (chain c ds) ≡ c ∷ ds
unfolding chain
split-chain c [] h k = split-last c h
split-chain c (d ∷ ds) h k =
    split-piece c (chain d ds) h ∙ ap (λ t. c ∷ t) (split-chain d ds k.0 k.1)

token-NoColon : (s : Bytes) → IsToken s → NoColon s
token-NoColon [] h = tt
token-NoColon (c ∷ s) h = ((λ e. ground arith), token-NoColon s (ground arith))

All-NoColon : (cs : Ciphers) → All IsToken cs → All NoColon cs
All-NoColon [] h = tt
All-NoColon (c ∷ cs) h = (token-NoColon c h.0, All-NoColon cs h.1)

-- A list of ciphers that is not empty, with no colon in any name, can be read back from the joined
-- string.
pub split_ciphers-join_ciphers :
    (cs : Ciphers) → cs ≢ [] → All NoColon cs → split_ciphers (join_ciphers cs) ≡ cs
unfolding join_ciphers
split_ciphers-join_ciphers [] ne h = absurd (ne refl)
split_ciphers-join_ciphers (c ∷ cs) ne h =
    ap split_ciphers (foldl-chain c cs) ∙ split-chain c cs h.0 h.1

token-NoNul : (s : Bytes) → IsToken s → NoNul s
token-NoNul [] h = tt
token-NoNul (c ∷ s) h = ((λ e. ground arith), token-NoNul s (ground arith))

chain-NoNul : (c : Bytes) (ds : Ciphers) → IsToken c → All IsToken ds → NoNul (chain c ds)
unfolding chain
chain-NoNul c [] h k = token-NoNul c h
chain-NoNul c (d ∷ ds) h k =
    All-append _ c _ (token-NoNul c h) ((λ e. omega arith), chain-NoNul d ds k.0 k.1)

join_ciphers-NoNul : (cs : Ciphers) → All IsToken cs → NoNul (join_ciphers cs)
unfolding join_ciphers
join_ciphers-NoNul [] h = tt
join_ciphers-NoNul (c ∷ cs) h = subst NoNul (sym (foldl-chain c cs)) (chain-NoNul c cs h.0 h.1)

-- A default cipher list, joined with colons, splits back into that list, and WolfSSL, which reads
-- the joined text as a C string, reads all of it.
pub default_ciphers-join :
    (b : Build) (v : ProtocolVersion) (l : Ciphers)
    → get_default_cipher_list b v ≡ ok l
    → (split_ciphers (join_ciphers l) ≡ l) × (c_str (join_ciphers l) ≡ join_ciphers l)
default_ciphers-join b v l h =
    let (full, tokens) = default_ciphers_tokens b v l h in
    (
      split_ciphers-join_ciphers l full (All-NoColon l tokens),
      c_str-NoNul (join_ciphers l) (join_ciphers-NoNul l tokens),
    )
