-- ===== src/Daemon/Certs/Tokens.antt =====
-- The scan of a bundle file in pkg/daemon/certs/certs.go ends.
use Prim.Native.String.{[], ◌∷◌}
use text.Mathlib.Text.{starts_with}
use mathlib.Core.Option.{some-injective}
use windows_machine_config_o.Common.{
  ℕ, zero, suc, ◌≤◌, ◌<◌, String, ◌≡◌, refl, sym, ap, inl, inr, some, [], ◌∷◌, arith, Bool-cases,
  Option-cases,
}
use windows_machine_config_o.Daemon.Certs.{drop, size, cut_after, put_char, tokens, end_cert_tag}

drop-size : (n : ℕ) (s : String) → size (drop n s) ≤ size s
unfolding drop size
drop-size zero s = omega arith
drop-size (suc n) [] = omega arith
drop-size (suc n) (c ∷ s) = omega (arith, drop-size n s)

-- A cut at a tag that is not empty leaves less.
cut_after-size :
    (tag s token rest : String)
    → 0 < size tag
    → cut_after tag s ≡ some (token, rest)
    → size rest < size s
unfolding cut_after size drop
cut_after-size tag [] token rest positive e = absurd (ground arith)
cut_after-size [] (c ∷ s) token rest positive e = absurd (ground arith)
cut_after-size (t ∷ ts) (c ∷ s) token rest positive e =
    let tag : String = t ∷ ts in
    elim (Bool-cases (starts_with (c ∷ s) tag)) [
      | inl found ↦
          let eq : some (tag, drop (size ts) s) ≡ some (token, rest) = rw (found, cut_after) at e in
          let same : drop (size ts) s ≡ rest = ap (λ x. x.1) (some-injective _ _ eq) in
          ground (arith, ap size same, drop-size (size ts) s)
      | inr other ↦
          let eq : put_char c (cut_after tag s) ≡ some (token, rest) = rw (other, cut_after) at e in
          elim (Option-cases (cut_after tag s)) [
            | inl h ↦ absurd (ground (arith, h, eq))
            | inr ((token', rest'), h) ↦
                let eq' : some (c ∷ token', rest') ≡ some (token, rest) = rw h at eq in
                let same : rest' ≡ rest = ap (λ x. x.1) (some-injective _ _ eq') in
                ground (arith, ap size same, cut_after-size tag s token' rest' positive h)
          ]
    ]

tag_filled : 0 < size end_cert_tag
unfolding size
tag_filled = omega arith

tokens_empty : (n : ℕ) (content : String) → size content ≤ 0 → tokens n content ≡ []
unfolding tokens cut_after size
tokens_empty zero content h = refl
tokens_empty (suc n) [] h = refl
tokens_empty (suc n) (c ∷ s) h = absurd (ground arith)

tokens_bounded :
    (n k : ℕ) (content : String)
    → size content ≤ n
    → size content ≤ k
    → tokens n content ≡ tokens k content
unfolding tokens
tokens_bounded zero k content h h' = sym (tokens_empty k content h)
tokens_bounded (suc n) zero content h h' = tokens_empty (suc n) content h'
tokens_bounded (suc n) (suc k) content h h' = elim (Option-cases (cut_after end_cert_tag content)) [
  | inl none_left ↦ rw (none_left, tokens) refl
  | inr ((token, rest), e) ↦
      let less = cut_after-size end_cert_tag content token rest tag_filled e in
      let later = tokens_bounded n k rest (ground (arith, less)) (ground (arith, less)) in
      rw (e, tokens) (ap (λ ts. token ∷ ts) later)
]

-- As many rounds as the file has characters are enough for the scan: more rounds find the same tokens.
tokens-size :
    (n : ℕ) (content : String) → size content ≤ n → tokens n content ≡ tokens (size content) content
tokens-size n content h = tokens_bounded n (size content) content h (omega arith)
