-- ===== src/Inventory/Pointers.antt =====
-- The tokens of the JSON pointers that inventory.py writes (RFC 6901).
use samgita.Prelude.{
  ℕ, false, ◌≡◌, refl, sym, ap, ◌∙◌, Text, codes, ◌==◌, has, if◌then◌else◌, [], ◌∷◌, ◌++◌,
  Bool-cases, inl, inr, arith, ==_iff,
}
use samgita.Inventory.Contracts.{pointer_token}

-- What RFC 6901 says of reading a token: "~1" is a slash, then "~0" a tilde.
pub unescape : Text → Text
unescape [] = []
unescape (c ∷ []) = c ∷ []
unescape (c ∷ d ∷ t) =
    let escaped = (if d == b'0' then b'~' else b'/') ∷ unescape t in
    let plain = c ∷ unescape (d ∷ t) in if c == b'~' then escaped else plain

unescape-cons : (c : ℕ) (t : Text) → (c == b'~') ≡ false → unescape (c ∷ t) ≡ c ∷ unescape t
unfolding unescape
unescape-cons c [] h = refl
unescape-cons c (d ∷ t) h = rw h

unescape-tilde : (t : Text) → unescape (codes "~0" ++ t) ≡ b'~' ∷ unescape t
unfolding unescape
unescape-tilde t = refl

unescape-slash : (t : Text) → unescape (codes "~1" ++ t) ≡ b'/' ∷ unescape t
unfolding unescape
unescape-slash t = refl

unescape-nil : unescape [] ≡ []
unfolding unescape
unescape-nil = refl

unescape-written : (t : Text) → unescape (pointer_token t) ≡ t
unfolding pointer_token
unescape-written [] = unescape-nil
unescape-written (c ∷ t) = elim (Bool-cases (c == b'~')) [
  | inl tilde ↦
      rw (tilde, unescape-tilde, unescape-written t)
        (ap (λ x. x ∷ t) (sym ((==_iff c b'~').0 tilde)))
  | inr other ↦ elim (Bool-cases (c == b'/')) [
    | inl slash ↦
        rw (other, slash, unescape-slash, unescape-written t)
          (ap (λ x. x ∷ t) (sym ((==_iff c b'/').0 slash)))
    | inr plain ↦ rw (other, plain) (unescape-cons c _ other ∙ ap (λ u. c ∷ u) (unescape-written t))
  ]
]

pointer_token-no_slash : (t : Text) → has b'/' (pointer_token t) ≡ false
unfolding pointer_token
pointer_token-no_slash [] = refl
pointer_token-no_slash (c ∷ t) = ground (arith, pointer_token-no_slash t)

-- Reading a written token gives the name back, so two names never share a pointer; and a written
-- token holds no slash, so the tokens of a pointer are told apart.
pub unescape-pointer_token :
    (t : Text) → (unescape (pointer_token t) ≡ t) × (has b'/' (pointer_token t) ≡ false)
unescape-pointer_token t = (unescape-written t, pointer_token-no_slash t)
