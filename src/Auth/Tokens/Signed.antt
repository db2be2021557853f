-- ===== src/Auth/Tokens/Signed.antt =====
-- Tokens that Verify accepts: those that `sign` makes of claims, and no other claims than signed ones.
use open_mcp_chain.Prelude.{
  ℕ, ◌≤◌, ◌≡◌, refl, ap, ◌∙◌, Bool, true, false, not, ◌&&◌, ◌||◌, inl, some, List, [], ◌∷◌, ◌++◌,
  arith, Text, text_eq, text_beq_iff, ◌==◌, is_empty, trim_space, to_lower, is_space, leb, ltb, eqb,
  All,
}
use open_mcp_chain.Prelude.Trim.{IsBlankless, append-IsBlankless}
use open_mcp_chain.Prelude.Parse.{split_on, split_once}
use open_mcp_chain.Prelude.Numerals.{Lacks, split_on-lacking, split_on-append, split_once-append}
use open_mcp_chain.Auth.Tokens.{
  JwtClaims, Crypto, JwtManager, equal_fold, none_of, names_audience, audience_matched,
  check_claims, encoded_jwt_header, signature, sign, verify_parts, verify_split, verify,
  verify_password, seal,
}

-- letters, digits, and the four other bytes of the two alphabets of Base64
abbrev pub is_base64 : ℕ → Bool
is_base64 c =
    (leb b'a' c && leb c b'z')
    || (leb b'A' c && leb c b'Z')
    || (leb b'0' c && leb c b'9')
    || eqb c b'-'
    || eqb c b'_'
    || eqb c b'+'
    || eqb c b'/'

abbrev pub IsBase64 : Text → Type 0
IsBase64 s = All (λ c. is_base64 c ≡ true) s

unspaced : (c : ℕ) → is_base64 c ≡ true → is_space c ≡ false
unfolding is_space
unspaced c h = ground arith

IsBase64-IsBlankless : (s : Text) → IsBase64 s → IsBlankless s
IsBase64-IsBlankless [] h = tt
IsBase64-IsBlankless (c ∷ s) (held, h) = (unspaced c held, IsBase64-IsBlankless s h)

-- Base64 without padding decodes what it encoded, and writes nothing but its alphabet.
pub record IsCodec (crypto : Crypto) : Type 0 where
  pub decodes_url : (s : Text) → crypto.decode_url (crypto.encode_url s) ≡ some s
  pub decodes_std : (s : Text) → crypto.decode_std (crypto.encode_std s) ≡ some s
  pub writes_url : (s : Text) → IsBase64 (crypto.encode_url s)
  pub writes_std : (s : Text) → IsBase64 (crypto.encode_std s)

-- JSON writes the claims, and reads them back.
abbrev pub IsSerial : Crypto → JwtClaims → Type 0
IsSerial crypto claims =
    (bytes : Text) × (crypto.marshal claims ≡ inl bytes) × (crypto.unmarshal bytes ≡ some claims)

not_base64 : (b c : ℕ) → is_base64 b ≡ false → is_base64 c ≡ true → eqb c b ≡ false
not_base64 b c out held = ground arith

IsBase64-Lacks : (b : ℕ) (s : Text) → is_base64 b ≡ false → IsBase64 s → Lacks b s
IsBase64-Lacks b [] out h = tt
IsBase64-Lacks b (c ∷ s) out (held, h) = (not_base64 b c out held, IsBase64-Lacks b s out h)

beq_self : (s : Text) → (s == s) ≡ true
beq_self s = (text_beq_iff s s).1 refl

split-three :
    (h p s : Text)
    → Lacks b'.' h
    → Lacks b'.' p
    → Lacks b'.' s
    → split_on b'.' (h ++ b'.' ∷ (p ++ b'.' ∷ s)) ≡ h ∷ p ∷ s ∷ []
split-three h p s hh hp hs =
    rw (split_on-append b'.' h _ hh, split_on-append b'.' p s hp, split_on-lacking b'.' s hs)

module _ (crypto : Crypto) (codec : IsCodec crypto) where
  encode_url-Lacks : (s : Text) → Lacks b'.' (crypto.encode_url s)
  encode_url-Lacks s = IsBase64-Lacks b'.' (crypto.encode_url s) refl (codec.writes_url s)

  -- The token of a payload.
  abbrev token_of : JwtManager → Text → Text
  token_of m bytes =
      let header = encoded_jwt_header crypto in
      let payload = crypto.encode_url bytes in
      header ++ b'.' ∷ (payload ++ b'.' ∷ crypto.encode_url (signature crypto m header payload))

  sign-token_of :
      (m : JwtManager) (claims : JwtClaims) (bytes : Text)
      → crypto.marshal claims ≡ inl bytes
      → sign crypto m claims ≡ inl (token_of m bytes)
  unfolding sign
  sign-token_of m claims bytes h = rw h

  verify_parts-signed :
      (m : JwtManager) (now : ℕ) (claims : JwtClaims) (bytes : Text)
      → crypto.unmarshal bytes ≡ some claims
      → let header = encoded_jwt_header crypto in
        let payload = crypto.encode_url bytes in
        verify_parts crypto m now header payload
          (crypto.encode_url (signature crypto m header payload))
        ≡ check_claims m now claims
  unfolding verify_parts
  verify_parts-signed m now claims bytes h = rw (codec.decodes_url, beq_self, codec.decodes_url, h)

  verify-token_of :
      (m : JwtManager) (now : ℕ) (claims : JwtClaims) (bytes : Text)
      → crypto.unmarshal bytes ≡ some claims
      → verify crypto m now (token_of m bytes) ≡ check_claims m now claims
  unfolding verify encoded_jwt_header
  verify-token_of m now claims bytes h =
      let header = encoded_jwt_header crypto in
      let payload = crypto.encode_url bytes in
      let signed = signature crypto m header payload in
      ap (verify_split crypto m now) (
        split-three header payload (crypto.encode_url signed) (encode_url-Lacks _)
          (encode_url-Lacks bytes) (encode_url-Lacks signed))
      ∙ verify_parts-signed m now claims bytes h

  token_of-IsBlankless : (m : JwtManager) (bytes : Text) → IsBlankless (token_of m bytes)
  unfolding encoded_jwt_header is_space
  token_of-IsBlankless m bytes =
      let part : (s : Text) → IsBlankless (crypto.encode_url s) =
        λ s. IsBase64-IsBlankless (crypto.encode_url s) (codec.writes_url s) in
      append-IsBlankless (encoded_jwt_header crypto) _ (part _)
        (refl, append-IsBlankless (crypto.encode_url bytes) _ (part bytes) (refl, part _))

  joined-filled : (b : ℕ) (s t : Text) → is_empty (s ++ b ∷ t) ≡ false
  joined-filled b [] t = refl
  joined-filled b (c ∷ s) t = refl

  -- A token of the claims is made, and Verify makes of it what it makes of the claims.
  pub sign-verify :
      (m : JwtManager) (claims : JwtClaims)
      → IsSerial crypto claims
      → (token : Text) × (sign crypto m claims ≡ inl token)
        × ((now : ℕ) → verify crypto m now token ≡ check_claims m now claims)
        × IsBlankless token
        × (is_empty token ≡ false)
  sign-verify m claims (bytes, written, read) = (
    token_of m bytes,
    sign-token_of m claims bytes written,
    λ now. verify-token_of m now claims bytes read,
    token_of-IsBlankless m bytes,
    joined-filled b'.' (encoded_jwt_header crypto) _,
  )

  split-sealed :
      (s t : Text)
      → split_once b':' (crypto.encode_std s ++ b':' ∷ t) ≡ some (crypto.encode_std s, t)
  split-sealed s t =
      split_once-append b':' (crypto.encode_std s) t
        (IsBase64-Lacks b':' (crypto.encode_std s) refl (codec.writes_std s))

  -- VerifyPassword takes the password of which the hash was made.
  pub verify_password-seal :
      (password salt : Text)
      → (hashed : Text) × (seal crypto password (inl salt) ≡ inl hashed)
        × (verify_password crypto hashed password ≡ true)
  unfolding seal verify_password
  verify_password-seal password salt =
      let digest = crypto.encode_std (crypto.sum (salt ++ password)) in
      (
        crypto.encode_std salt ++ b':' ∷ digest,
        refl,
        rw
            (
              joined-filled b':' (crypto.encode_std salt) digest,
              split-sealed salt digest,
              codec.decodes_std,
              codec.decodes_std,
            )
            (beq_self (crypto.sum (salt ++ password))),
      )

audience_matched_self : (a : Text) (l : List Text) → audience_matched (a ∷ l) (a ∷ l) ≡ true
unfolding audience_matched names_audience
audience_matched_self a l = rw (beq_self (to_lower (trim_space a))) refl

audience_taken :
    (l : List Text) → (not (none_of l) && not (none_of l) && not (audience_matched l l)) ≡ false
audience_taken [] = refl
audience_taken (a ∷ l) = rw (audience_matched_self a l) refl

issuer_taken : (s : Text) → (not (is_empty s) && not (is_empty s) && not (equal_fold s s)) ≡ false
issuer_taken s = ground (arith, beq_self (to_lower s))

expiry_taken : (now at : ℕ) → now ≤ at → (not (eqb at 0) && ltb at now) ≡ false
expiry_taken now at h = ground arith

-- The claims that a manager makes pass its own checks until they expire.
pub own_claims :
    (m : JwtManager) (now : ℕ) (claims : JwtClaims)
    → claims.issuer ≡ m.issuer
    → claims.audience ≡ m.audience
    → now ≤ claims.expires_at
    → check_claims m now claims ≡ inl claims
unfolding check_claims
own_claims m now claims same_issuer same_audience alive = rw (
  same_issuer,
  same_audience,
  expiry_taken now claims.expires_at alive,
  issuer_taken m.issuer,
  audience_taken m.audience,
)
