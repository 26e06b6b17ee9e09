-- ===== src/Auth.antt =====
-- pkg/jwt/jwt.go and internal/handlers/middlewares.go: the bearer token of a request.
use rogue_learn_code_battle.Base.{
  ℕ, ◌≡◌, ◌↔◌, ◌≢◌, ◌⊎◌, inl, inr, ◌∙◌, Bool-cases, ==_iff, refl, sym, ap, true, false, Option,
  none, some, List, [], ◌∷◌, ◌++◌, Text, codes, to_lower, text_eq, any, arith, ◌==◌, if◌then◌else◌,
}

-- What ParseWithClaims returns for a token: claims that are valid, claims that have only expired, or
-- another error; the method of the signature is checked in its key function.
pub data Parsed (Claims : Type 0) : Type 0 where
  valid : Claims → Parsed Claims
  expired : Claims → Parsed Claims
  refused : Parsed Claims

module _ {Claims : Type 0} (parse : Text → Parsed Claims) where
  -- VerifyToken
  unfoldable pub verify_token : Text → Option Claims
  verify_token token = elim (parse token) [ valid c ↦ some c | expired c ↦ none | refused ↦ none ]

  -- GetUserClaimsFromToken
  unfoldable pub get_user_claims_from_token : Text → Option Claims
  get_user_claims_from_token token = elim (parse token) [
    | valid c ↦ some c
    | expired c ↦ some c
    | refused ↦ none
  ]

-- strings.Split on a separator of one byte.
abbrev pub onto_first : ℕ → List Text → List Text
onto_first x [] = (x ∷ []) ∷ []
onto_first x (w ∷ ws) = (x ∷ w) ∷ ws

unfoldable pub split : ℕ → Text → List Text
split c [] = [] ∷ []
split c (x ∷ s) = let rest = split c s in if x == c then [] ∷ rest else onto_first x rest

abbrev pub space : ℕ
space = 32

module _ {Claims : Type 0} (parse : Text → Parsed Claims) where
  -- The checks on the parts of the header.
  abbrev pub bearer : List Text → Option Claims
  bearer [] = none
  bearer (w ∷ []) = none
  bearer (w ∷ token ∷ []) =
      if text_eq (to_lower w) (codes "bearer") then get_user_claims_from_token parse token else none
  bearer (w ∷ token ∷ v ∷ ws) = none

  -- AuthMiddleware on the header Authorization: the claims of the request that goes on, or none for
  -- an answer 401.
  unfoldable pub auth_middleware : Text → Option Claims
  auth_middleware [] = none
  auth_middleware (x ∷ header) = bearer (split space (x ∷ header))

-- The byte does not stand in the text.
abbrev pub Lacks : ℕ → Text → Type 0
Lacks c s = any (λ x. x == c) s ≡ false

-- A text without the separator is the only part; another one is cut at the first separator.
Cut : ℕ → Text → Type 0
Cut c s =
    ((split c s ≡ s ∷ []) × Lacks c s)
    ⊎ ((w : Text) × (rest : Text) × (split c s ≡ w ∷ split c rest)
        × (s ≡ w ++ c ∷ rest)
        × Lacks c w)

split-Cut : (c : ℕ) (s : Text) → Cut c s
unfolding split Cut
split-Cut c [] = inl (refl, refl)
split-Cut c (x ∷ s) = elim (Bool-cases (x == c)) [
  | inl same ↦ inr ([], s, rw same refl, ap (λ y. y ∷ s) ((==_iff x c).0 same), refl)
  | inr other ↦ elim (split-Cut c s) [
    | inl (one, lacks) ↦ inl (rw (other, one) refl, rw other lacks)
    | inr (w, rest, cut, joined, lacks) ↦
        inr (x ∷ w, rest, rw (other, cut) refl, ap (λ t. x ∷ t) joined, rw other lacks)
  ]
]

split-ne : (c : ℕ) (s : Text) → split c s ≢ []
unfolding Cut
split-ne c s e = elim (split-Cut c s) [ inl (one, _) ↦ cc | inr (_, _, cut, _, _) ↦ cc ]

first_eq : {A : Type 0} {a b : A} {s t : List A} → a ∷ s ≡ b ∷ t → a ≡ b
first_eq e = cc

rest_eq : {A : Type 0} {a b : A} {s t : List A} → a ∷ s ≡ b ∷ t → s ≡ t
rest_eq e = cc

cons_nil : {A : Type 0} {a : A} {s : List A} → a ∷ s ≡ [] → ⊥
cons_nil e = cc

split-one : (c : ℕ) (s w : Text) → split c s ≡ w ∷ [] → (s ≡ w) × Lacks c w
unfolding Cut
split-one c s w h = elim (split-Cut c s) [
  | inl (one, lacks) ↦ (cc, rw (first_eq (sym one ∙ h)) at lacks)
  | inr (_, rest, cut, _, _) ↦ absurd (split-ne c rest (rest_eq (sym cut ∙ h)))
]

split-two :
    (c : ℕ) (s w v : Text) → split c s ≡ w ∷ v ∷ [] → (s ≡ w ++ c ∷ v) × Lacks c w × Lacks c v
unfolding Cut
split-two c s w v h = elim (split-Cut c s) [
  | inl (one, _) ↦ absurd (cons_nil (rest_eq (sym h ∙ one)))
  | inr (u, rest, cut, joined, lacks) ↦
      let (same, last) = split-one c rest v (rest_eq (sym cut ∙ h)) in
      let first : u ≡ w = first_eq (sym cut ∙ h) in
      (joined ∙ rw (first, same) refl, rw first at lacks, last)
]

split-Lacks : (c : ℕ) (v : Text) → Lacks c v → split c v ≡ v ∷ []
unfolding split
split-Lacks c [] h = refl
split-Lacks c (x ∷ v) h = ground (arith, split-Lacks c v)

split-append : (c : ℕ) (w v : Text) → Lacks c w → Lacks c v → split c (w ++ c ∷ v) ≡ w ∷ v ∷ []
unfolding split
split-append c [] v hw hv = ground (arith, split-Lacks c v hv)
split-append c (x ∷ w) v hw hv = ground (arith, split-append c w v)

module _ {Claims : Type 0} (parse : Text → Parsed Claims) where
  -- The header is a word, one space and a token; the word is "bearer" in any case, and the token's
  -- signature is good.
  abbrev pub IsBearer : Text → Claims → Type 0
  IsBearer header claims =
      (w : Text) × (token : Text) × (header ≡ w ++ space ∷ token)
      × Lacks space w
      × Lacks space token
      × (text_eq (to_lower w) (codes "bearer") ≡ true)
      × ((parse token ≡ valid claims) ⊎ (parse token ≡ expired claims))

  get_user_claims_from_token-some :
      (token : Text) (claims : Claims)
      → (get_user_claims_from_token parse token ≡ some claims)
        ↔ ((parse token ≡ valid claims) ⊎ (parse token ≡ expired claims))
  unfolding get_user_claims_from_token
  get_user_claims_from_token-some token claims = ground arith

  bearer-some :
      (parts : List Text) (claims : Claims)
      → bearer parse parts ≡ some claims
      → (w : Text) × (token : Text) × (parts ≡ w ∷ token ∷ [])
        × (text_eq (to_lower w) (codes "bearer") ≡ true)
        × (get_user_claims_from_token parse token ≡ some claims)
  bearer-some [] claims h = cc
  bearer-some (w ∷ []) claims h = cc
  bearer-some (w ∷ token ∷ []) claims h = (w, token, refl, ground arith, ground arith)
  bearer-some (w ∷ token ∷ v ∷ ws) claims h = cc

  auth_middleware-joined :
      (w token : Text)
      → auth_middleware parse (w ++ space ∷ token) ≡ bearer parse (split space (w ++ space ∷ token))
  unfolding auth_middleware
  auth_middleware-joined [] token = refl
  auth_middleware-joined (x ∷ w) token = refl

  auth_middleware-some :
      (header : Text) (claims : Claims)
      → auth_middleware parse header ≡ some claims
      → bearer parse (split space header) ≡ some claims
  unfolding auth_middleware
  auth_middleware-some [] claims h = cc
  auth_middleware-some (x ∷ s) claims h = h

  -- AuthMiddleware lets a request through, with given claims, exactly when its header is a word, one
  -- space and a token without a space, the word is "bearer" in any case, and the token parses to
  -- these claims, which may have expired.
  pub auth_middleware-IsBearer :
      (header : Text) (claims : Claims)
      → (auth_middleware parse header ≡ some claims) ↔ IsBearer header claims
  auth_middleware-IsBearer header claims = (
    λ h.
        let (w, token, parts, word, got) =
          bearer-some (split space header) claims (auth_middleware-some header claims h) in
        let (joined, w_lacks, token_lacks) = split-two space header w token parts in
        (
          w,
          token,
          joined,
          w_lacks,
          token_lacks,
          word,
          (get_user_claims_from_token-some token claims).0 got,
        ),
    λ (w, token, joined, w_lacks, token_lacks, word, parsed). rw joined (
        auth_middleware-joined w token
        ∙ ap (bearer parse) (split-append space w token w_lacks token_lacks)
        ∙ rw word ((get_user_claims_from_token-some token claims).1 parsed)),
  )
