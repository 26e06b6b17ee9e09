-- ===== src/Support/Decode.antt =====
-- pkg/request/request.go: the body of a request as one JSON value.
use rogue_learn_code_battle.Base.{
  ℕ, ◌≡◌, ◌≢◌, ◌↔◌, ◌⊎◌, inl, inr, refl, Bool, true, false, Option, none, some, Option-cases,
  Bool-cases, [], ◌++◌, Text, codes, is_empty, decimal, strip_prefix?, if◌then◌else◌, not, arith,
  ap, ◌∙◌, sym, true≢false,
}

-- What the switch on an error of the decoder asks for: which kinds of error are in its chain, with
-- the fields that are read, and its text.
pub record DecoderError : Type 0 where
  pub syntax_error : Option ℕ
  pub is_unexpected_eof : Bool
  pub unmarshal_type_error : Option (Text × ℕ)
  pub is_eof : Bool
  pub max_bytes_error : Option ℕ
  pub is_invalid_unmarshal : Bool
  pub text : Text

-- http.MaxBytesReader and a json.Decoder: the value of a first call of Decode with the body that is
-- left, and what a second call into an empty struct returns.
pub record Decoder (Body A : Type 0) : Type 0 where
  pub max_bytes_reader : ℕ → Body → Body
  pub decode : Bool → Body → DecoderError ⊎ (A × Body)
  pub decode_empty : Bool → Body → Option DecoderError
  pub quote : Text → Text

pub data Decoded (A : Type 0) : Type 0 where
  panicked : Decoded A
  failed : Text → Decoded A
  decoded : A → Decoded A

abbrev pub max_bytes_reader_limit : ℕ
max_bytes_reader_limit = 1048576

abbrev pub unknown_field : Text
unknown_field = codes "json: unknown field "

decoded_injective : {A : Type 0} {a b : A} → decoded a ≡ decoded b → a ≡ b
decoded_injective e = cc (e)

inr_injective : {A B : Type 0} {a b : B} → ◌≡◌ {A = A ⊎ B} (inr a) (inr b) → a ≡ b
inr_injective e = cc (e)

module _ {Body A : Type 0} (decoder : Decoder Body A) where
  -- The cases of the switch behind those of the syntax and of the end of the body.
  unfoldable pub other_message : DecoderError → Option Text
  other_message err = elim (strip_prefix? unknown_field err.text) [
    | some name ↦ some (codes "body contains unknown key " ++ name)
    | none ↦ elim err.max_bytes_error [
      | some limit ↦
          some (codes "body must not be larger than " ++ (decimal limit ++ codes " bytes"))
      | none ↦ if err.is_invalid_unmarshal then none else some err.text
    ]
  ]

  -- The switch of decodeJSON: the message, or none for a panic.
  unfoldable pub error_text : DecoderError → Option Text
  unfolding other_message
  error_text err = elim err.syntax_error [
    | some offset ↦
        some
          (codes "body contains badly-formed JSON (at character " ++ (decimal offset ++ codes ")"))
    | none ↦
        if err.is_unexpected_eof
        then some (codes "body contains badly-formed JSON")
        else elim err.unmarshal_type_error [
          | some (field, offset) ↦
              if not (is_empty field)
              then some
                  (codes "body contains incorrect JSON type for field " ++ decoder.quote field)
              else some (
                  codes "body contains incorrect JSON type (at character "
                  ++ (decimal offset ++ codes ")"))
          | none ↦ if err.is_eof then some (codes "body must not be empty") else other_message err
        ]
  ]

  -- errors.Is(err, io.EOF) on what the second call of Decode returns.
  abbrev pub at_end : Option DecoderError → Bool
  at_end none = false
  at_end (some err) = err.is_eof

  -- decodeJSON behind its first call of Decode.
  unfoldable pub second : Bool → DecoderError ⊎ (A × Body) → Decoded A
  unfolding error_text
  second disallow_unknown_fields (inl err) = elim (error_text err) [
    | none ↦ panicked
    | some message ↦ failed message
  ]
  second disallow_unknown_fields (inr (value, rest)) =
      if at_end (decoder.decode_empty disallow_unknown_fields rest)
      then decoded value
      else failed (codes "body must only contain a single JSON value")

  -- decodeJSON
  unfoldable pub decode_json : Bool → Body → Decoded A
  unfolding second
  decode_json disallow_unknown_fields body = second disallow_unknown_fields (
      decoder.decode disallow_unknown_fields (decoder.max_bytes_reader max_bytes_reader_limit body))

  -- DecodeJSON and DecodeJSONStrict
  unfoldable pub decode_json_lax : Body → Decoded A
  unfolding decode_json
  decode_json_lax = decode_json false

  unfoldable pub decode_json_strict : Body → Decoded A
  unfolding decode_json
  decode_json_strict = decode_json true

  other_message-ne :
      (err : DecoderError) {message : Text}
      → err.text ≢ []
      → other_message err ≡ some message
      → message ≢ []
  unfolding other_message
  other_message-ne err h e empty = ground arith

  error_text-ne :
      (err : DecoderError) {message : Text}
      → err.text ≢ []
      → error_text err ≡ some message
      → message ≢ []
  unfolding error_text
  error_text-ne err {message} h e empty = ground (arith, other_message-ne err {message = message} h)

  second-ne :
      (strict : Bool) (first : DecoderError ⊎ (A × Body)) {message : Text}
      → ((err : DecoderError) → first ≡ inl err → err.text ≢ [])
      → second strict first ≡ failed message
      → message ≢ []
  unfolding second
  second-ne strict (inl err) {message} h e = elim (Option-cases (error_text err)) [
    | inl stuck ↦ cc (rw (stuck, second) at e)
    | inr (m, is) ↦
        let same : failed m ≡ failed message = rw (is, second) at e in
        error_text-ne err (h err refl) (is ∙ ap some (cc same))
  ]
  second-ne strict (inr (value, rest)) h e = ground arith

  second-accepts :
      (strict : Bool) (first : DecoderError ⊎ (A × Body)) (value : A)
      → (second strict first ≡ decoded value) ↔ (
          (rest : Body) × (first ≡ inr (value, rest))
          × (at_end (decoder.decode_empty strict rest) ≡ true))
  unfolding second
  second-accepts strict (inl err) value = (
    λ e. elim (Option-cases (error_text err)) [
      | inl stuck ↦ cc (rw (stuck, second) at e)
      | inr (m, is) ↦ cc (rw (is, second) at e)
    ],
    λ h. cc (h.1),
  )
  second-accepts strict (inr (v, rest)) value =
      elim (Bool-cases (at_end (decoder.decode_empty strict rest))) [
        | inl last ↦
            rw (last, second)
              (
                λ e. (rest, ap (λ a. inr (a, rest)) (decoded_injective e), last),
                λ h. ap (λ (p : A × Body). decoded p.0) (inr_injective h.1),
              )
        | inr more ↦
            rw (more, second)
              (
                λ e. cc,
                λ h. absurd (
                    true≢false (
                      sym h.2
                      ∙ (sym (
                            ap (λ (p : A × Body). at_end (decoder.decode_empty strict p.1))
                              (inr_injective h.1))
                          ∙ more))),
              )
      ]

  at_end_iff :
      (second_error : Option DecoderError)
      → (at_end second_error ≡ true)
        ↔ ((err : DecoderError) × (second_error ≡ some err) × (err.is_eof ≡ true))
  at_end_iff none = (λ e. cc, λ h. cc (h.1))
  at_end_iff (some err) = (λ e. (err, refl, e), λ h. ap at_end h.1 ∙ h.2)

  -- decodeJSON accepts a body exactly when the first call of Decode yields its value, and the
  -- second call, on what the first left of the body, returns an error that is io.EOF.
  pub decode_json_accepts :
      (strict : Bool) (body : Body) (value : A)
      → (decode_json strict body ≡ decoded value) ↔ (
          (rest : Body) × (err : DecoderError) × (decoder.decode strict
              (decoder.max_bytes_reader max_bytes_reader_limit body)
            ≡ inr (value, rest))
          × (decoder.decode_empty strict rest ≡ some err)
          × (err.is_eof ≡ true))
  unfolding decode_json
  decode_json_accepts strict body value =
      let (there, back) =
        second-accepts strict
          (decoder.decode strict (decoder.max_bytes_reader max_bytes_reader_limit body)) value in
      (
        λ e.
            let (rest, first, last) = there e in
            let (err, is, eof) = (at_end_iff (decoder.decode_empty strict rest)).0 last in
            (rest, err, first, is, eof),
        λ h. back (h.0, h.2, (at_end_iff (decoder.decode_empty strict h.0)).1 (h.1, h.3, h.4)),
      )

  -- A message of decodeJSON is not empty, when the errors of the decoder have a text.
  pub decode_json-ne :
      (strict : Bool) (body : Body) {message : Text}
      → ((err : DecoderError)
          → decoder.decode strict (decoder.max_bytes_reader max_bytes_reader_limit body) ≡ inl err
          → err.text ≢ [])
      → decode_json strict body ≡ failed message
      → message ≢ []
  unfolding decode_json
  decode_json-ne strict body h e = second-ne strict _ h e
