-- ===== src/Support/Written.antt =====
-- What the answers to a refused request write.
use rogue_learn_code_battle.Base.{
  ℕ, ◌≡◌, ◌≢◌, refl, Bool, false, Option, none, some, Option-cases, [], ◌∷◌, ◌++◌, Text, inl, inr,
  text_key, text_eq_refl, lookup, insert, lookup-insert, arith, if◌then◌else◌, if_either,
}
use rogue_learn_code_battle.Support.Answers.{
  JsonResponse, JsonResponseParameters, Headers, ResponseWriter, write_header, set_headers,
  content_type, json_type, json_with_headers, error_message, bad_request, to_upper_byte,
}
use rogue_learn_code_battle.Support.Decode.{
  DecoderError, Decoder, failed, decode_json, decode_json-ne, max_bytes_reader_limit,
}

-- The answer has the status and is announced as JSON.
pub record IsJsonAnswer (status : ℕ) (w : ResponseWriter) : Type 0 where
  pub has_status : w.status ≡ some status
  pub is_json : lookup content_type w.headers ≡ some json_type

IsJsonAnswer-write_header :
    (status other : ℕ) (w : ResponseWriter)
    → IsJsonAnswer status w
    → IsJsonAnswer status (write_header other w)
unfolding write_header
IsJsonAnswer-write_header status other w a = rw (a.has_status, write_header) a

lookup-content_type :
    (headers : Headers)
    → lookup content_type (insert content_type json_type headers) ≡ some json_type
lookup-content_type headers =
    ground
      (arith, text_eq_refl content_type, lookup-insert content_type content_type json_type headers)

IsJsonAnswer-first :
    (status : ℕ) (headers : Headers) (w : ResponseWriter)
    → w.status ≡ none
    → IsJsonAnswer status
        (write_header status (record w { headers = insert content_type json_type headers }))
unfolding write_header
IsJsonAnswer-first status headers w fresh =
    rw (fresh, write_header) (record { has_status = refl; is_json = lookup-content_type headers })

module _ {Data : Type 0} (encode : JsonResponse Data → Option Text) where
  json_with_headers-IsJsonAnswer :
      (params : JsonResponseParameters Data) (headers : Headers) (w : ResponseWriter)
      → w.status ≡ none
      → IsJsonAnswer params.status (json_with_headers encode params headers w).1
  unfolding json_with_headers write_header
  json_with_headers-IsJsonAnswer params headers w fresh =
      let response : JsonResponse Data = record {
        success = params.success;
        payload = params.payload;
        message = params.msg;
        error_message = params.err_msg;
      } in
      let a = IsJsonAnswer-first params.status (set_headers headers w.headers) w fresh in
      elim (Option-cases (encode response)) [
        | inl stuck ↦ rw (stuck, json_with_headers) a
        | inr (text, e) ↦
            rw (e, json_with_headers) (record { has_status = a.has_status; is_json = a.is_json })
      ]

  -- Also when the answer cannot be encoded, the status that was written first stays.
  error_message-IsJsonAnswer :
      (status : ℕ) (message : Text) (headers : Headers) (w : ResponseWriter)
      → message ≢ []
      → w.status ≡ none
      → (w' : ResponseWriter) × (error_message encode status message headers w ≡ some w')
        × IsJsonAnswer status w'
  unfolding error_message
  error_message-IsJsonAnswer status [] headers w some_text fresh = absurd (some_text refl)
  error_message-IsJsonAnswer status (b ∷ bs) headers w some_text fresh =
      let message = to_upper_byte b ++ bs in
      let params : JsonResponseParameters Data = record {
        status = status;
        payload = none;
        success = false;
        msg = message;
        err_msg = message;
      } in
      let r = json_with_headers encode params headers w in
      let a = json_with_headers-IsJsonAnswer params headers w fresh in
      (
        if r.0 then r.1 else write_header 500 r.1,
        refl,
        if_either (IsJsonAnswer status) r.0 (λ e. a)
            (λ e. IsJsonAnswer-write_header status 500 r.1 a),
      )

  -- Where each error of the decoder has a text, the answer of badRequest to a body that decodeJSON
  -- refuses does not panic: it has the status 400 and is announced as JSON, on a connection on which
  -- no status was written, also when its encoding fails.
  pub decode_json-refused :
      {Body A : Type 0} (decoder : Decoder Body A) (strict : Bool) (body : Body) (message : Text)
      (w : ResponseWriter)
      → ((err : DecoderError)
          → decoder.decode strict (decoder.max_bytes_reader max_bytes_reader_limit body) ≡ inl err
          → err.text ≢ [])
      → decode_json decoder strict body ≡ failed message
      → w.status ≡ none
      → (w' : ResponseWriter) × (bad_request encode message w ≡ some w') × IsJsonAnswer 400 w'
  unfolding bad_request
  decode_json-refused decoder strict body message w texts refused fresh =
      error_message-IsJsonAnswer 400 message [] w
        (decode_json-ne decoder strict body {message = message} texts refused) fresh
