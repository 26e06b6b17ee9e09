-- ===== src/Support/Answers.antt =====
-- pkg/response/response.go and internal/handlers/errors.go: JSON answers.
use rogue_learn_code_battle.Base.{
  ℕ, ◌-◌, Bool, true, false, ◌&&◌, Option, none, some, List, [], ◌∷◌, ◌++◌, Text, codes, text_key,
  insert, ltb, leb, if◌then◌else◌,
}

-- JsonResponse, with the data that json.Marshal sees.
pub record JsonResponse (Data : Type 0) : Type 0 where
  pub success : Bool
  pub payload : Option Data
  pub message : Text
  pub error_message : Text

pub record JsonResponseParameters (Data : Type 0) : Type 0 where
  pub status : ℕ
  pub payload : Option Data
  pub success : Bool
  pub msg : Text
  pub err_msg : Text

abbrev pub Headers : Type 0
Headers = List (Text × List Text)

-- An http.ResponseWriter: the first status that is written stays.
pub record ResponseWriter : Type 0 where
  pub headers : Headers
  pub status : Option ℕ
  pub body : Text

abbrev pub no_answer : ResponseWriter
no_answer = record { headers = []; status = none; body = [] }

unfoldable pub write_header : ℕ → ResponseWriter → ResponseWriter
write_header status w = elim w.status [ none ↦ record w { status = some status } | some first ↦ w ]

-- The loop over the headers that are given.
unfoldable pub set_headers : Headers → Headers → Headers
set_headers [] all = all
set_headers ((key, value) ∷ rest) all = set_headers rest (insert key value all)

abbrev pub content_type : Text
content_type = codes "Content-Type"

abbrev pub json_type : List Text
json_type = codes "application/json" ∷ []

-- strings.ToUpper on a text of one byte: a byte that is no rune becomes the replacement character.
unfoldable pub to_upper_byte : ℕ → Text
to_upper_byte b =
    if ltb b 128 then (if leb 97 b && leb b 122 then b - 32 else b) ∷ [] else 239 ∷ 191 ∷ 189 ∷ []

abbrev authenticated_only : Text
authenticated_only = codes "You must be authenticated to access this resource"

module _ {Data : Type 0} (encode : JsonResponse Data → Option Text) where
  -- JSONWithHeaders; `encode` is what Encode writes, or none for its error, which it has before it
  -- writes. The Boolean says that there was no error.
  unfoldable pub json_with_headers :
      JsonResponseParameters Data → Headers → ResponseWriter → Bool × ResponseWriter
  unfolding write_header set_headers
  json_with_headers params headers w =
      let w' =
        write_header params.status
          (record w { headers = insert content_type json_type (set_headers headers w.headers) }) in
      elim (encode (record {
        success = params.success;
        payload = params.payload;
        message = params.msg;
        error_message = params.err_msg;
      })) [ none ↦ (false, w') | some text ↦ (true, record w' { body = w'.body ++ text }) ]

  -- JSON
  unfoldable pub json : JsonResponseParameters Data → ResponseWriter → Bool × ResponseWriter
  unfolding json_with_headers
  json params w = json_with_headers params [] w

  -- errorMessage; `none` is a panic, on the slice of an empty message. The log is left out.
  unfoldable pub error_message : ℕ → Text → Headers → ResponseWriter → Option ResponseWriter
  unfolding json_with_headers write_header to_upper_byte
  error_message status [] headers w = none
  error_message status (b ∷ bs) headers w =
      let message = to_upper_byte b ++ bs in
      let (encoded, w') =
        json_with_headers
          (record {
            status = status;
            payload = none;
            success = false;
            msg = message;
            err_msg = message;
          })
          headers w in
      some (if encoded then w' else write_header 500 w')

  unfoldable pub invalid_credentials : ResponseWriter → Option ResponseWriter
  unfolding error_message
  invalid_credentials = error_message 400 (codes "invalid credentials") []

  -- serverError, whose error is only logged.
  unfoldable pub server_error : ResponseWriter → Option ResponseWriter
  unfolding error_message
  server_error =
      error_message 500
        (codes "The server encountered a problem and could not process your request") []

  unfoldable pub not_found : ResponseWriter → Option ResponseWriter
  unfolding error_message
  not_found = error_message 404 (codes "The requested resource could not be found") []

  unfoldable pub method_not_allowed : Text → ResponseWriter → Option ResponseWriter
  unfolding error_message
  method_not_allowed method =
      error_message 405
        (codes "The " ++ (method ++ codes " method is not supported for this resource")) []

  unfoldable pub bad_request : Text → ResponseWriter → Option ResponseWriter
  unfolding error_message
  bad_request err = error_message 400 err []

  unfoldable pub basic_authentication_required : ResponseWriter → Option ResponseWriter
  unfolding error_message
  basic_authentication_required =
      error_message 401 authenticated_only (
        (codes "Www-Authenticate", codes "Basic realm=\"restricted\", charset=\"UTF-8\"" ∷ []) ∷ [])

  unfoldable pub unauthorized : ResponseWriter → Option ResponseWriter
  unfolding error_message
  unauthorized = error_message 401 authenticated_only []
