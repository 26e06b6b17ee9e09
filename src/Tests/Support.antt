-- ===== src/Tests/Support.antt =====
-- The theorems on requests and answers at concrete inputs.
use rogue_learn_code_battle.Base.{
  ℕ, ◌≡◌, ◌≢◌, ◌↔◌, ◌⊎◌, inl, inr, refl, Bool, true, false, Option, none, some, List, [], ◌∷◌, Text,
  codes,
}
use rogue_learn_code_battle.Support.Decode.{
  DecoderError, Decoder, decoded, failed, decode_json, decode_json_accepts, second, error_text,
  max_bytes_reader_limit,
}
use rogue_learn_code_battle.Support.Answers.{JsonResponse, ResponseWriter, no_answer, bad_request}
use rogue_learn_code_battle.Support.Written.{IsJsonAnswer, decode_json-refused}

abbrev eof_error : DecoderError
eof_error = record {
  syntax_error = none;
  is_unexpected_eof = false;
  unmarshal_type_error = none;
  is_eof = true;
  max_bytes_error = none;
  is_invalid_unmarshal = false;
  text = codes "EOF";
}

abbrev first_number : Bool → List ℕ → DecoderError ⊎ (ℕ × List ℕ)
first_number strict [] = inl eof_error
first_number strict (n ∷ rest) = inr (n, rest)

abbrev nothing_more : Bool → List ℕ → Option DecoderError
nothing_more strict [] = some eof_error
nothing_more strict (n ∷ rest) = none

-- A body is a list of numbers, each a JSON value of its own.
abbrev numbers : Decoder (List ℕ) ℕ
numbers = record {
  max_bytes_reader = λ limit body. body;
  decode = first_number;
  decode_empty = nothing_more;
  quote = λ s. s;
}

decode_json_accepts_example : (decode_json numbers false (7 ∷ []) ≡ decoded 7) ↔ (
    (rest : List ℕ) × (err : DecoderError) × (numbers.decode false
        (numbers.max_bytes_reader max_bytes_reader_limit (7 ∷ []))
      ≡ inr (7, rest))
    × (numbers.decode_empty false rest ≡ some err)
    × (err.is_eof ≡ true))
decode_json_accepts_example = decode_json_accepts numbers false (7 ∷ []) 7

accepted : decode_json numbers false (7 ∷ []) ≡ decoded 7
unfolding decode_json second
accepted = refl

abbrev empty_message : Text
empty_message = codes "body must not be empty"

empty_refused : decode_json numbers false [] ≡ failed empty_message
unfolding decode_json second error_text
empty_refused = refl

has_text : (err : DecoderError) → first_number false [] ≡ inl err → err.text ≢ []
has_text err e empty = cc

-- An answer whose encoding fails.
abbrev no_encoding : JsonResponse ℕ → Option Text
no_encoding r = none

decode_json-refused_example :
    (w' : ResponseWriter) × (bad_request no_encoding empty_message no_answer ≡ some w')
    × IsJsonAnswer 400 w'
decode_json-refused_example =
    decode_json-refused no_encoding numbers false [] empty_message no_answer has_text empty_refused
      refl
