-- ===== src/Provider/Vllm/Content.antt =====
-- The texts that the parser of the vLLM client's responses gives.
use chatting.Common.{◌≡◌, inl, inr, String, false, Bool-cases}
use chatting.Common.Text.{is_empty, strip}
use chatting.Exec.{ok, ok-injective}
use chatting.Json.{Json, object, text, array, item, get_of, get_field}
use chatting.Provider.Vllm.{content_text, content_of, message_of, first_of, parse_response_content}

content_text-filled : (j : Json) (s : String) → content_text j ≡ ok s → is_empty (strip s) ≡ false
content_text-filled (text content) s h = elim (Bool-cases (is_empty (strip content))) [
  | inl k ↦ cc (rw k at h)
  | inr k ↦ rw (← ok-injective (rw k at h)) k
]
content_text-filled _ s h = cc

content_of-filled : (j : Json) (s : String) → content_of j ≡ ok s → is_empty (strip s) ≡ false
content_of-filled (object fields) s h = content_text-filled (get_field "content" fields) s h
content_of-filled _ s h = cc

message_of-filled : (j : Json) (s : String) → message_of j ≡ ok s → is_empty (strip s) ≡ false
message_of-filled (object fields) s h = content_of-filled (get_field "message" fields) s h
message_of-filled _ s h = cc

first_of-filled : (j : Json) (s : String) → first_of j ≡ ok s → is_empty (strip s) ≡ false
first_of-filled (array (item first rest)) s h = message_of-filled first s h
first_of-filled _ s h = cc

-- A content that is given is not blank.
pub parse_response_content-filled :
    (body : Json) (s : String) → parse_response_content body ≡ ok s → is_empty (strip s) ≡ false
unfolding parse_response_content get_of
parse_response_content-filled (object fields) s h = first_of-filled (get_field "choices" fields) s h
parse_response_content-filled _ s h = cc
