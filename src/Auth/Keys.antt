-- ===== src/Auth/Keys.antt =====
-- The two settings that app/api/deps/auth.py parses: the tenants' API keys and their limits. The
-- `lru_cache` round the parsers changes no result.
use chatting.Common.{String, Bool, not, ◌&&◌, ◌||◌, Option, none, some, List, [], ◌∷◌}
use chatting.Common.{if◌then◌else◌, ℤ, pos, ltb_ℤ}
use chatting.Common.Text.{is_empty, strip, split, split_once, has_char, parse_int}
use chatting.Common.Dict.{Dict, insert}

-- `not part or ":" not in part`
abbrev pub is_no_pair : String → Bool
is_no_pair part = is_empty part || not (has_char 58 part)

-- One round of the loop of `_parse_tenant_api_keys`.
unfoldable pub add_api_key : Dict String → String → Dict String
add_api_key mapping item =
    let part = strip item in
    let (tenant, token) = split_once 58 part in
    if is_no_pair part
    then mapping
    else if not (is_empty (strip tenant)) && not (is_empty (strip token))
    then insert (strip tenant) (strip token) mapping
    else mapping

-- `overrides[tenant] = value`, under the tests of the value
abbrev set_override : Dict ℤ → String → Option ℤ → Dict ℤ
set_override overrides tenant none = overrides
set_override overrides tenant (some value) =
    if ltb_ℤ (pos 0) value then insert tenant value overrides else overrides

-- One round of the loop of `_parse_tenant_overrides`.
unfoldable pub add_override : Dict ℤ → String → Dict ℤ
add_override overrides item =
    let part = strip item in
    let (tenant, limit_text) = split_once 58 part in
    if is_no_pair part
    then overrides
    else if is_empty (strip tenant)
    then overrides
    else set_override overrides (strip tenant) (parse_int (strip limit_text))

unfoldable pub add_all {ℓ} :
    {V : Type ℓ} → (Dict V → String → Dict V) → Dict V → List String → Dict V
add_all add d [] = d
add_all add d (item ∷ items) = add_all add (add d item) items

unfoldable pub parse_tenant_api_keys : String → Dict String
unfolding add_all add_api_key
parse_tenant_api_keys raw = add_all add_api_key [] (split 44 raw)

unfoldable pub parse_tenant_overrides : String → Dict ℤ
unfolding add_all add_override
parse_tenant_overrides raw = add_all add_override [] (split 44 raw)
