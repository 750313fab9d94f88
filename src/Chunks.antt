-- ===== src/Chunks.antt =====
-- `[text[i : i + size] for i in range(0, len(text), size)]`, which cuts a reply into pieces in
-- `_chunk_text` of app/application/services/chat_orchestration_service.py and in the
-- `generate_stream` of app/adapters/outbound/vllm_http_client.py and vllm_client_stub.py.
pub mod Cover
use chatting.Common.{ℕ, zero, suc, ◌+◌, ◌-◌, ◌/◌, String, List, [], ◌∷◌}
use chatting.Common.Text

-- The slices that `range` still has, from its value `i` on.
unfoldable pub slices_from : ℕ → String → ℕ → ℕ → List String
slices_from size text zero i = []
slices_from size text (suc rounds) i =
    Text.take size (Text.drop i text) ∷ slices_from size text rounds (i + size)

-- `range(0, n, size)` has as many values as `n / size` rounded up.
unfoldable pub slices : ℕ → String → List String
unfolding slices_from
slices size text = slices_from size text ((Text.length text + size - 1) / size) 0
