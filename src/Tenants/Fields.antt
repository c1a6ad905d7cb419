-- ===== src/Tenants/Fields.antt =====
-- backend/app/tenants/field_policy.py and config_standard.py: the fields of a configuration, their
-- policies and the values of the standard.
use Prim.Native.String.{String}
use qora.Base.{ℕ, Bool, true, false, Option, none, some, List, [], ◌∷◌}

-- the keys of `FIELD_POLICY`, and any other name
pub data Field : Type 0 where
  analysis_model elevenlabs_system_tool_passthrough end_call_tool_enabled first_message : Field
  goal language load_skill_force_injection max_call_duration_seconds : Field
  max_call_duration_seconds_bounds max_tokens memory_profile_facts_placement : Field
  memory_window_calls model post_call_webhook_secret_required prompt_assembly_order : Field
  soft_timeout_message soft_timeout_seconds soft_timeout_use_llm system_prompt : Field
  technical_retry_max_attempts temperature tools_enabled tts_model tts_similarity_boost : Field
  tts_speed tts_stability turn_eagerness voice_id voicemail_detection_enabled : Field
  other : String → Field

pub data Policy : Type 0 where
  locked overridable client_only agent_required : Policy

abbrev pub is_agent_required : Option Policy → Bool
is_agent_required (some agent_required) = true
is_agent_required _ = false

-- `policy in ("locked", "client_only")`
abbrev pub is_above_agent : Option Policy → Bool
is_above_agent (some locked) = true
is_above_agent (some client_only) = true
is_above_agent _ = false

-- `FIELD_POLICY.get(name)`
unfoldable pub field_policy : Field → Option Policy
field_policy analysis_model = some locked
field_policy elevenlabs_system_tool_passthrough = some locked
field_policy end_call_tool_enabled = some locked
field_policy first_message = some overridable
field_policy goal = some agent_required
field_policy language = some client_only
field_policy load_skill_force_injection = some locked
field_policy max_call_duration_seconds = some overridable
field_policy max_call_duration_seconds_bounds = some locked
field_policy max_tokens = some overridable
field_policy memory_profile_facts_placement = some locked
field_policy memory_window_calls = some locked
field_policy model = some overridable
field_policy post_call_webhook_secret_required = some locked
field_policy prompt_assembly_order = some locked
field_policy soft_timeout_message = some overridable
field_policy soft_timeout_seconds = some overridable
field_policy soft_timeout_use_llm = some overridable
field_policy system_prompt = some agent_required
field_policy technical_retry_max_attempts = some locked
field_policy temperature = some overridable
field_policy tools_enabled = some overridable
field_policy tts_model = some overridable
field_policy tts_similarity_boost = some overridable
field_policy tts_speed = some overridable
field_policy tts_stability = some overridable
field_policy turn_eagerness = some overridable
field_policy voice_id = some agent_required
field_policy voicemail_detection_enabled = some overridable
field_policy (other name) = none

-- the keys of `FIELD_POLICY`, in its order
abbrev pub registry : List Field
registry =
    system_prompt ∷ goal ∷ voice_id ∷ tts_model ∷ tts_speed ∷ tts_stability ∷ tts_similarity_boost
    ∷ model ∷ temperature ∷ max_tokens ∷ tools_enabled ∷ first_message ∷ language ∷ turn_eagerness
    ∷ soft_timeout_seconds ∷ soft_timeout_message ∷ soft_timeout_use_llm
    ∷ voicemail_detection_enabled ∷ max_call_duration_seconds ∷ end_call_tool_enabled
    ∷ analysis_model ∷ memory_window_calls ∷ memory_profile_facts_placement ∷ prompt_assembly_order
    ∷ load_skill_force_injection ∷ elevenlabs_system_tool_passthrough ∷ technical_retry_max_attempts
    ∷ max_call_duration_seconds_bounds ∷ post_call_webhook_secret_required ∷ []

-- the keys of `FIELD_POLICY`, as `sorted` orders them
abbrev pub all_fields : List Field
all_fields =
    analysis_model ∷ elevenlabs_system_tool_passthrough ∷ end_call_tool_enabled ∷ first_message
    ∷ goal ∷ language ∷ load_skill_force_injection ∷ max_call_duration_seconds
    ∷ max_call_duration_seconds_bounds ∷ max_tokens ∷ memory_profile_facts_placement
    ∷ memory_window_calls ∷ model ∷ post_call_webhook_secret_required ∷ prompt_assembly_order
    ∷ soft_timeout_message ∷ soft_timeout_seconds ∷ soft_timeout_use_llm ∷ system_prompt
    ∷ technical_retry_max_attempts ∷ temperature ∷ tools_enabled ∷ tts_model ∷ tts_similarity_boost
    ∷ tts_speed ∷ tts_stability ∷ turn_eagerness ∷ voice_id ∷ voicemail_detection_enabled ∷ []

-- `AGENT_REQUIRED_FIELDS`
abbrev pub agent_required_fields : List Field
agent_required_fields = goal ∷ system_prompt ∷ voice_id ∷ []

-- A value of a field. `decimal m k` is m / 10 ^ k; `bounds` is a pair of integers.
pub data Value : Type 0 where
  text : String → Value
  whole : ℕ → Value
  decimal : ℕ → ℕ → Value
  flag : Bool → Value
  names : List String → Value
  bounds : ℕ → ℕ → Value

-- `AgentConfigStandard`; it has no field of the policy `agent_required`
unfoldable pub standard : Field → Option Value
standard analysis_model = some (text "gpt-4o-mini")
standard elevenlabs_system_tool_passthrough =
    some (text "forward every EL system tool not already claimed by a Qora tool name")
standard end_call_tool_enabled = some (flag true)
standard first_message = none
standard goal = none
standard language = none
standard load_skill_force_injection =
    some (text "load_skill tool always present when the agent has a skills registry.yaml")
standard max_call_duration_seconds = some (whole 120)
standard max_call_duration_seconds_bounds = some (bounds 30 7200)
standard max_tokens = some (whole 300)
standard memory_profile_facts_placement =
    some (text "end of prompt, after memory, lead-evidenced facts only")
standard memory_window_calls = some (whole 3)
standard model = some (text "gpt-4.1-mini")
standard post_call_webhook_secret_required =
    some (text "enforced when QORA_WEBHOOK_AUTH_ENABLED=true")
standard prompt_assembly_order =
    some (text "fixed content first, variable content (lead data, memory, time) last")
standard soft_timeout_message = none
standard soft_timeout_seconds = none
standard soft_timeout_use_llm = none
standard system_prompt = none
standard technical_retry_max_attempts = some (whole 2)
standard temperature = some (decimal 7 1)
standard tools_enabled = some (names ("get_lead_details" ∷ []))
standard tts_model = some (text "eleven_v4_turbo")
standard tts_similarity_boost = some (decimal 75 2)
standard tts_speed = some (decimal 95 2)
standard tts_stability = some (decimal 4 1)
standard turn_eagerness = some (text "normal")
standard voice_id = none
standard voicemail_detection_enabled = some (flag true)
standard (other name) = none
