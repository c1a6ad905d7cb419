-- ===== src/Calls/States.antt =====
-- backend/app/calls/states.py: the telephony states and their transition table.
pub mod Reach
use qora.Base.{ℕ, Bool, List, [], ◌∷◌, ◌==◌, if◌then◌else◌, any_row}

pub data CallStatus : Type 0 where
  queued dialing ringing connected voicemail completed : CallStatus
  no_answer failed recurrent_error stale_in_call : CallStatus

abbrev rank : CallStatus → ℕ
rank queued = 0
rank dialing = 1
rank ringing = 2
rank connected = 3
rank voicemail = 4
rank completed = 5
rank no_answer = 6
rank failed = 7
rank recurrent_error = 8
rank stale_in_call = 9

-- `a == b` on the enum
abbrev pub status_eq : CallStatus → CallStatus → Bool
status_eq a b = rank a == rank b

-- `VALID_TRANSITIONS`
unfoldable pub valid_transitions : CallStatus → List CallStatus
valid_transitions queued = dialing ∷ []
valid_transitions dialing = ringing ∷ failed ∷ recurrent_error ∷ []
valid_transitions ringing = connected ∷ no_answer ∷ stale_in_call ∷ []
valid_transitions connected = voicemail ∷ completed ∷ stale_in_call ∷ []
valid_transitions voicemail = completed ∷ []
valid_transitions failed = dialing ∷ []
valid_transitions completed = []
valid_transitions no_answer = []
valid_transitions recurrent_error = []
valid_transitions stale_in_call = []

pub data Verdict : Type 0 where
  permitted : Verdict
  value_error : Verdict

-- `validate_transition`: returns nothing, or raises `ValueError`
unfoldable pub validate_transition : CallStatus → CallStatus → Verdict
unfolding valid_transitions
validate_transition from to =
    if any_row (status_eq to) (valid_transitions from) then permitted else value_error
