-- ===== src/Outbound/Dial/Requests.antt =====
-- The requests that `dial_outbound_call` of backend/app/outbound/service.py sends.
use qora.Base.{
  ℕ, ◌≤◌, ◌≡◌, refl, sym, ◌∙◌, ap, Bool, true, false, Option, none, some, List, [], arith,
  count_rows, ◌⊎◌, inl, inr,
}
use qora.Store.{Session}
use qora.Store.Rows.{ErrorDetail}
use qora.Outbound.Provider.{
  CallResult, accepted, failure, raised, Category, transient, permanent, unknown,
  initiate_outbound_call,
}
use qora.Outbound.Guards.{
  DialLibrary, FailureCode, Target, Checked, passed, blocked, broke, Ready, check_guards,
}
use qora.Outbound.Dial.{
  DialStatus, dialing, failed, recurrent_error, DialResult, meanwhile, create_dialing, Dialed, Act,
  posted, probed, Moment, give_up, after_second, after_first, after_guards, dial_outbound_call,
  result_of,
}

abbrev pub is_posted : Act → Bool
is_posted posted = true
is_posted probed = false

abbrev pub count_posted : List Act → ℕ
count_posted acts = count_rows is_posted acts

-- the end of a dial that got past the guards: an exception, or a result for the new session
abbrev Named : ℕ → Dialed → Type 0
Named id d = (d.result ≡ none) ⊎ ((status : DialStatus) × (d.result ≡ some (result_of status id)))

second-Named :
    (lib : DialLibrary) (m : Moment) (ready : Ready) (e : ErrorDetail) (o : CallResult)
    (s : Session)
    → Named m.new_session (after_second lib m ready e o s)
unfolding after_second give_up
second-Named lib m ready e (accepted key body) s = inr (dialing, refl)
second-Named lib m ready e (failure category d) s = inr (recurrent_error, refl)
second-Named lib m ready e raised s = inl refl

first-Named :
    (lib : DialLibrary) (m : Moment) (ready : Ready) (o : CallResult) (s : Session)
    → Named m.new_session (after_first lib m ready o s)
unfolding after_first
first-Named lib m ready (accepted key body) s = inr (dialing, refl)
first-Named lib m ready (failure Category.no_answer e) s = inr (failed, refl)
first-Named lib m ready (failure permanent e) s = inr (failed, refl)
first-Named lib m ready (failure unknown e) s = inr (failed, refl)
first-Named lib m ready (failure transient e) s =
    second-Named lib m ready e (initiate_outbound_call lib.strings m.second_exchange) _
first-Named lib m ready raised s = inl refl

-- the result of a guard
abbrev pub refusal : FailureCode → DialResult
refusal code = record { status = failed; call_session_id = none; failure_code = some code }

-- an exception, the result of a guard, or a result for the new session
abbrev pub Ends : ℕ → Option DialResult → Type 0
Ends id o =
    (o ≡ none)
    ⊎ (((code : FailureCode) × (o ≡ some (refusal code)))
        ⊎ ((status : DialStatus) × (o ≡ some (result_of status id))))

guards-Ends :
    (lib : DialLibrary) (m : Moment) (c : Checked Ready) (s : Session)
    → Ends m.new_session ((after_guards lib m c s).result)
unfolding after_guards
guards-Ends lib m broke s = inl refl
guards-Ends lib m (blocked code) s = inr (inl (code, refl))
guards-Ends lib m (passed ready) s =
    elim (first-Named lib m ready (initiate_outbound_call lib.strings m.first_exchange)
      (meanwhile m.during_first (create_dialing m.new_session m.now ready s))) [
        | inl e ↦ inl e
        | inr (status, e) ↦ inr (inr (status, e))
      ]

pub dial-Ends :
    (lib : DialLibrary) (m : Moment) (target : Target) (s : Session)
    → Ends m.new_session ((dial_outbound_call lib m target s).result)
unfolding dial_outbound_call
dial-Ends lib m target s = guards-Ends lib m (check_guards lib m.now target s.view) s

abbrev session_named : Option DialResult → Option ℕ
session_named none = none
session_named (some r) = r.call_session_id

guards-uncharged :
    (lib : DialLibrary) (m : Moment) (c : Checked Ready) (s : Session) (r : DialResult)
    → (after_guards lib m c s).result ≡ some r
    → r.call_session_id ≡ none
    → ((after_guards lib m c s).session ≡ s) × ((after_guards lib m c s).acts ≡ [])
unfolding after_guards
guards-uncharged lib m broke s r h e = cc
guards-uncharged lib m (blocked code) s r h e = (refl, refl)
guards-uncharged lib m (passed ready) s r h e =
    elim (first-Named lib m ready (initiate_outbound_call lib.strings m.first_exchange)
      (meanwhile m.during_first (create_dialing m.new_session m.now ready s))) [
        | inl n ↦ cc (h, n)
        | inr (status, n) ↦ cc (ap session_named (sym n ∙ h), e)
      ]

-- A dial that returns a result without a call session sent no request to the provider and left
-- every table as it was.
pub dial-uncharged :
    (lib : DialLibrary) (m : Moment) (target : Target) (s : Session) (r : DialResult)
    → (dial_outbound_call lib m target s).result ≡ some r
    → r.call_session_id ≡ none
    → ((dial_outbound_call lib m target s).session ≡ s)
      × ((dial_outbound_call lib m target s).acts ≡ [])
unfolding dial_outbound_call
dial-uncharged lib m target s r h e =
    guards-uncharged lib m (check_guards lib m.now target s.view) s r h e

-- at most one request, or two of which the first failed for a transient reason
abbrev IsSparing : DialLibrary → Moment → List Act → Type 0
IsSparing lib m acts =
    (count_posted acts ≤ 1)
    ⊎ ((count_posted acts ≡ 2)
        × ((e : ErrorDetail) × (initiate_outbound_call lib.strings m.first_exchange
              ≡ failure transient e)))

second-posts :
    (lib : DialLibrary) (m : Moment) (ready : Ready) (e : ErrorDetail) (o : CallResult)
    (s : Session)
    → count_posted ((after_second lib m ready e o s).acts) ≡ 2
unfolding after_second give_up
second-posts lib m ready e (accepted key body) s = refl
second-posts lib m ready e (failure category d) s = refl
second-posts lib m ready e raised s = refl

first-IsSparing :
    (lib : DialLibrary) (m : Moment) (ready : Ready) (o : CallResult) (s : Session)
    → initiate_outbound_call lib.strings m.first_exchange ≡ o
    → IsSparing lib m ((after_first lib m ready o s).acts)
unfolding after_first
first-IsSparing lib m ready (accepted key body) s h = inl (omega arith)
first-IsSparing lib m ready (failure Category.no_answer d) s h = inl (omega arith)
first-IsSparing lib m ready (failure permanent d) s h = inl (omega arith)
first-IsSparing lib m ready (failure unknown d) s h = inl (omega arith)
first-IsSparing lib m ready (failure transient d) s h = inr (
  second-posts lib m ready d (initiate_outbound_call lib.strings m.second_exchange)
      (meanwhile m.during_second s),
  (d, h),
)
first-IsSparing lib m ready raised s h = inl (omega arith)

guards-IsSparing :
    (lib : DialLibrary) (m : Moment) (c : Checked Ready) (s : Session)
    → IsSparing lib m ((after_guards lib m c s).acts)
unfolding after_guards
guards-IsSparing lib m broke s = inl (omega arith)
guards-IsSparing lib m (blocked code) s = inl (omega arith)
guards-IsSparing lib m (passed ready) s =
    first-IsSparing lib m ready (initiate_outbound_call lib.strings m.first_exchange)
      (meanwhile m.during_first (create_dialing m.new_session m.now ready s)) refl

-- A dial sends at most one request to the provider, or two of which the first failed for a
-- transient reason: an answer that is accepted, permanent, ambiguous or a missed call is never
-- followed by a second request.
pub dial-posts :
    (lib : DialLibrary) (m : Moment) (target : Target) (s : Session)
    → (count_posted ((dial_outbound_call lib m target s).acts) ≤ 1)
      ⊎ ((count_posted ((dial_outbound_call lib m target s).acts) ≡ 2)
          × ((e : ErrorDetail) × (initiate_outbound_call lib.strings m.first_exchange
                ≡ failure transient e)))
unfolding dial_outbound_call
dial-posts lib m target s = guards-IsSparing lib m (check_guards lib m.now target s.view) s
