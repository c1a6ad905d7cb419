-- ===== src/Outbound/Sweep/Stale.antt =====
-- About `sweep_stale_outbound_sessions` of backend/app/outbound/sweep.py.
use qora.Base.{
  ℕ, ◌≡◌, refl, true, false, ◌==◌, List, [], ◌∷◌, arith, where_rows, length, Bool-cases, inl, inr,
}
use qora.Store.{Session, update_where}
use qora.Store.Rows.{CallSession}
use qora.Outbound.Sweep.{is_stale, settle, sweep_stale_outbound_sessions}

settled : (now : ℕ) (r : CallSession) → is_stale now (settle r) ≡ false
settled now r = elim (Bool-cases r.session_end_received) [ inl e ↦ rw e refl | inr e ↦ rw e refl ]

-- none of the swept rows is stale
swept-clear :
    (now : ℕ) (rows : List CallSession)
    → where_rows (is_stale now) (update_where (is_stale now) settle rows) ≡ []
swept-clear now [] = refl
swept-clear now (r ∷ rows) = elim (Bool-cases (is_stale now r)) [
  | inl e ↦ rw (e, settled now r, swept-clear now rows) refl
  | inr e ↦ rw (e, e, swept-clear now rows) refl
]

length-zero : (now : ℕ) (rows : List CallSession) → (length rows == 0) ≡ true → rows ≡ []
length-zero now [] h = refl
length-zero now (r ∷ rows) h = ground arith

-- After a sweep no session is stale at that time.
sweep_stale-clear :
    (now : ℕ) (s : Session)
    → where_rows (is_stale now) (sweep_stale_outbound_sessions now s).1.view.call_sessions ≡ []
unfolding sweep_stale_outbound_sessions
sweep_stale-clear now s =
    let rows : List CallSession = s.view.call_sessions in
    elim (Bool-cases (length (where_rows (is_stale now) rows) == 0)) [
      | inl e ↦ rw e (length-zero now (where_rows (is_stale now) rows) e)
      | inr e ↦ rw e (swept-clear now rows)
    ]

-- A second sweep at the same time finds nothing and changes nothing.
pub sweep_stale_idem :
    (now : ℕ) (s : Session)
    → sweep_stale_outbound_sessions now (sweep_stale_outbound_sessions now s).1
      ≡ (0, (sweep_stale_outbound_sessions now s).1)
unfolding sweep_stale_outbound_sessions
sweep_stale_idem now s = rw (sweep_stale-clear now s) refl
