-- ===== src/Auth/Active.antt =====
-- Lists of active clients, and texts after a prefix (backend/app/auth/sessions.py,
-- backend/app/core/auth.py).
use qora.Base.{
  ℕ, ◌≡◌, refl, Bool, true, false, Option, none, some, List, [], ◌∷◌, ◌++◌, ◌&&◌, where_rows,
  any_row, All, arith, is_none,
}
use qora.Base.Texts.{same_text, starts_with, in_texts}
use qora.Auth.{AuthClient, AuthDb, subset, client_ids_of, active_ids}
use qora.Auth.Access.{without_prefix}

pub prefix-append :
    (prefix text : List ℕ)
    → starts_with text prefix ≡ true
    → text ≡ prefix ++ without_prefix prefix text
prefix-append [] text h = refl
prefix-append (p ∷ prefix) [] h = cc
prefix-append (p ∷ prefix) (c ∷ text) h = ground (arith, prefix-append prefix text)

-- an active client has the id
abbrev pub IsActiveId : AuthDb → List ℕ → Type 0
IsActiveId db id = any_row (λ (c : AuthClient). same_text c.id id && c.is_active) db.clients ≡ true

active-in :
    (id : List ℕ) (p : AuthClient → Bool) (clients : List AuthClient)
    → in_texts id (client_ids_of (where_rows p clients)) ≡ true
    → any_row (λ c. same_text c.id id && p c) clients ≡ true
active-in id p [] h = h
active-in id p (c ∷ clients) h = ground (arith, active-in id p clients)

pub and_split : (a b : Bool) → (a && b) ≡ true → (a ≡ true) × (b ≡ true)
and_split true b h = (refl, h)
and_split false b h = cc

any-weaken :
    (p q r : AuthClient → Bool) (clients : List AuthClient)
    → any_row (λ c. p c && (q c && r c)) clients ≡ true
    → any_row (λ c. p c && r c) clients ≡ true
any-weaken p q r [] h = h
any-weaken p q r (c ∷ clients) h = ground (arith, any-weaken p q r clients)

pub All-active :
    (db : AuthDb) (ids among : List (List ℕ))
    → subset ids (active_ids among db) ≡ true
    → All (IsActiveId db) ids
unfolding active_ids
All-active db [] among h = tt
All-active db (id ∷ ids) among h =
    let p = λ (c : AuthClient). in_texts c.id among && c.is_active in
    let (first, rest) =
      and_split (in_texts id (active_ids among db)) (subset ids (active_ids among db)) h in
    (
      any-weaken (λ c. same_text c.id id) (λ c. in_texts c.id among) (λ c. c.is_active) db.clients
          (active-in id p db.clients first),
      All-active db ids among rest,
    )

pub none_of : (o : Option ℕ) → is_none o ≡ true → o ≡ none
none_of none h = refl
none_of (some k) h = cc
