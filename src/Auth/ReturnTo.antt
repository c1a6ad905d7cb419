-- ===== src/Auth/ReturnTo.antt =====
-- `sanitize_return_to` of backend/app/auth/sessions.py.
use qora.Base.{
  ℕ, ◌≡◌, ◌≢◌, refl, Bool, false, Option, none, some, List, [], ◌∷◌, ◌++◌, ◌||◌, not, ltb, ◌==◌,
  if◌then◌else◌, any_row, length, arith, ◌≤◌, Bool-cases, inl, inr,
}
use qora.Base.Texts.{same_text, starts_with}

abbrev is_control : ℕ → Bool
is_control c = ltb c 0x20 || c == 0x7f

abbrev api : List ℕ
api = b'/' ∷ b'a' ∷ b'p' ∷ b'i' ∷ []

-- `/api`, or `/api` before one of `/`, `\`, `?`, `#`
abbrev is_api : List ℕ → Bool
is_api lowered =
    same_text lowered api
    || (starts_with lowered (api ++ b'/' ∷ [])
        || (starts_with lowered (api ++ 92 ∷ [])
            || (starts_with lowered (api ++ b'?' ∷ []) || starts_with lowered (api ++ b'#' ∷ []))))

abbrev pub root : List ℕ
root = b'/' ∷ []

abbrev rejects : (List ℕ → List ℕ) → List ℕ → Bool
rejects lower text =
    ltb 512 (length text)
    || (any_row is_control text
        || (not (starts_with text root)
            || ((starts_with text (b'/' ∷ b'/' ∷ []) || starts_with text (b'/' ∷ 92 ∷ []))
                || is_api (lower text))))

abbrev sanitize_text : (List ℕ → List ℕ) → List ℕ → List ℕ
sanitize_text lower [] = root
sanitize_text lower (c ∷ text) = if rejects lower (c ∷ text) then root else c ∷ text

unfoldable pub sanitize_return_to : (List ℕ → List ℕ) → Option (List ℕ) → List ℕ
sanitize_return_to lower none = root
sanitize_return_to lower (some text) = sanitize_text lower text

-- A browser drops tabs and line ends from a URL, and reads a backslash as a slash.
abbrev is_dropped : ℕ → Bool
is_dropped c = c == 9 || (c == 10 || c == 13)

abbrev pub as_browser : List ℕ → List ℕ
as_browser [] = []
as_browser (c ∷ text) =
    let rest = as_browser text in
    if is_dropped c then rest else (if c == 92 then b'/' else c) ∷ rest

-- one slash, and then no other: a path of this very host
abbrev pub IsHostPath : List ℕ → Type 0
IsHostPath [] = ⊥
IsHostPath (c ∷ []) = c ≡ b'/'
IsHostPath (c ∷ d ∷ text) = (c ≡ b'/') × (d ≢ b'/')

-- what the code has tested of a text that it keeps
kept_one :
    (lower : List ℕ → List ℕ) (c : ℕ)
    → rejects lower (c ∷ []) ≡ false
    → IsHostPath (as_browser (c ∷ []))
kept_one lower c h = ground arith

kept_two :
    (lower : List ℕ → List ℕ) (c d : ℕ) (text : List ℕ)
    → rejects lower (c ∷ d ∷ text) ≡ false
    → (c ≡ b'/') × (d ≢ b'/') × (d ≢ 92) × (32 ≤ d)
kept_two lower c d text h = ground arith

host_two :
    (c d : ℕ) (text : List ℕ)
    → (c ≡ b'/') × (d ≢ b'/') × (d ≢ 92) × (32 ≤ d)
    → IsHostPath (as_browser (c ∷ d ∷ text))
host_two c d text (slash, other, straight, printed) = ground arith

-- Whatever a caller asks to return to, what a browser makes of the answer, with tabs and line ends
-- dropped and backslashes read as slashes, is a path of this very host: one slash, and no second
-- one after it.
pub sanitize_return_to-IsHostPath :
    (lower : List ℕ → List ℕ) (return_to : Option (List ℕ))
    → IsHostPath (as_browser (sanitize_return_to lower return_to))
unfolding sanitize_return_to
sanitize_return_to-IsHostPath lower none = refl
sanitize_return_to-IsHostPath lower (some []) = refl
sanitize_return_to-IsHostPath lower (some (c ∷ [])) = elim (Bool-cases (rejects lower (c ∷ []))) [
  | inl e ↦ rw e refl
  | inr e ↦ rw e (kept_one lower c e)
]
sanitize_return_to-IsHostPath lower (some (c ∷ d ∷ text)) =
    elim (Bool-cases (rejects lower (c ∷ d ∷ text))) [
      | inl e ↦ rw e refl
      | inr e ↦ rw e (host_two c d text (kept_two lower c d text e))
    ]
