-- ===== src/Abi/Strings.antt =====
-- What a callback of addon/src/lib.rs is given.
use bare_arti.Base.{◌≡◌, ◌⊎◌, refl, inl, inr, true, false, Option, none, some, String, Bool-cases}
use bare_arti.Service.Types.{ServiceEvent}
use bare_arti.Abi.{invoke_once, BareArtiResult}
use bare_arti.Abi.CString.{has_nul, c_string, c_string-clean, c_string-same}

-- A pointer to a text that C code reads whole. It is the given one, or that one has a NUL inside.
abbrev pub Carries : Option String → String → Type 0
Carries given text =
    (shown : String) × (given ≡ some shown)
    × (has_nul shown ≡ false)
    × ((shown ≡ text) ⊎ (has_nul text ≡ true))

-- The event, as C code sees it.
abbrev pub Shows : BareArtiResult → ServiceEvent → Type 0
Shows r (ServiceEvent.running g port) =
    (r.generation ≡ g) × (r.port ≡ port) × (r.error_code ≡ none) × (r.error_message ≡ none)
Shows r (ServiceEvent.stopped g) =
    (r.generation ≡ g) × (r.port ≡ 0) × (r.error_code ≡ none) × (r.error_message ≡ none)
Shows r (ServiceEvent.failed g code message) =
    (r.generation ≡ g) × (r.port ≡ 0) × Carries r.error_code code × Carries r.error_message message

c_string-Carries : (text : String) → Carries (some (c_string text)) text
c_string-Carries text =
    (c_string text, refl, c_string-clean text, by_case (Bool-cases (has_nul text)))
  where
    by_case :
        (has_nul text ≡ true) ⊎ (has_nul text ≡ false)
        → (c_string text ≡ text) ⊎ (has_nul text ≡ true)
    by_case (inl h) = inr h
    by_case (inr h) = inl (c_string-same text h)

-- What a callback is given shows the event: its generation, its port or none, and, for a failure only,
-- a code and a message that C code can read whole. These are the event's own, unless those have a NUL
-- inside.
pub invoke_once-Shows : (event : ServiceEvent) → Shows (invoke_once event) event
unfolding invoke_once
invoke_once-Shows (ServiceEvent.running g port) = (refl, refl, refl, refl)
invoke_once-Shows (ServiceEvent.stopped g) = (refl, refl, refl, refl)
invoke_once-Shows (ServiceEvent.failed g code message) =
    (refl, refl, c_string-Carries code, c_string-Carries message)
