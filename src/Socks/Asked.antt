-- ===== src/Socks/Asked.antt =====
-- What a client of src/lib.rs has asked for by its bytes, stage by stage of the conversation.
use bare_arti.Base.{
  ℕ, ◌≡◌, ◌≢◌, ◌⊎◌, refl, ◌∙◌, inl, inr, [], ◌∷◌, ◌++◌, List, Outcome, arith, length, zero, suc,
  ◌==◌, ◌&&◌, ==_iff, true, false, Bool, ◌*◌, ◌+◌,
}
use bare_arti.Paths.{Bytes}
use bare_arti.Socks.{Host, Conn, write_all, write_result, reply}
use bare_arti.Socks.Stages.{After, Same, address, address_type, IsAddress}

abbrev pub Wrote : List Bytes → List (Host × ℕ) → Conn → Type 0
Wrote w d s = (s.written ≡ w) × (s.dialled ≡ d)

pub Wrote-same :
    {w : List Bytes} {d : List (Host × ℕ)} (s t : Conn) → Same s t → Wrote w d s → Wrote w d t
Wrote-same s t e h = (e.0 ∙ h.0, e.1 ∙ h.1)

pub map-After :
    {A : Type 0} {r : Conn × Outcome A} {good better : Conn → A → Type 0}
    {bad worse : Conn → Type 0}
    → After good bad r
    → ((s : Conn) (a : A) → good s a → better s a)
    → ((s : Conn) → bad s → worse s)
    → After better worse r
map-After (After.value h) k w = After.value (k _ _ h)
map-After (After.failed h) k w = After.failed (w _ h)

-- A write is made whole, or the socket is broken; no input is used.
pub write_all-After :
    (b : Bytes) (s : Conn)
    → After
        (λ t (u : Unit {0}).
          (t.written ≡ s.written ++ b ∷ []) × (t.dialled ≡ s.dialled) × (t.input ≡ s.input))
        (Same s)
        (write_all b s)
unfolding write_all
write_all-After b s = by_left s.writes_left
  where
    by_left :
        (n : ℕ)
        → After
            (λ t (u : Unit {0}).
              (t.written ≡ s.written ++ b ∷ []) × (t.dialled ≡ s.dialled) × (t.input ≡ s.input))
            (Same s)
            (write_result n b s)
    by_left zero = After.failed (refl, refl)
    by_left (suc n) = After.value (refl, refl, refl)

pub one_fails : (a b : Bool) → (a && b) ≡ false → (a ≡ false) ⊎ (b ≡ false)
one_fails true b h = inr h
one_fails false b h = inl refl

pub both_hold : (a b : Bool) → (a && b) ≡ true → (a ≡ true) × (b ≡ true)
both_hold true b h = (refl, h)
both_hold false b h = cc

pub not_connect : (v c : ℕ) → (v == 0x05 && c == 0x01) ≡ false → (v ≢ 0x05) ⊎ (c ≢ 0x01)
not_connect v c h = elim (one_fails (v == 0x05) (c == 0x01) h) [
  | inl a ↦ inl (λ e. ground (arith, a, e))
  | inr a ↦ inr (λ e. ground (arith, a, e))
]

pub is_connect : (v c : ℕ) → (v == 0x05 && c == 0x01) ≡ true → (v ≡ 0x05) × (c ≡ 0x01)
is_connect v c h =
    let (a, b) = both_hold (v == 0x05) (c == 0x01) h in ((==_iff v 0x05).0 a, (==_iff c 0x01).0 b)

-- The answer to the greeting: no authentication.
abbrev pub greeting : Bytes
greeting = 0x05 ∷ 0x00 ∷ []

module _ (sent : Bytes) where
  -- The client's bytes are a greeting with some methods, and the rest.
  abbrev pub Greets : Bytes → Type 0
  Greets rest = (methods : Bytes) × (sent ≡ 0x05 ∷ length methods ∷ (methods ++ rest))

  -- After that, a request that is no SOCKS5 CONNECT.
  abbrev pub IsUnsupported : Type 0
  IsUnsupported =
      (version : ℕ) × (command : ℕ) × (x : ℕ) × (kind : ℕ) × (rest : Bytes) × Greets
        (version ∷ command ∷ x ∷ kind ∷ rest)
      × ((version ≢ 0x05) ⊎ (command ≢ 0x01))

  -- A CONNECT with an address type that is none of IPv4, domain and IPv6.
  abbrev pub IsUnknown : Type 0
  IsUnknown =
      (x : ℕ) × (kind : ℕ) × (rest : Bytes) × Greets (0x05 ∷ 0x01 ∷ x ∷ kind ∷ rest)
      × (kind ≢ 0x01)
      × (kind ≢ 0x03)
      × (kind ≢ 0x04)

  -- A CONNECT to a host and a port, which stands with its high byte first.
  abbrev pub Asks : Host → ℕ → Type 0
  Asks host port =
      (x : ℕ) × (hi : ℕ) × (lo : ℕ) × (rest : Bytes) × Greets
        (0x05 ∷ 0x01 ∷ x ∷ address_type host ∷ (address host ++ hi ∷ lo ∷ rest))
      × IsAddress host
      × (port ≡ hi * 256 + lo)

  -- What is known at the end of each stage.
  abbrev pub Greeted : Conn → Type 0
  Greeted t = Greets t.input × Wrote (greeting ∷ []) [] t

  abbrev pub Requested : Conn → ℕ → Type 0
  Requested t kind =
      ((x : ℕ) × Greets (0x05 ∷ 0x01 ∷ x ∷ kind ∷ t.input)) × Wrote (greeting ∷ []) [] t

  abbrev pub Hosted : Conn → Host → Type 0
  Hosted t host =
      ((x : ℕ) × Greets (0x05 ∷ 0x01 ∷ x ∷ address_type host ∷ (address host ++ t.input)))
      × IsAddress host
      × Wrote (greeting ∷ []) [] t

  abbrev pub Asked : Host → Conn → ℕ → Type 0
  Asked host t port = Asks host port × Wrote (greeting ∷ []) [] t

  -- After a greeting, without a connection: nothing more, or the refusal that the request deserves.
  abbrev pub Refused : Conn → Type 0
  Refused t =
      (((rest : Bytes) × Greets rest) × Wrote (greeting ∷ []) [] t)
      ⊎ (IsUnsupported × Wrote (greeting ∷ reply 0x07 ∷ []) [] t)
      ⊎ (IsUnknown × Wrote (greeting ∷ reply 0x08 ∷ []) [] t)
