-- ===== src/Socks/Stages.antt =====
-- What the reads of a conversation of src/lib.rs take from the client's bytes, for every input.
use bare_arti.Base.{
  ℕ, zero, suc, ◌≡◌, refl, sym, ap, ◌∙◌, Option, none, some, [], ◌∷◌, ◌++◌, if_split, Outcome,
  arith, length, append-nil, append_assoc, done, broken, String, true, if◌then◌else◌, ◌*◌, ◌+◌,
}
use bare_arti.Paths.{Bytes}
use bare_arti.Socks.Utf8.{is_utf8}
use bare_arti.Socks.{
  Host, Conn, M, ◌>>=◌, bind_outcome, pure, fail, split_at, read_exact, read_result, byte,
  read_domain, read_ipv4, read_ipv6, read_port, from_be_bytes,
}

-- What holds after a stage, where it has a value and where it has failed.
pub data After {A : Type 0} (good : Conn → A → Type 0) (bad : Conn → Type 0)
    : Conn × Outcome A → Type 0 where
  value : {s : Conn} {a : A} → good s a → After good bad (s, done a)
  failed : {s : Conn} {e : String} → bad s → After good bad (s, broken e)

pub bind-After :
    {A B : Type 0} {r : Conn × Outcome A} (f : A → M B) {good : Conn → A → Type 0}
    {better : Conn → B → Type 0} {bad worse : Conn → Type 0}
    → After good bad r
    → ((s : Conn) (a : A) → good s a → After better worse (f a s))
    → ((s : Conn) → bad s → worse s)
    → After better worse (bind_outcome r f)
bind-After f (After.value h) k w = k _ _ h
bind-After f (After.failed h) k w = After.failed (w _ h)

-- Nothing was written and nothing dialled.
abbrev pub Same : Conn → Conn → Type 0
Same s t = (t.written ≡ s.written) × (t.dialled ≡ s.dialled)

-- The bytes that were used up, and what they say of the value.
pub record Consumed {A : Type 0} (P : A → Bytes → Type 0) (s t : Conn) (a : A) : Type 0 where
  pub same : Same s t
  pub used : Bytes
  pub input : s.input ≡ used ++ t.input
  pub says : P a used

abbrev pub Reads : (A : Type 0) → M A → (A → Bytes → Type 0) → Type 0
Reads A m P = (s : Conn) → After (Consumed P s) (Same s) (m s)

data Splits (n : ℕ) (bs : Bytes) : Option (Bytes × Bytes) → Type 0 where
  early : Splits n bs none
  split :
      (front rest : Bytes)
      → bs ≡ front ++ rest
      → length front ≡ n
      → Splits n bs (some (front, rest))

split_at-Splits : (n : ℕ) (bs : Bytes) → Splits n bs (split_at n bs)
unfolding split_at
split_at-Splits zero bs = Splits.split [] bs refl refl
split_at-Splits (suc n) [] = Splits.early
split_at-Splits (suc n) (b ∷ bs) = by_rest (split_at n bs) refl (split_at-Splits n bs)
  where
    by_rest :
        (o : Option (Bytes × Bytes))
        → split_at n bs ≡ o
        → Splits n bs o
        → Splits (suc n) (b ∷ bs) (split_at (suc n) (b ∷ bs))
    by_rest none e Splits.early = rw e Splits.early
    by_rest (some (front, rest)) e (Splits.split _ _ h k) =
        rw e (Splits.split (b ∷ front) rest (ap (λ x. b ∷ x) h) (omega (arith, k)))

abbrev pub Exactly : ℕ → Bytes → Bytes → Type 0
Exactly n a used = (used ≡ a) × (length a ≡ n)

pub read_exact-Reads : (n : ℕ) → Reads Bytes (read_exact n) (Exactly n)
unfolding read_exact read_result
read_exact-Reads n s = by_split (split_at n s.input) (split_at-Splits n s.input)
  where
    by_split :
        (o : Option (Bytes × Bytes))
        → Splits n s.input o
        → After (Consumed (Exactly n) s) (Same s) (read_result s o)
    by_split none Splits.early = After.failed (refl, refl)
    by_split (some (front, rest)) (Splits.split _ _ h k) =
        After.value (record { same = (refl, refl); used = front; input = h; says = (refl, k) })

pub bind-Reads :
    {A B : Type 0} (m : M A) (f : A → M B) {P : A → Bytes → Type 0} (Q : A → B → Bytes → Type 0)
    (R : B → Bytes → Type 0)
    → Reads A m P
    → ((a : A) → Reads B (f a) (Q a))
    → ((a : A) (b : B) (x y : Bytes) → P a x → Q a b y → R b (x ++ y))
    → Reads B (m >>= f) R
bind-Reads {A} {B} m f {P} Q R h k join s =
    bind-After f (h s) (λ t a p. weaken t a p (k a t)) (λ t q. q)
  where
    weaken :
        (t : Conn) (a : A)
        → Consumed P s t a
        → {r : Conn × Outcome B} → After (Consumed (Q a) t) (Same t) r
        → After (Consumed R s) (Same s) r
    weaken t a p (After.value {s = u} {a = b} q) = After.value (record {
      same = (q.same.0 ∙ p.same.0, q.same.1 ∙ p.same.1);
      used = p.used ++ q.used;
      input = p.input ∙ ap (λ x. p.used ++ x) q.input ∙ sym (append_assoc p.used q.used u.input);
      says = join a b p.used q.used p.says q.says;
    })
    weaken t a p (After.failed q) = After.failed (q.0 ∙ p.same.0, q.1 ∙ p.same.1)

pub pure-Reads : {A : Type 0} (a : A) → Reads A (pure a) (λ b used. (used ≡ []) × (b ≡ a))
pure-Reads a s =
    After.value (record { same = (refl, refl); used = []; input = refl; says = (refl, refl) })

pub fail-Reads : {A : Type 0} (e : String) (P : A → Bytes → Type 0) → Reads A (fail e) P
fail-Reads e P s = After.failed (refl, refl)

-- A buffer by its bytes.
pub one_byte : (b : Bytes) → length b ≡ 1 → b ≡ byte b 0 ∷ []
one_byte [] h = absurd (omega (arith, h))
one_byte (x ∷ []) h = refl
one_byte (x ∷ y ∷ b) h = absurd (omega (arith, h))

pub two_bytes : (b : Bytes) → length b ≡ 2 → b ≡ byte b 0 ∷ byte b 1 ∷ []
two_bytes [] h = absurd (omega (arith, h))
two_bytes (x ∷ b) h = ap (λ y. x ∷ y) (one_byte b (omega (arith, h)))

pub four_bytes : (b : Bytes) → length b ≡ 4 → b ≡ byte b 0 ∷ byte b 1 ∷ byte b 2 ∷ byte b 3 ∷ []
four_bytes [] h = absurd (omega (arith, h))
four_bytes (x ∷ []) h = absurd (omega (arith, h))
four_bytes (x ∷ y ∷ b) h = ap (λ z. x ∷ y ∷ z) (two_bytes b (omega (arith, h)))

-- A host as its bytes stand in a request after RFC 1928, behind its address type.
abbrev pub address : Host → Bytes
address (Host.ipv4 a) = a
address (Host.domain name) = length name ∷ name
address (Host.ipv6 a) = a

abbrev pub address_type : Host → ℕ
address_type (Host.ipv4 a) = 0x01
address_type (Host.domain name) = 0x03
address_type (Host.ipv6 a) = 0x04

abbrev pub IsAddress : Host → Type 0
IsAddress (Host.ipv4 a) = length a ≡ 4
IsAddress (Host.domain name) = is_utf8 name ≡ true
IsAddress (Host.ipv6 a) = length a ≡ 16

abbrev pub IsHost : ℕ → Host → Bytes → Type 0
IsHost kind host used = (used ≡ address host) × (address_type host ≡ kind) × IsAddress host

pub read_ipv4-Reads : Reads Host read_ipv4 (IsHost 0x01)
unfolding read_ipv4
read_ipv4-Reads =
    bind-Reads (read_exact 4) _ (λ a host used. (used ≡ []) × (host ≡ Host.ipv4 a)) (IsHost 0x01)
      (read_exact-Reads 4) (λ a. pure-Reads (Host.ipv4 a))
      (λ a host x y p q. rw (p.0, q.0, q.1) (append-nil a, refl, p.1))

pub read_ipv6-Reads : Reads Host read_ipv6 (IsHost 0x04)
unfolding read_ipv6
read_ipv6-Reads =
    bind-Reads (read_exact 16) _ (λ a host used. (used ≡ []) × (host ≡ Host.ipv6 a)) (IsHost 0x04)
      (read_exact-Reads 16) (λ a. pure-Reads (Host.ipv6 a))
      (λ a host x y p q. rw (p.0, q.0, q.1) (append-nil a, refl, p.1))

abbrev IsChecked : Bytes → Host → Bytes → Type 0
IsChecked name host used = (used ≡ []) × (host ≡ Host.domain name) × (is_utf8 name ≡ true)

-- The name behind its length.
abbrev IsLong : ℕ → Host → Bytes → Type 0
IsLong n host used =
    (name : Bytes) × (used ≡ name)
    × (length name ≡ n)
    × (host ≡ Host.domain name)
    × (is_utf8 name ≡ true)

name-Reads :
    (name : Bytes)
    → Reads Host
        (if is_utf8 name then pure (Host.domain name) else fail "invalid domain name")
        (IsChecked name)
name-Reads name =
    if_split (λ m. Reads Host m (IsChecked name)) (is_utf8 name)
      (λ u s.
        After.value
          (record { same = (refl, refl); used = []; input = refl; says = (refl, refl, u) }))
      (λ u. fail-Reads "invalid domain name" (IsChecked name))

pub read_domain-Reads : Reads Host read_domain (IsHost 0x03)
unfolding read_domain
read_domain-Reads =
    bind-Reads (read_exact 1) _ (λ len. IsLong (byte len 0)) (IsHost 0x03) (read_exact-Reads 1)
      (λ len.
        bind-Reads (read_exact (byte len 0)) _ IsChecked (IsLong (byte len 0))
          (read_exact-Reads (byte len 0)) name-Reads
          (λ name host x y p q. (name, rw (p.0, q.0) (append-nil name), p.1, q.1, q.2)))
      (λ len host x y p q.
        let (name, used, long, is, utf8) = q in
        rw (p.0, used, is)
          (
            ap (λ l. l ++ name) (one_byte len p.1) ∙ ap (λ (n : ℕ). n ∷ name) (sym long),
            refl,
            utf8,
          ))

pub read_port-Reads :
    Reads ℕ read_port
      (λ port used. (hi : ℕ) × (lo : ℕ) × (used ≡ hi ∷ lo ∷ []) × (port ≡ hi * 256 + lo))
unfolding read_port from_be_bytes
read_port-Reads =
    bind-Reads (read_exact 2) _ (λ p port used. (used ≡ []) × (port ≡ byte p 0 * 256 + byte p 1)) _
      (read_exact-Reads 2) (λ p. pure-Reads (from_be_bytes p))
      (λ p port x y h q. (byte p 0, byte p 1, rw (h.0, q.0) (append-nil p ∙ two_bytes p h.1), q.1))
