-- ===== src/Socks.antt =====
-- `handle_conn` of src/lib.rs: the SOCKS5 conversation with one client.
--
-- The client's socket is what it will send, what was written to it, and how many writes it still
-- takes before it is gone. Dialling through Tor and splicing the two streams are parameters. An
-- address goes to the dialler as it was parsed, not as the text that the source prints it to.
pub mod Utf8
pub mod Dialogue
pub mod Stages
pub mod Asked
pub mod Conversation
pub mod Transcript
pub mod Listener
use bare_arti.Base.{
  ℕ, zero, suc, ◌+◌, ◌*◌, Bool, true, false, not, ◌&&◌, ◌||◌, Option, none, some, List, [], ◌∷◌,
  ◌++◌, String, ◌⋯◌, ◌==◌, if◌then◌else◌, Outcome, done, broken,
}
use bare_arti.Paths.{Bytes}
use bare_arti.Socks.Utf8.{is_utf8}

pub data Host : Type 0 where
  ipv4 : Bytes → Host
  domain : Bytes → Host
  ipv6 : Bytes → Host

-- `dialled` lists the calls of the Tor client.
pub record Conn : Type 0 where
  pub input : Bytes
  pub written : List Bytes
  pub writes_left : ℕ
  pub dialled : List (Host × ℕ)

-- What the Tor client answers, and how the splice ends.
pub record Tor : Type 0 where
  pub connect : Host → ℕ → Outcome (Unit {0})
  pub splice : Outcome (Unit {0})

abbrev pub M : Type 0 → Type 0
M A = Conn → Conn × Outcome A

infixl 5 ◌>>=◌ ◌>>◌
abbrev pub bind_outcome : {A B : Type 0} → Conn × Outcome A → (A → M B) → Conn × Outcome B
bind_outcome (s, done a) f = f a s
bind_outcome (s, broken e) f = (s, broken e)

abbrev pub ◌>>=◌ : {A B : Type 0} → M A → (A → M B) → M B
◌>>=◌ m f s = bind_outcome (m s) f

abbrev pub ◌>>◌ : {B : Type 0} → M (Unit {0}) → M B → M B
m >> k = m >>= λ _. k

abbrev pub pure : {A : Type 0} → A → M A
pure a s = (s, done a)

abbrev pub fail : {A : Type 0} → String → M A
fail e s = (s, broken e)

-- `read_exact` of `n` bytes: those bytes and the rest, or an early end that has used the input up.
unfoldable pub split_at : ℕ → Bytes → Option (Bytes × Bytes)
split_at zero bs = some ([], bs)
split_at (suc n) [] = none
split_at (suc n) (b ∷ bs) = cons_to b (split_at n bs)
  where
    cons_to : ℕ → Option (Bytes × Bytes) → Option (Bytes × Bytes)
    cons_to c none = none
    cons_to c (some (front, rest)) = some (c ∷ front, rest)

unfoldable pub read_result : Conn → Option (Bytes × Bytes) → Conn × Outcome Bytes
read_result s none = (record s { input = [] }, broken "early eof")
read_result s (some (front, rest)) = (record s { input = rest }, done front)

unfoldable pub read_exact : ℕ → M Bytes
unfolding split_at read_result
read_exact n s = read_result s (split_at n s.input)

unfoldable pub write_result : ℕ → Bytes → Conn → Conn × Outcome (Unit {0})
write_result zero bytes s = (s, broken "broken pipe")
write_result (suc n) bytes s =
    (record s { written = s.written ++ bytes ∷ []; writes_left = n }, done tt)

unfoldable pub write_all : Bytes → M (Unit {0})
unfolding write_result
write_all bytes s = write_result s.writes_left bytes s

-- The byte at a place of a buffer; the buffers below are as long as they are read.
abbrev pub byte : Bytes → ℕ → ℕ
byte [] i = 0
byte (b ∷ bs) zero = b
byte (b ∷ bs) (suc i) = byte bs i

-- `reply`: a status and a zeroed IPv4 bind address.
unfoldable pub reply : ℕ → Bytes
reply status = 0x05 ∷ status ∷ 0x00 ∷ 0x01 ∷ 0 ∷ 0 ∷ 0 ∷ 0 ∷ 0 ∷ 0 ∷ []

-- An error that is also told to the client.
abbrev pub refuse : {A : Type 0} → ℕ → String → M A
refuse status text = do write_all (reply status); fail text

unfoldable pub read_domain : M Host
unfolding read_exact
read_domain = do
  len ← read_exact 1
  name ← read_exact (byte len 0)
  if is_utf8 name then pure (domain name) else fail "invalid domain name"

unfoldable pub read_ipv4 : M Host
unfolding read_exact
read_ipv4 = do a ← read_exact 4; pure (ipv4 a)

unfoldable pub read_ipv6 : M Host
unfolding read_exact
read_ipv6 = do a ← read_exact 16; pure (ipv6 a)

-- The `match` on the address type.
unfoldable pub read_host : ℕ → M Host
unfolding read_ipv4 read_domain read_ipv6 write_all reply
read_host kind =
    if kind == 0x01
    then read_ipv4
    else if kind == 0x03
    then read_domain
    else if kind == 0x04
    then read_ipv6
    else refuse 0x08 "unknown address type"

-- `u16::from_be_bytes`.
unfoldable pub from_be_bytes : Bytes → ℕ
from_be_bytes p = byte p 0 * 256 + byte p 1

unfoldable pub read_port : M ℕ
unfolding read_exact from_be_bytes
read_port = do p ← read_exact 2; pure (from_be_bytes p)

-- The greeting, and the choice of no authentication.
unfoldable pub greet : M (Unit {0})
unfolding read_exact write_all
greet = do
  head ← read_exact 2
  if byte head 0 == 0x05 then pure tt else fail "not a SOCKS5 client"
  methods ← read_exact (byte head 1)
  write_all (0x05 ∷ 0x00 ∷ [])

-- The request as far as its address type; only CONNECT is supported.
unfoldable pub read_request : M ℕ
unfolding read_exact write_all reply
read_request = do
  req ← read_exact 4
  if byte req 0 == 0x05 && byte req 1 == 0x01
      then pure (byte req 3)
      else refuse 0x07 "unsupported SOCKS command"

-- The Tor client is called with onion services allowed.
unfoldable pub dial : Tor → Host → ℕ → M (Outcome (Unit {0}))
dial tor host port s =
    (record s { dialled = s.dialled ++ (host, port) ∷ [] }, done (tor.connect host port))

-- `copy_bidirectional`.
abbrev pub spliced : Tor → M (Unit {0})
spliced tor s = (s, tor.splice)

-- The `match` on the answer of `connect_with_prefs`.
unfoldable pub answer : Tor → Outcome (Unit {0}) → M (Unit {0})
unfolding write_all reply
answer tor (done u) = do write_all (reply 0x00); spliced tor
answer tor (broken e) = refuse 0x04 ("tor connect failed: " ⋯ e)

unfoldable pub handle_conn : Tor → M (Unit {0})
handle_conn tor = do
  greet
  kind ← read_request
  host ← read_host kind
  port ← read_port
  outcome ← dial tor host port
  answer tor outcome
