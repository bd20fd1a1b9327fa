-- ===== src/Socks/Dialogue.antt =====
-- What the SOCKS5 conversation of src/lib.rs does with what a client sends.
use bare_arti.Base.{
  ℕ, suc, ◌+◌, ◌*◌, ◌/◌, ◌%◌, ◌<◌, ◌≡◌, refl, ap, ◌∙◌, true, some, List, [], ◌∷◌, ◌++◌, arith,
  length, Outcome, done, broken, append_assoc, ◌⋯◌,
}
use bare_arti.Paths.{Bytes}
use bare_arti.Socks.Utf8.{is_utf8}
use bare_arti.Socks.{
  Host, ipv4, domain, ipv6, Conn, Tor, split_at, read_exact, dial, answer, ◌>>=◌, reply, read_host,
  read_port, greet, read_request, handle_conn,
}

-- The bytes that a client sends for a target, after RFC 1928.
abbrev pub encode_host : Host → Bytes
encode_host (ipv4 a) = 0x01 ∷ a
encode_host (domain name) = 0x03 ∷ length name ∷ name
encode_host (ipv6 a) = 0x04 ∷ a

abbrev pub IsSendable : Host → Type 0
IsSendable (ipv4 a) = length a ≡ 4
IsSendable (domain name) = (length name < 256) × (is_utf8 name ≡ true)
IsSendable (ipv6 a) = length a ≡ 16

split_at-append :
    (front rest : Bytes) → split_at (length front) (front ++ rest) ≡ some (front, rest)
unfolding split_at
split_at-append [] rest = refl
split_at-append (b ∷ front) rest = rw (split_at-append front rest)

-- A read of what the client has sent in one piece.
read_exact-append :
    (n : ℕ) (front rest : Bytes) (s : Conn)
    → length front ≡ n
    → s.input ≡ front ++ rest
    → read_exact n s ≡ (record s { input = rest }, done front)
unfolding read_exact
read_exact-append n front rest s e i = rw (i, ← e, split_at-append front rest)

abbrev pub conn : Bytes → List Bytes → ℕ → List (Host × ℕ) → Conn
conn input written left dialled = record {
  input = input;
  written = written;
  writes_left = left;
  dialled = dialled;
}

greet_lem :
    (methods rest : Bytes) (w : List Bytes) (n : ℕ) (d : List (Host × ℕ))
    → greet (conn (0x05 ∷ length methods ∷ methods ++ rest) w (suc n) d)
      ≡ (conn rest (w ++ (0x05 ∷ 0x00 ∷ []) ∷ []) n d, done tt)
unfolding greet
greet_lem methods rest w n d = rw (split_at-append methods rest)

read_request_lem :
    (x kind : ℕ) (rest : Bytes) (w : List Bytes) (n : ℕ) (d : List (Host × ℕ))
    → read_request (conn (0x05 ∷ 0x01 ∷ x ∷ kind ∷ rest) w n d) ≡ (conn rest w n d, done kind)
unfolding read_request
read_request_lem x kind rest w n d = refl

kind : Host → ℕ
kind (ipv4 a) = 0x01
kind (domain name) = 0x03
kind (ipv6 a) = 0x04

-- The part of a host's encoding after its kind.
body : Host → Bytes
body (ipv4 a) = a
body (domain name) = length name ∷ name
body (ipv6 a) = a

encode_host_lem : (h : Host) → encode_host h ≡ kind h ∷ body h
unfolding kind body
encode_host_lem (ipv4 a) = refl
encode_host_lem (domain name) = refl
encode_host_lem (ipv6 a) = refl

read_host_lem :
    (h : Host) (rest : Bytes) (w : List Bytes) (n : ℕ) (d : List (Host × ℕ))
    → IsSendable h
    → read_host (kind h) (conn (body h ++ rest) w n d) ≡ (conn rest w n d, done h)
unfolding read_host kind body
read_host_lem (ipv4 a) rest w n d h =
    rw (read_exact-append 4 a rest (conn (a ++ rest) w n d) h refl)
read_host_lem (domain name) rest w n d h = rw (split_at-append name rest, h.1)
read_host_lem (ipv6 a) rest w n d h =
    rw (read_exact-append 16 a rest (conn (a ++ rest) w n d) h refl)

halves : (p : ℕ) → p / 256 * 256 + p % 256 ≡ p
halves p = omega arith

read_port_lem :
    (p : ℕ) (rest : Bytes) (w : List Bytes) (n : ℕ) (d : List (Host × ℕ))
    → read_port (conn (p / 256 ∷ p % 256 ∷ rest) w n d) ≡ (conn rest w n d, done p)
unfolding read_port
read_port_lem p rest w n d = ap (λ q. (conn rest w n d, done q)) (halves p)

-- All that a client sends for a target.
abbrev pub encode : (methods : Bytes) → Host → (port : ℕ) → Bytes
encode methods host port =
    0x05 ∷ length methods ∷ methods
    ++ (0x05 ∷ 0x01 ∷ 0x00 ∷ encode_host host ++ (port / 256 ∷ port % 256 ∷ []))

-- What the client is told, and how the call ends.
abbrev pub told : Outcome (Unit {0}) → ℕ
told (done u) = 0x00
told (broken e) = 0x04

abbrev pub ended : Tor → Outcome (Unit {0}) → Outcome (Unit {0})
ended tor (done u) = tor.splice
ended tor (broken e) = broken ("tor connect failed: " ⋯ e)

answer_lem :
    (tor : Tor) (o : Outcome (Unit {0})) (rest : Bytes) (w : List Bytes) (n : ℕ)
    (d : List (Host × ℕ))
    → answer tor o (conn rest w (suc n) d) ≡ (conn rest (w ++ reply (told o) ∷ []) n d, ended tor o)
unfolding answer
answer_lem tor (done u) rest w n d = refl
answer_lem tor (broken e) rest w n d = refl

-- After the host's kind has been read.
dialogue_tail :
    (tor : Tor) (host : Host) (port : ℕ) (rest : Bytes) (w : List Bytes) (n : ℕ)
    (d : List (Host × ℕ))
    → IsSendable host
    → let o = tor.connect host port in
      (do h ← read_host (kind host); p ← read_port; out ← dial tor h p; answer tor out)
        (conn (body host ++ port / 256 ∷ port % 256 ∷ rest) w (suc n) d)
      ≡ (conn rest (w ++ reply (told o) ∷ []) n (d ++ (host, port) ∷ []), ended tor o)
unfolding dial
dialogue_tail tor host port rest w n d s =
    rw
      (
        read_host_lem host (port / 256 ∷ port % 256 ∷ rest) w (suc n) d s,
        read_port_lem port rest w (suc n) d,
      )
      (answer_lem tor (tor.connect host port) rest w n (d ++ (host, port) ∷ []))

encode_lem :
    (methods : Bytes) (host : Host) (port : ℕ) (rest : Bytes)
    → encode methods host port ++ rest
      ≡ 0x05 ∷ length methods ∷ methods
        ++ (0x05 ∷ 0x01 ∷ 0x00 ∷ kind host ∷ body host ++ (port / 256 ∷ port % 256 ∷ rest))
encode_lem methods host port rest = rw (encode_host_lem host) (simp append_assoc)

-- A client that sends the bytes of RFC 1928 for a host and a port, and takes two writes, is dialled
-- for exactly that host and port, once. It is told that no authentication is needed and then whether
-- the connection succeeded, and what it sends after that is left for the splice.
pub handle_conn-encode :
    (tor : Tor) (methods : Bytes) (host : Host) (port : ℕ) (rest : Bytes) (n : ℕ)
    → IsSendable host
    → let o = tor.connect host port in
      handle_conn tor (conn (encode methods host port ++ rest) [] (suc (suc n)) [])
      ≡ (conn rest ((0x05 ∷ 0x00 ∷ []) ∷ reply (told o) ∷ []) n ((host, port) ∷ []), ended tor o)
unfolding handle_conn
handle_conn-encode tor methods host port rest n s =
    ap (λ input. handle_conn tor (conn input [] (suc (suc n)) []))
      (encode_lem methods host port rest)
    ∙ rw
        (
          greet_lem methods
              (0x05 ∷ 0x01 ∷ 0x00 ∷ kind host ∷ body host ++ (port / 256 ∷ port % 256 ∷ rest)) []
              (suc n) [],
          read_request_lem 0x00 (kind host) (body host ++ (port / 256 ∷ port % 256 ∷ rest))
              ((0x05 ∷ 0x00 ∷ []) ∷ []) (suc n) [],
        )
        (dialogue_tail tor host port rest ((0x05 ∷ 0x00 ∷ []) ∷ []) n [] s)
