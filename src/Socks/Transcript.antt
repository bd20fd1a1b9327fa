-- ===== src/Socks/Transcript.antt =====
-- What the SOCKS5 conversation of src/lib.rs writes and dials, whatever the client sends and whenever its
-- socket breaks.
use bare_arti.Base.{ℕ, ◌≡◌, refl, ap, ◌∙◌, inl, inr, [], ◌∷◌, ◌++◌, Outcome, done, broken, String}
use bare_arti.Paths.{Bytes}
use bare_arti.Socks.{Host, Conn, Tor, M, bind_outcome, reply, dial, answer, handle_conn}
use bare_arti.Socks.Stages.{After}
use bare_arti.Socks.Conversation.{greet-After, read_request-After, read_host-After, read_port-After}
use bare_arti.Socks.Asked.{
  Wrote, Wrote-same, greeting, Greets, IsUnsupported, IsUnknown, Asks, Refused, write_all-After,
}

-- The conversations that there can be with a client that sends these bytes.
pub data IsTranscript (tor : Tor) (sent : Bytes) : Conn × Outcome (Unit {0}) → Type 0 where
  -- nothing was written
  silent :
      (s : Conn) {e : String}
      → s.written ≡ []
      → s.dialled ≡ []
      → IsTranscript tor sent (s, broken e)
  -- greeted, and nothing more
  greeted :
      (s : Conn) {e : String} (rest : Bytes)
      → Greets sent rest
      → s.written ≡ greeting ∷ []
      → s.dialled ≡ []
      → IsTranscript tor sent (s, broken e)
  unsupported :
      (s : Conn) {e : String}
      → IsUnsupported sent
      → s.written ≡ greeting ∷ reply 0x07 ∷ []
      → s.dialled ≡ []
      → IsTranscript tor sent (s, broken e)
  unknown :
      (s : Conn) {e : String}
      → IsUnknown sent
      → s.written ≡ greeting ∷ reply 0x08 ∷ []
      → s.dialled ≡ []
      → IsTranscript tor sent (s, broken e)
  -- dialled, and the client is gone
  unheard :
      (s : Conn) {e : String} (host : Host) (port : ℕ)
      → Asks sent host port
      → s.written ≡ greeting ∷ []
      → s.dialled ≡ (host, port) ∷ []
      → IsTranscript tor sent (s, broken e)
  unreachable :
      (s : Conn) {e : String} (host : Host) (port : ℕ) {reason : String}
      → Asks sent host port
      → tor.connect host port ≡ broken reason
      → s.written ≡ greeting ∷ reply 0x04 ∷ []
      → s.dialled ≡ (host, port) ∷ []
      → IsTranscript tor sent (s, broken e)
  connected :
      (s : Conn) (host : Host) (port : ℕ)
      → Asks sent host port
      → tor.connect host port ≡ done tt
      → s.written ≡ greeting ∷ reply 0x00 ∷ []
      → s.dialled ≡ (host, port) ∷ []
      → IsTranscript tor sent (s, tor.splice)

IsTranscript-of_stage :
    {A : Type 0} {tor : Tor} {sent : Bytes} {r : Conn × Outcome A} {good : Conn → A → Type 0}
    {bad : Conn → Type 0} (f : A → M (Unit {0}))
    → After good bad r
    → ((s : Conn) (a : A) → good s a → IsTranscript tor sent (f a s))
    → ((s : Conn) (e : String) → bad s → IsTranscript tor sent (s, broken e))
    → IsTranscript tor sent (bind_outcome r f)
IsTranscript-of_stage f (After.value h) k b = k _ _ h
IsTranscript-of_stage f (After.failed h) k b = b _ _ h

answer-IsTranscript :
    (tor : Tor) (sent : Bytes) (host : Host) (port : ℕ) (o : Outcome (Unit {0})) (s : Conn)
    → Asks sent host port
    → tor.connect host port ≡ o
    → Wrote (greeting ∷ []) ((host, port) ∷ []) s
    → IsTranscript tor sent (answer tor o s)
unfolding answer
answer-IsTranscript tor sent host port (done u) s asks c h =
    IsTranscript-of_stage _ (write_all-After (reply 0x00) s)
      (λ t v p.
        IsTranscript.connected t host port asks c (p.0 ∙ ap (λ x. x ++ reply 0x00 ∷ []) h.0)
          (p.1 ∙ h.1))
      (λ t e p. let k = Wrote-same s t p h in IsTranscript.unheard t host port asks k.0 k.1)
answer-IsTranscript tor sent host port (broken e) s asks c h =
    IsTranscript-of_stage _ (write_all-After (reply 0x04) s)
      (λ t v p.
        IsTranscript.unreachable t host port asks c (p.0 ∙ ap (λ x. x ++ reply 0x04 ∷ []) h.0)
          (p.1 ∙ h.1))
      (λ t x p. let k = Wrote-same s t p h in IsTranscript.unheard t host port asks k.0 k.1)

Refused-IsTranscript :
    {tor : Tor} {sent : Bytes} (t : Conn) (e : String)
    → Refused sent t
    → IsTranscript tor sent (t, broken e)
Refused-IsTranscript t e (inl ((rest, g), p)) = IsTranscript.greeted t rest g p.0 p.1
Refused-IsTranscript t e (inr (inl (u, p))) = IsTranscript.unsupported t u p.0 p.1
Refused-IsTranscript t e (inr (inr (u, p))) = IsTranscript.unknown t u p.0 p.1

-- Whatever a client sends, and at whichever write its socket breaks, a conversation is one of these. It
-- fails with nothing written; or the client has sent a greeting, which is answered, and then: it fails
-- with no more written; or refuses with 0x07, where the request is no SOCKS5 CONNECT; or refuses with
-- 0x08, where it is one with an address type that is not IPv4, domain or IPv6; or it dials, once, exactly
-- the host and the port that the client's bytes ask for, after RFC 1928. Then the client is told that the
-- target is unreachable, exactly where Tor's connect has failed, or told of success, exactly where it has
-- not, and the splice decides how it ends; or the client is gone before that.
pub handle_conn-IsTranscript :
    (tor : Tor) (s : Conn)
    → s.written ≡ []
    → s.dialled ≡ []
    → IsTranscript tor s.input (handle_conn tor s)
unfolding handle_conn dial
handle_conn-IsTranscript tor s w d =
    IsTranscript-of_stage _ (greet-After s.input s refl (w, d))
      (λ t u p.
        IsTranscript-of_stage _ (read_request-After s.input t p)
          (λ t kind p.
            IsTranscript-of_stage _ (read_host-After s.input kind t p)
              (λ t host p.
                IsTranscript-of_stage _ (read_port-After s.input host t p)
                  (λ t port p.
                    answer-IsTranscript tor s.input host port (tor.connect host port) _ p.0 refl
                      (p.1.0, ap (λ x. x ++ (host, port) ∷ []) p.1.1))
                  Refused-IsTranscript)
              Refused-IsTranscript)
          Refused-IsTranscript)
      (λ t e p. IsTranscript.silent t p.0 p.1)
