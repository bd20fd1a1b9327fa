-- ===== src/Socks/Conversation.antt =====
-- Each stage of the conversation of src/lib.rs against what the client's bytes ask for.
use bare_arti.Base.{
  ℕ, ◌≡◌, sym, ap, ◌∙◌, subst, inl, inr, [], ◌∷◌, ◌++◌, if_split, arith, length, ◌==◌, ◌&&◌, ==_iff,
  String,
}
use bare_arti.Paths.{Bytes}
use bare_arti.Socks.{
  Host, Conn, M, ◌>>=◌, bind_outcome, refuse, read_exact, write_all, byte, reply, read_host,
  read_port, greet, read_request,
}
use bare_arti.Socks.Stages.{
  After, bind-After, Same, Reads, read_exact-Reads, two_bytes, four_bytes, address, address_type,
  IsHost, read_ipv4-Reads, read_ipv6-Reads, read_domain-Reads, read_port-Reads,
}
use bare_arti.Socks.Asked.{
  Wrote, Wrote-same, map-After, write_all-After, not_connect, is_connect, greeting, Greets, Greeted,
  Requested, Hosted, Asked, Refused,
}

module _ (sent : Bytes) where
  greeting_bytes :
      (head methods middle rest : Bytes)
      → sent ≡ head ++ middle
      → middle ≡ methods ++ rest
      → length head ≡ 2
      → byte head 0 ≡ 0x05
      → length methods ≡ byte head 1
      → Greets sent rest
  greeting_bytes head methods middle rest e f two five n = (
    methods,
    e
        ∙ ap (λ h. h ++ middle) (two_bytes head two)
        ∙ ap (λ v. v ∷ byte head 1 ∷ middle) five
        ∙ ap (λ (k : ℕ). 0x05 ∷ k ∷ middle) (sym n)
        ∙ ap (λ r. 0x05 ∷ length methods ∷ r) f,
  )

  pub greet-After :
      (s : Conn)
      → s.input ≡ sent
      → Wrote [] [] s
      → After (λ t (u : Unit {0}). Greeted sent t) (Wrote [] []) (greet s)
  unfolding greet
  greet-After s e w =
      bind-After _ (read_exact-Reads 2 s)
        (λ t head p.
          if_split
            (λ (m : M (Unit {0})).
              After (λ v (u : Unit {0}). Greeted sent v) (Wrote [] [])
                (bind_outcome (m t)
                  (λ _. (read_exact (byte head 1) >>= λ methods. write_all greeting))))
            (byte head 0 == 0x05)
            (λ five.
              bind-After _ (read_exact-Reads (byte head 1) t)
                (λ u methods q.
                  map-After (write_all-After greeting u)
                    (λ v _ k.
                      let here = Wrote-same t u q.same (Wrote-same s t p.same w) in
                      (
                        greeting_bytes head methods t.input v.input
                            (sym e ∙ p.input ∙ ap (λ x. x ++ t.input) p.says.0)
                            (q.input
                              ∙ ap (λ x. x ++ u.input) q.says.0
                              ∙ ap (λ r. methods ++ r) (sym k.2))
                            p.says.1 ((==_iff (byte head 0) 0x05).0 five) q.says.1,
                        (k.0 ∙ ap (λ x. x ++ greeting ∷ []) here.0, k.1 ∙ here.1),
                      ))
                    (λ v k. Wrote-same u v k (Wrote-same t u q.same (Wrote-same s t p.same w))))
                (λ u k. Wrote-same t u k (Wrote-same s t p.same w)))
            (λ other. After.failed (Wrote-same s t p.same w)))
        (λ t k. Wrote-same s t k w)

  refuse-After :
      {A : Type 0} (k : ℕ) (text : String) (good : Conn → A → Type 0) (s : Conn) (rest : Bytes)
      → Greets sent rest
      → Wrote (greeting ∷ []) [] s
      → ((t : Conn) → Wrote (greeting ∷ reply k ∷ []) [] t → Refused sent t)
      → After good (Refused sent) (refuse k text s)
  refuse-After k text good s rest g h told =
      bind-After _ (write_all-After (reply k) s)
        (λ t u p. After.failed (told t (p.0 ∙ ap (λ x. x ++ reply k ∷ []) h.0, p.1 ∙ h.1)))
        (λ t q. inl ((rest, g), Wrote-same s t q h))

  -- A read after the greeting that comes to an early end.
  pub broken-Refused :
      (s t : Conn) (rest : Bytes)
      → Greets sent rest
      → Wrote (greeting ∷ []) [] s
      → Same s t
      → Refused sent t
  broken-Refused s t rest g h q = inl ((rest, g), Wrote-same s t q h)

  pub read_request-After :
      (s : Conn) → Greeted sent s → After (Requested sent) (Refused sent) (read_request s)
  unfolding read_request
  read_request-After s (g, w) =
      bind-After _ (read_exact-Reads 4 s)
        (λ t req p.
          let here = Wrote-same s t p.same w in
          let bytes : Greets sent (byte req 0 ∷ byte req 1 ∷ byte req 2 ∷ byte req 3 ∷ t.input) =
            subst (Greets sent)
              (p.input ∙ ap (λ x. x ++ t.input) (p.says.0 ∙ four_bytes req p.says.1)) g in
          if_split (λ (m : M ℕ). After (Requested sent) (Refused sent) (m t))
            (byte req 0 == 0x05 && byte req 1 == 0x01)
            (λ yes.
              let (five, one) = is_connect (byte req 0) (byte req 1) yes in
              After.value (
                (
                  byte req 2,
                  subst (Greets sent)
                      (ap (λ v. v ∷ byte req 1 ∷ byte req 2 ∷ byte req 3 ∷ t.input) five
                        ∙ ap (λ c. 0x05 ∷ c ∷ byte req 2 ∷ byte req 3 ∷ t.input) one)
                      bytes,
                ),
                here,
              ))
            (λ no. refuse-After 0x07 "unsupported SOCKS command" _ t _ bytes here (λ u k.
              inr (inl ((_, _, _, _, _, bytes, not_connect (byte req 0) (byte req 1) no), k)))))
        (λ t q. broken-Refused s t s.input g w q)

  host_bytes :
      (kind n : ℕ) (s : Conn) {m : M Host}
      → kind ≡ n
      → Requested sent s kind
      → Reads Host m (IsHost n)
      → After (Hosted sent) (Refused sent) (m s)
  host_bytes kind n s e ((x, g), w) read =
      map-After (read s)
        (λ t host p.
          let (used, same, is) = p.says in
          (
            (
              x,
              subst (Greets sent)
                  (ap (λ k. 0x05 ∷ 0x01 ∷ x ∷ k ∷ s.input) (e ∙ sym same)
                    ∙ ap (λ r. 0x05 ∷ 0x01 ∷ x ∷ address_type host ∷ r)
                        (p.input ∙ ap (λ y. y ++ t.input) used))
                  g,
            ),
            is,
            Wrote-same s t p.same w,
          ))
        (λ t q. broken-Refused s t _ g w q)

  pub read_host-After :
      (kind : ℕ) (s : Conn)
      → Requested sent s kind
      → After (Hosted sent) (Refused sent) (read_host kind s)
  unfolding read_host
  read_host-After kind s ((x, g), w) =
      if_split At (kind == 0x01)
        (λ e. host_bytes kind 0x01 s ((==_iff kind 0x01).0 e) ((x, g), w) read_ipv4-Reads)
        (λ not_ipv4.
          if_split At (kind == 0x03)
            (λ e. host_bytes kind 0x03 s ((==_iff kind 0x03).0 e) ((x, g), w) read_domain-Reads)
            (λ not_domain.
              if_split At (kind == 0x04)
                (λ e. host_bytes kind 0x04 s ((==_iff kind 0x04).0 e) ((x, g), w) read_ipv6-Reads)
                (λ not_ipv6. refuse-After 0x08 "unknown address type" _ s _ g w (λ t k. inr (
                  inr (
                    (
                      x,
                      kind,
                      s.input,
                      g,
                      (λ e. ground (arith, not_ipv4, e)),
                      (λ e. ground (arith, not_domain, e)),
                      (λ e. ground (arith, not_ipv6, e)),
                    ),
                    k,
                  ))))))
    where
      At : M Host → Type 0
      At m = After (Hosted sent) (Refused sent) (m s)

  pub read_port-After :
      (host : Host) (s : Conn)
      → Hosted sent s host
      → After (Asked sent host) (Refused sent) (read_port s)
  read_port-After host s ((x, g), is, w) =
      map-After (read_port-Reads s)
        (λ t port p.
          let (hi, lo, used, value) = p.says in
          (
            (
              x,
              hi,
              lo,
              t.input,
              subst (Greets sent)
                  (ap (λ r. 0x05 ∷ 0x01 ∷ x ∷ address_type host ∷ (address host ++ r))
                    (p.input ∙ ap (λ y. y ++ t.input) used))
                  g,
              is,
              value,
            ),
            Wrote-same s t p.same w,
          ))
        (λ t q. broken-Refused s t _ g w q)
