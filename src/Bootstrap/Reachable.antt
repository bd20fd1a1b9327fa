-- ===== src/Bootstrap/Reachable.antt =====
-- What a client of src/lib.rs that was bootstrapped is known to be restricted to.
use bare_arti.Base.{
  ◌≡◌, refl, false, Option, none, some, List, [], ◌∷◌, is_nil, Outcome, done, broken, subst, String,
}
use bare_arti.Paths.{Bytes}
use bare_arti.Addresses.{parse_pattern, cons_outcome, parse_all, parse_reachable_address_patterns}
use bare_arti.Bootstrap.{
  Arti, ◌>>=◌, context, state_dir, cache_dir, parse_given, bootstrap_in_with_reachable_addresses,
}

-- The patterns are what the texts are parsed to, one for one.
abbrev pub AllParsed : {P : Type 0} → (Bytes → Outcome P) → List Bytes → List P → Type 0
AllParsed parse [] [] = Unit {0}
AllParsed parse (t ∷ ts) (p ∷ ps) = (parse t ≡ done p) × AllParsed parse ts ps
AllParsed parse _ _ = ⊥

-- Without an allow-list there are no patterns; an allow-list is not empty and is parsed whole.
abbrev pub IsRestriction :
    {P : Type 0} → (Bytes → Outcome P) → Option (List Bytes) → Option (List P) → Type 0
IsRestriction parse none none = Unit {0}
IsRestriction parse (some texts) (some ps) = (is_nil texts ≡ false) × AllParsed parse texts ps
IsRestriction parse _ _ = ⊥

bind_done :
    {A B : Type 0} (m : Outcome A) (f : A → Outcome B) {b : B}
    → (m >>= f) ≡ done b
    → (a : A) × (m ≡ done a) × (f a ≡ done b)
bind_done (done a) f h = (a, refl, h)
bind_done (broken e) f h = cc

context_done :
    {A : Type 0} (text : String) (m : Outcome A) {a : A} → context text m ≡ done a → m ≡ done a
context_done text (done x) h = h
context_done text (broken e) h = cc

done-injective : {A : Type 0} {x y : A} → ◌≡◌ {A = Outcome A} (done x) (done y) → x ≡ y
done-injective h = cc

module _ {P : Type 0} (parse : Bytes → Outcome P) (quoted : Bytes → String) where
  cons-AllParsed :
      (t : Bytes) (ts : List Bytes) (first : Outcome P) (rest : Outcome (List P)) {ps : List P}
      → parse t ≡ first
      → ((qs : List P) → rest ≡ done qs → AllParsed parse ts qs)
      → cons_outcome parse quoted (parse_pattern parse quoted t first) rest ≡ done ps
      → AllParsed parse (t ∷ ts) ps
  unfolding cons_outcome parse_pattern
  cons-AllParsed t ts (broken e) rest p ih h = cc
  cons-AllParsed t ts (done q) (broken e) p ih h = cc
  cons-AllParsed t ts (done q) (done qs) p ih h =
      subst (AllParsed parse (t ∷ ts)) (done-injective h) (p, ih qs refl)

  parse_all-AllParsed :
      (texts : List Bytes) {ps : List P}
      → parse_all parse quoted texts ≡ done ps
      → AllParsed parse texts ps
  unfolding parse_all
  parse_all-AllParsed [] h = subst (AllParsed parse []) (done-injective h) tt
  parse_all-AllParsed (t ∷ ts) h =
      cons-AllParsed t ts (parse t) (parse_all parse quoted ts) refl
        (λ qs e. parse_all-AllParsed ts e) h

  parse_patterns-AllParsed :
      (texts : List Bytes) {ps : List P}
      → parse_reachable_address_patterns parse quoted texts ≡ done ps
      → (is_nil texts ≡ false) × AllParsed parse texts ps
  unfolding parse_reachable_address_patterns
  parse_patterns-AllParsed [] h = cc
  parse_patterns-AllParsed (t ∷ ts) h = (refl, parse_all-AllParsed (t ∷ ts) h)

module _ {P G C : Type 0} (arti : Arti P G C) where
  parse_given-IsRestriction :
      (texts : Option (List Bytes)) {ps : Option (List P)}
      → parse_given arti texts ≡ done ps
      → IsRestriction arti.parse texts ps
  unfolding parse_given
  parse_given-IsRestriction none h = subst (IsRestriction arti.parse none) (done-injective h) tt
  parse_given-IsRestriction (some texts) h =
      let (ps, e, f) =
        bind_done (parse_reachable_address_patterns arti.parse arti.quoted texts)
          (λ ps. done (some ps)) h in
      subst (IsRestriction arti.parse (some texts)) (done-injective f)
        (parse_patterns-AllParsed arti.parse arti.quoted texts e)

  -- A client that was bootstrapped comes from a configuration for the state and cache directories below
  -- the one given, which was created or existed, with the patterns of the allow-list: none where there
  -- is no allow-list, and else every text of it, which is not empty, parsed.
  pub bootstrap_done :
      (dir : Bytes) (texts : Option (List Bytes)) {c : C}
      → bootstrap_in_with_reachable_addresses arti dir texts ≡ done c
      → (arti.create_dir_all dir ≡ done tt)
        × ((patterns : Option (List P)) × (config : G) × IsRestriction arti.parse texts patterns
            × (arti.build (state_dir dir) (cache_dir dir) patterns ≡ done config)
            × (arti.create_bootstrapped config ≡ done c))
  unfolding bootstrap_in_with_reachable_addresses
  bootstrap_done dir texts h =
      let (u, made, h1) =
        bind_done (context "creating Arti data directory" (arti.create_dir_all dir)) _ h in
      let (ps, read, h2) = bind_done (parse_given arti texts) _ h1 in
      let (config, built, h3) =
        bind_done (context "building tor config" (arti.build (state_dir dir) (cache_dir dir) ps)) _
          h2 in
      (
        context_done _ _ made,
        (
          ps,
          config,
          parse_given-IsRestriction texts read,
          context_done _ _ built,
          context_done _ _ h3,
        ),
      )
