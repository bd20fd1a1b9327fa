-- ===== src/CommandLine.antt =====
-- `main` of src/bin/arti-socks.rs: the runner that prints the port of a SOCKS proxy.
--
-- The two lines on its standard error are left out.
use bare_arti.Base.{ℕ, Option, none, some, List, [], ◌∷◌, Outcome, done, broken}
use bare_arti.Paths.{Bytes}
use bare_arti.Bootstrap.{Arti, Variable, bootstrap}
use bare_arti.Socks.Listener.{Listener, serve_socks_with, new_service, poll}

-- The answers of `bind` and `local_addr`, and what a join of the accept task gives in the end.
pub record Machine : Type 0 where
  pub bind : Outcome (Unit {0})
  pub local_addr : Outcome ℕ
  pub joined : Outcome (Outcome (Unit {0}))

abbrev result_of : Option (Outcome (Unit {0})) → Outcome (Unit {0})
result_of none = done tt
result_of (some result) = result

-- `handle.await?`, once the port is printed.
unfoldable pub after_serve : Machine → Outcome (ℕ × Listener) → List ℕ × Outcome (Unit {0})
unfolding poll new_service
after_serve m (broken error) = ([], broken error)
after_serve m (done (port, listener)) =
    (port ∷ [], result_of (poll (new_service port) (some m.joined)))

unfoldable pub after_bootstrap : {C : Type 0} → Machine → Outcome C → List ℕ × Outcome (Unit {0})
unfolding after_serve serve_socks_with
after_bootstrap m (broken error) = ([], broken error)
after_bootstrap m (done client) = after_serve m (serve_socks_with m.bind m.local_addr)

-- What is printed, and how it ends.
unfoldable pub main :
    {P G C : Type 0}
    → Arti P G C
    → (data_dir addresses : Variable) → (default : Bytes) → Machine
    → List ℕ × Outcome (Unit {0})
unfolding after_bootstrap bootstrap
main arti data_dir addresses default m =
    after_bootstrap m (bootstrap arti data_dir addresses default)
