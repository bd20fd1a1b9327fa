-- ===== src/Tests/Listener.antt =====
-- The theorems on the accept task and the bootstrap of src/lib.rs, at concrete inputs.
use bare_arti.Tests.{options_one}
use bare_arti.Base.{
  ℕ, ◌≡◌, ◌≤◌, ◌+◌, refl, true, false, Option, none, some, List, [], ◌∷◌, count, arith, Outcome,
  done, broken, ◌⋯◌, String, ◌++◌, sym, ◌∙◌,
}
use bare_arti.Paths.{Bytes}
use bare_arti.Service.Types.{err, shutdown_error}
use bare_arti.Socks.Listener.{
  Completed, Task, Phase, Listener, Polled, new_listener, select_round, drain_round, end_task,
  signal, new_service,
}
use bare_arti.Socks.Listener.Steps.{Internal, Step, Reach, Later, with_result}
use bare_arti.Socks.Listener.Accounts.{ids, connections_conserved, terminal_all_joined}
use bare_arti.Socks.Listener.Drain.{
  Run, IsForced, closing_accepts_nothing, drain_bounded, stuck_is_ended,
}
use bare_arti.Bootstrap.{Arti, bootstrap_in_with_reachable_addresses, state_dir, cache_dir}
use bare_arti.Bootstrap.Reachable.{IsRestriction, bootstrap_done}
use bare_arti.Socks.{Tor, handle_conn}
use bare_arti.Socks.Dialogue.{conn}
use bare_arti.Socks.Transcript.{IsTranscript, handle_conn-IsTranscript}
use bare_arti.Worker.{run_service, run_production_worker}
use bare_arti.Addresses.{parse_reachable_address_patterns}
use bare_arti.DataDir.{Metadata, prepare_data_dir}
use bare_arti.Socks.Utf8.{is_utf8}
use bare_arti.Worker.Production.{Outside, Served, managed, production_environment}
use bare_arti.Worker.Codes.{IsWorkerCode, production_error_code, lonely_end_is_reported}

-- A connection is accepted, the owner shuts the service down, and the connection is joined.
abbrev opened : Listener
opened = select_round (Polled.accepted 5) new_listener

abbrev told : Listener
told = signal (new_service 9050) opened

abbrev closing : Listener
closing = select_round Polled.nothing told

abbrev task : Task
task = record { id = 5; result = none }

abbrev finished : Task
finished = record { id = 5; result = some Completed.returned }

abbrev complete : Listener
complete = with_result [] task Completed.returned [] closing

abbrev alone : Listener
alone = drain_round [] finished Completed.returned [] (done tt) complete

abbrev over : Listener
over = end_task (done tt) alone

closing-Reach : Reach closing
unfolding new_listener select_round signal new_service
closing-Reach =
    Reach.next
      (Reach.next (Reach.next Reach.here (Step.select (Polled.accepted 5) new_listener refl tt))
        (Step.signalled (new_service 9050) opened))
      (Step.select Polled.nothing told refl tt)

completes : Internal closing complete
unfolding new_listener select_round signal new_service
completes = Internal.complete [] task Completed.returned [] closing refl refl tt

drains : Internal complete alone
unfolding new_listener select_round signal new_service
drains = Internal.drain [] finished Completed.returned [] (done tt) complete refl refl refl

finishes : Internal alone over
unfolding new_listener select_round signal new_service drain_round
finishes = Internal.finish (done tt) alone refl refl

over-Reach : Reach over
over-Reach =
    Reach.next
      (Reach.next (Reach.next closing-Reach (Step.internal completes)) (Step.internal drains))
      (Step.internal finishes)

connections_conserved_example :
    count 5 alone.accepted ≡ count 5 (ids alone.connections) + count 5 alone.joined
connections_conserved_example =
    connections_conserved
      (Reach.next (Reach.next closing-Reach (Step.internal completes)) (Step.internal drains)) 5

terminal_all_joined_example :
    (over.listening ≡ false) × (count 5 over.accepted ≡ count 5 over.joined)
unfolding end_task
terminal_all_joined_example = terminal_all_joined over-Reach refl 5

closing_accepts_nothing_example :
    (complete.accepted ≡ closing.accepted)
    × (complete.listening ≡ false)
    × (complete.aborted ≡ true)
unfolding new_listener select_round signal new_service
closing_accepts_nothing_example =
    closing_accepts_nothing closing-Reach (Later.then Later.here (Step.internal completes)) tt

drained-Run : Run 3 closing over
drained-Run = Run.then completes (Run.then drains (Run.then finishes Run.here))

drain_bounded_example : 3 ≤ 3
unfolding new_listener select_round signal new_service
drain_bounded_example = drain_bounded drained-Run

not_empty : (before after : List Task) (t : Task) → [] ≡ before ++ t ∷ after → ⊥
not_empty [] after t e = cc
not_empty (b ∷ before) after t e = cc

-- Nothing is left to do at the end.
idle :
    {l k : Listener} {o : Outcome (Unit {0})}
    → Internal l k
    → l.connections ≡ []
    → l.phase ≡ Phase.ended o
    → ⊥
idle (Internal.complete before t r after l e n c) empty p = not_empty before after t (sym empty ∙ e)
idle (Internal.drain before t r after outcome l q e n) empty p = cc
idle (Internal.finish outcome l q e) empty p = cc

stuck : (k : Listener) (i : Internal over k) → ¬ IsForced i
unfolding end_task drain_round
stuck k i forced = idle i refl refl

stuck_is_ended_example :
    (o : Outcome (Unit {0})) × (over.phase ≡ Phase.ended o)
    × (over.terminal ≡ true)
    × (over.listening ≡ false)
    × ((c : ℕ) → count c over.accepted ≡ count c over.joined)
unfolding new_listener select_round signal new_service
stuck_is_ended_example = stuck_is_ended closing-Reach tt drained-Run stuck

-- A loop that ended by itself.
abbrev broke : Listener
broke = select_round (Polled.accept_failed "no descriptor") new_listener

abbrev gone : Listener
gone = end_task (broken ("accepting SOCKS connection: " ⋯ "no descriptor")) broke

gone-Reach : Reach gone
unfolding new_listener select_round
gone-Reach =
    Reach.next
      (Reach.next Reach.here
        (Step.select (Polled.accept_failed "no descriptor") new_listener refl tt))
      (Step.internal (Internal.finish _ broke refl refl))

abbrev lonely : Served
lonely = record {
  bind = done tt;
  local_addr = done 9050;
  waited = some gone.terminal;
  joined = done (broken ("accepting SOCKS connection: " ⋯ "no descriptor"));
}

lonely_end_is_reported_example :
    (text : String) × (◌≡◌ {A = Outcome (Unit {0})}
      (broken ("accepting SOCKS connection: " ⋯ "no descriptor"))
      (broken text))
    × ((run_service true (managed lonely (new_service 9050))).result
        ≡ err (shutdown_error ("could not stop SOCKS service: " ⋯ text)))
unfolding new_listener select_round end_task
lonely_end_is_reported_example =
    lonely_end_is_reported 9050 _ gone-Reach refl refl (λ h. omega (arith, h))

-- Libraries that parse a pattern to itself, and whose client is its configuration.
abbrev libraries : Arti Bytes Bytes Bytes
libraries = record {
  create_dir_all = λ dir. done tt;
  parse = λ text. done text;
  quoted = λ text. "";
  build = λ state cache patterns. done state;
  create_bootstrapped = λ config. done config;
}

bootstrap_done_example :
    (libraries.create_dir_all (47 ∷ []) ≡ done tt)
    × ((patterns : Option (List Bytes)) × (config : Bytes) × IsRestriction libraries.parse
          (some ((42 ∷ []) ∷ []))
          patterns
        × (libraries.build (state_dir (47 ∷ [])) (cache_dir (47 ∷ [])) patterns ≡ done config)
        × (libraries.create_bootstrapped config ≡ done (state_dir (47 ∷ []))))
unfolding bootstrap_in_with_reachable_addresses parse_reachable_address_patterns
bootstrap_done_example = bootstrap_done libraries (47 ∷ []) (some ((42 ∷ []) ∷ [])) refl

-- A worker whose port cannot be bound.
abbrev home : Metadata
home = record { is_symlink = false; is_dir = true; mode = 0o40700; uid = 501; dev = 1; ino = 2 }

abbrev unbound : Served
unbound = record {
  bind = broken "in use";
  local_addr = done 0;
  waited = none;
  joined = done (done tt);
}

abbrev outside : Outside Bytes Bytes Bytes
outside = record {
  arti = libraries;
  runtime = done tt;
  euid = 501;
  file_system = record {
    existed = false;
    create_dir_all = done tt;
    set_permissions = done tt;
    first = done home;
    canonicalize = done (47 ∷ 98 ∷ []);
    canonical_metadata = done home;
    final_metadata = done home;
  };
  cancels_bootstrap = false;
  cancels_bind = false;
  served = λ client. unbound;
  ready_open = true;
}

production_error_code_example : IsWorkerCode "ERR_ARTI_BIND"
unfolding production_environment run_production_worker prepare_data_dir is_utf8
    bootstrap_in_with_reachable_addresses
production_error_code_example =
    production_error_code outside options_one
      {e = record { code = "ERR_ARTI_BIND"; message = "binding socks listener" }} refl

-- A client that asks for port 80 of a name, and is connected.
abbrev network : Tor
network = record { connect = λ host port. done tt; splice = done tt }

abbrev asking : Bytes
asking = 5 ∷ 1 ∷ 0 ∷ 5 ∷ 1 ∷ 0 ∷ 3 ∷ 1 ∷ 97 ∷ 0 ∷ 80 ∷ []

handle_conn-IsTranscript_example :
    IsTranscript network asking (handle_conn network (conn asking [] 2 []))
handle_conn-IsTranscript_example = handle_conn-IsTranscript network (conn asking [] 2 []) refl refl
