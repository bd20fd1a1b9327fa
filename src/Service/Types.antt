-- ===== src/Service/Types.antt =====
-- Options, events and errors of src/service.rs, with the functions that build the errors.
--
-- A `Duration` is a number of nanoseconds, a path or an address pattern its bytes. Codes and messages
-- are texts.
use bare_arti.Base.{
  ℕ, ◌/◌, String, ◌≡◌, refl, Bool, true, false, ◌&&◌, Option, none, some, List, arith, ◌==◌, ◌⋯◌,
  display, list_eq, list_eq_refl,
}
use bare_arti.Paths.{Bytes, path_eq, path_eq_refl, bytes_eq, bytes_eq_refl}

pub record ServiceOptions : Type 0 where
  pub data_dir : Bytes
  pub reachable_addresses : Option (List Bytes)
  pub timeout : ℕ
  pub generation : ℕ

pub record ServiceError : Type 0 where
  pub code : String
  pub message : String

pub data ServiceEvent : Type 0 where
  running : (generation port : ℕ) → ServiceEvent
  failed : (generation : ℕ) (code message : String) → ServiceEvent
  stopped : (generation : ℕ) → ServiceEvent

-- `Result<T, ServiceError>`.
pub data Result {ℓ} (A : Type ℓ) : Type ℓ where
  ok : A → Result A
  err : ServiceError → Result A

abbrev pub WorkerResult : Type 0
WorkerResult = Result (Unit {0})

abbrev pub err_of : WorkerResult → Option ServiceError
err_of (ok u) = none
err_of (err e) = some e

-- `derive(PartialEq)` of `ServiceOptions`.
abbrev addresses_eq : Option (List Bytes) → Option (List Bytes) → Bool
addresses_eq none none = true
addresses_eq (some xs) (some ys) = list_eq bytes_eq xs ys
addresses_eq _ _ = false

unfoldable pub options_eq : ServiceOptions → ServiceOptions → Bool
unfolding path_eq list_eq
options_eq a b =
    path_eq a.data_dir b.data_dir
    && (addresses_eq a.reachable_addresses b.reachable_addresses
        && (a.timeout == b.timeout && a.generation == b.generation))

addresses_eq_refl : (a : Option (List Bytes)) → addresses_eq a a ≡ true
addresses_eq_refl none = refl
addresses_eq_refl (some xs) = list_eq_refl bytes_eq bytes_eq_refl xs

pub options_eq_refl : (o : ServiceOptions) → options_eq o o ≡ true
unfolding options_eq
options_eq_refl o = ground (arith, path_eq_refl o.data_dir, addresses_eq_refl o.reachable_addresses)

pub options_eq-generation :
    (a b : ServiceOptions) → options_eq a b ≡ true → a.generation ≡ b.generation
unfolding options_eq
options_eq-generation a b h = ground arith

abbrev pub shutdown_code : String
shutdown_code = "ERR_ARTI_SHUTDOWN"

unfoldable pub shutdown_error : String → ServiceError
shutdown_error text = record { code = shutdown_code; message = text }

unfoldable pub conflict_error : ServiceError
conflict_error = record {
  code = "ERR_ARTI_CONFIG_CONFLICT";
  message = "another Arti service configuration is active";
}

unfoldable pub cancelled_error : ServiceError
cancelled_error = record { code = "ERR_ARTI_CANCELLED"; message = "Arti service is stopping" }

unfoldable pub generation_error : (last requested : ℕ) → ServiceError
generation_error last requested = record {
  code = "ERR_ARTI_CONFIG";
  message = "generation " ⋯ (display requested ⋯ (" must be greater than " ⋯ display last));
}

unfoldable pub unexpected_exit_error : Option ServiceError → ServiceError
unexpected_exit_error (some error) = record {
  code = shutdown_code;
  message = "Arti worker exited unexpectedly (" ⋯ (error.code ⋯ (": " ⋯ (error.message ⋯ ")")));
}
unexpected_exit_error none = record {
  code = shutdown_code;
  message = "Arti worker exited unexpectedly";
}

unfoldable pub failed_event : ℕ → ServiceError → ServiceEvent
failed_event generation error = failed generation error.code error.message

-- `Display` of `ServiceError`.
unfoldable pub display_error : ServiceError → String
display_error error = error.code ⋯ (": " ⋯ error.message)

-- `Duration::as_millis`.
abbrev pub as_millis : ℕ → ℕ
as_millis d = d / 1000000

unfoldable pub stop_timeout_error : ℕ → ServiceError
stop_timeout_error duration = record {
  code = shutdown_code;
  message = "Arti worker did not exit within " ⋯ (display (as_millis duration) ⋯ " milliseconds");
}
