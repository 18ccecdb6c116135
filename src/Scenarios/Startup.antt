-- ===== src/Scenarios/Startup.antt =====
-- Starting and ending the two programs, at concrete options and events.
use Prim.Native.Nat.{bit_or}
use vmnet_helper.Prelude.{◌≡◌, refl, inl, [], ◌∷◌, ◌++◌, some, done, arith}
use vmnet_helper.Libc.{pos}
use vmnet_helper.Process.{dictionary, event, signal, timer, user, returns, Key, Description}
use vmnet_helper.Process.Protocol.{Obeys}
use vmnet_helper.Helper.VmToHost.{status_failure, status_stopped}
use vmnet_helper.Helper.Discipline.{Keeps}
use vmnet_helper.Helper.Startup.{main, parsed_globals, drop_privileges}
use vmnet_helper.Helper.Startup.Privileges.{Credentials, ownership, drop_privileges-drops}
use vmnet_helper.Helper.Startup.Unprivileged.{main-Obeys-ownership}
use vmnet_helper.Helper.Interface.{description}
use vmnet_helper.Helper.Interface.Described.{value_at, entry, description-entry}
use vmnet_helper.Helper.Events.{run_event, run_until_termination, exit_status}
use vmnet_helper.Helper.Events.Termination.{
  serve, by_timer, by_signal, run_until_termination-ends, exit_status-exit_with,
}
use vmnet_helper.Broker.{is_zero, read_reply}
use vmnet_helper.Broker.Results.{is_some, serialization_iff}
use vmnet_helper.Scenarios.Sharing.{noon, socket_options, socket_options-Accepted, never_null}

abbrev root : Credentials
root = record { uid = 0; gid = 0 }

abbrev ordinary : Credentials
ordinary = record { uid = 501; gid = 20 }

drop_privileges-drops_example :
    Keeps
      (ownership ordinary)
      (λ x g. (x ≡ root) × (g.options ≡ socket_options))
      drop_privileges
      (λ x g. (x ≡ ordinary) × (g.options ≡ socket_options))
drop_privileges-drops_example = drop_privileges-drops ordinary socket_options root

main-Obeys-ownership_example :
    Obeys
      (ownership ordinary)
      (λ x r. Unit)
      root
      (main never_null 5 (parsed_globals socket_options))
main-Obeys-ownership_example =
    main-Obeys-ownership never_null socket_options root 5 socket_options-Accepted

description-entry_example :
    (d : Description) × (description never_null socket_options ≡ done d)
    × ((k : Key) → value_at k d ≡ entry never_null socket_options k)
description-entry_example = description-entry never_null socket_options socket_options-Accepted refl

-- The timer fires twice, and then SIGTERM arrives.
run_until_termination-ends_example :
    serve noon
      ((event timer ∷ event timer ∷ []) ++ (event (signal 15) ∷ []))
      (run_until_termination 5 (parsed_globals socket_options))
    ≡ returns (tt, record (parsed_globals socket_options) { status = bit_or 0 status_stopped })
run_until_termination-ends_example =
    run_until_termination-ends noon (event timer ∷ event timer ∷ []) [] (event (signal 15))
      status_stopped 5 (parsed_globals socket_options) (by_timer, (by_timer, tt)) (by_signal 15)
      (omega arith)

exit_status-exit_with_example : exit_status (bit_or 0 status_failure) ≡ 1
unfolding run_event
exit_status-exit_with_example =
    exit_status-exit_with (event (user status_failure)) status_failure (inl refl) refl

serialization_iff_example :
    is_some (read_reply (dictionary (pos 4294967296) (some 9))).serialization
    ≡ is_zero (read_reply (dictionary (pos 4294967296) (some 9))).status
serialization_iff_example = serialization_iff (dictionary (pos 4294967296) (some 9))
