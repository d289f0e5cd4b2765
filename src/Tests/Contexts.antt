-- ===== src/Tests/Contexts.antt =====
-- Runs of `SSLContext` of sdk/net/crypto/ssl.cc with a library that hands out new handles, accepts
-- every cipher list or none, and answers with fixed texts.
use iggy_cpp_client.Prelude.{
  ℕ, suc, ◌+◌, ◌<◌, ◌≡◌, refl, true, false, none, some, List, [], ◌∷◌, arith, Bool-cases, inl, inr,
}
use iggy_cpp_client.Prelude.Bytes.{codes}
use iggy_cpp_client.Prelude.Errors.{err}
use iggy_cpp_client.Ssl.Version.{client, tlsv1_3}
use iggy_cpp_client.Ssl.Options.{SslOptions}
use iggy_cpp_client.Ssl.Wolf.{
  Handle, init, created, freed, min_proto, cert_manager, cipher_list, get_error, History, WolfSsl,
  is_live, IsSafe, IsFresh,
}
use iggy_cpp_client.Ssl.Context.{ssl_error, SslContext, init_once, new_context}
use iggy_cpp_client.Ssl.Context.Outcome.{Opening, new_context-Opening}
use iggy_cpp_client.Ssl.Program.{
  Program, Op, construct, copy, move, assign, move_assign, destroy, step, run, start,
}
use iggy_cpp_client.Ssl.Program.Slots.{Owns}
use iggy_cpp_client.Ssl.Program.Ownership.{Inv, start-Inv, step-Inv, run-IsSafe, run-Owns}
use iggy_cpp_client.Ssl.Program.Orphans.{IsOrphan}
use iggy_cpp_client.Ssl.Program.Leaks.{Held, run-Held}
use iggy_cpp_client.Ssl.Program.Flaws.{construct_leaks}

-- A handle above all that were created.
unused : History → Handle
unused [] = 0
unused (created m (some c) ∷ h) = suc c + unused h
unused (_ ∷ h) = unused h

live-below : (h : History) (c : Handle) → is_live c h ≡ true → c < unused h
unfolding is_live unused
live-below [] c e = absurd (cc)
live-below (init ∷ h) c e = live-below h c e
live-below (created m none ∷ h) c e = live-below h c e
live-below (created m (some d) ∷ h) c e = ground (arith, live-below h c)
live-below (freed d ∷ h) c e = live-below h c (ground arith)
live-below (min_proto d v ∷ h) c e = live-below h c e
live-below (cert_manager d ∷ h) c e = live-below h c e
live-below (cipher_list d s ∷ h) c e = live-below h c e
live-below (get_error ∷ h) c e = live-below h c e

unused-not-live : (h : History) → is_live (unused h) h ≡ false
unused-not-live h = elim (Bool-cases (is_live (unused h) h)) [
  | inl e ↦ absurd (omega (arith, live-below h (unused h) e))
  | inr e ↦ e
]

-- The library whose answer to a cipher list is given.
abbrev test_lib : ℕ → WolfSsl
test_lib answer = record {
  ctx_new = λ h m. some (unused h);
  get_cert_manager = λ h c. some 7;
  set_cipher_list = λ h c s. answer;
  error_string = λ h. codes "refused";
  ssl_success = 1;
  tls1_2_version = 3;
  tls1_3_version = 4;
}

test-IsFresh : (answer : ℕ) → IsFresh (test_lib answer)
test-IsFresh answer = record { fresh = λ h m c e. ground (arith, unused-not-live h) }

abbrev test_options : SslOptions
test_options = record {
  peer_type = client;
  peer_cert_path = none;
  minimum_supported_protocol_version = tlsv1_3;
  ciphers = codes "TLS_AES_128_GCM_SHA256" ∷ [];
}

new_context-Opening_example :
    Opening
      (test_lib 1)
      0
      0
      test_options
      (init_once start.world)
      (new_context (test_lib 1) 0 0 test_options start.world)
new_context-Opening_example = new_context-Opening (test_lib 1) 0 0 test_options start.world

abbrev test_ops : List Op
test_ops =
    construct 0 0 0 test_options
    ∷ copy 1 0
    ∷ assign 0 1
    ∷ move 2 0
    ∷ move_assign 1 2
    ∷ destroy 1
    ∷ destroy 0
    ∷ []

run-IsSafe_example : IsSafe (run (test_lib 1) test_ops start).world.history
run-IsSafe_example = run-IsSafe (test_lib 1) (test-IsFresh 1) test_ops

run-Owns_example :
    Owns (run (test_lib 1) test_ops start).world.history (run (test_lib 1) test_ops start).slots
run-Owns_example = run-Owns (test_lib 1) (test-IsFresh 1) test_ops

run-Held_example :
    Held
      (test_lib 0)
      (run (test_lib 0) test_ops start).world.history
      (run (test_lib 0) test_ops start).slots
run-Held_example = run-Held (test_lib 0) test_ops

-- After one construction that the library refused.
abbrev refused_once : Program
refused_once = step (test_lib 0) (construct 0 0 0 test_options) start

refused_once-Inv : Inv refused_once
refused_once-Inv =
    step-Inv (test_lib 0) (test-IsFresh 0) (construct 0 0 0 test_options) start
      (start-Inv (test_lib 0) (test-IsFresh 0))

refused_once-empty : refused_once.slots 0 ≡ none
unfolding step new_context
refused_once-empty = refl

refused_once-done : refused_once.world.init_done ≡ true
unfolding step new_context
refused_once-done = refl

construct_leaks_example :
    ((new_context (test_lib 0) 0 0 test_options refused_once.world).0
      ≡ err (ssl_error (test_lib 0) "Failed to set cipher list: {}" (codes "refused")))
    × IsOrphan
        (unused refused_once.world.history)
        (run (test_lib 0) test_ops (step (test_lib 0) (construct 0 0 0 test_options) refused_once))
construct_leaks_example =
    construct_leaks (test_lib 0) 0 0 0 test_options refused_once (unused refused_once.world.history)
      test_ops (test-IsFresh 0) refused_once-Inv refused_once-empty refused_once-done refl refl
      (λ e. cc)

-- Two objects.
abbrev two_objects : Program
two_objects =
    run (test_lib 1) (construct 0 0 0 test_options ∷ construct 1 0 0 test_options ∷ []) start

abbrev test_object : ℕ → SslContext
test_object c = record { options = 0; pki_env = 0; ctx = some c; cm = some 7 }
