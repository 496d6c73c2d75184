-- ===== src/Barrier/Examples.antt =====
-- A request that shares its lease with background work, and a reset that waits for both.
use revguard.Base.{
  ℕ, ◌≡◌, Bool, true, false, not, none, some, List, [], ◌∷◌, any, lookup, refl, Bool-cases, inl,
  inr,
}
use revguard.Model.Status.{OperationStatus}
use revguard.Model.Errors.{ok, err, runtime_busy}
use revguard.Model.Tables.{Operation, Database}
use revguard.Model.Samples.{empty}
use revguard.Journal.{Process}
use revguard.Barrier.{Resource, Lease, Runtime, acquire, fork, close, assert_recording_quiescent}
use revguard.Barrier.Counts.{live}
use revguard.Barrier.Leases.{IsLock}
use revguard.Barrier.Exclusion.{
  RuntimeSteps, begun, takes, shares, gives_back, exclusive_lease_is_alone,
}
use revguard.Barrier.Quiet.{HasNoWork, quiescent_recording_is_idle}

-- The rule of `flock`.
abbrev flock : Bool → List Bool → Bool
flock true [] = true
flock true (_ ∷ _) = false
flock false held = not (any (λ b. b) held)

flock-IsLock : IsLock flock
flock-IsLock = (whole, shared)
  where
    whole : (held : List Bool) → flock true held ≡ true → held ≡ []
    whole [] h = refl
    whole (_ ∷ _) h = absurd (cc)

    shared : (held : List Bool) → flock false held ≡ true → any (λ b. b) held ≡ false
    shared held h = elim (Bool-cases (any (λ b. b) held)) [
      | inl some_held ↦ let wrong = rw some_held at h in absurd (cc)
      | inr none_held ↦ none_held
    ]

abbrev open_lease : Lease
open_lease = record { resource = 0; exclusive = false; closed = false }

abbrev handle : ℕ → Resource
handle n = record { references = n; exclusive = false }

-- After a request has taken a lease, after it has shared it, and after each has given it back.
abbrev one : Runtime
one = record { resources = (0, handle 1) ∷ []; leases = (0, open_lease) ∷ []; next = 1 }

abbrev two : Runtime
two = record {
  resources = (0, handle 2) ∷ [];
  leases = (0, open_lease) ∷ (1, open_lease) ∷ [];
  next = 2;
}

abbrev gone : Runtime
gone = close 1 open_lease (handle 1) (close 0 open_lease (handle 2) two)

test_shared : fork open_lease (handle 1) one ≡ some (1, two)
unfolding fork
test_shared = refl

-- A reset is refused while one of them works, and a request while the reset does.
test_busy : acquire flock true two ≡ none
unfolding acquire
test_busy = refl

abbrev reset : Lease
reset = record { resource = 2; exclusive = true; closed = false }

abbrev resetting : Runtime
resetting = record {
  resources = (0, handle 0) ∷ (2, record { references = 1; exclusive = true }) ∷ [];
  leases =
      (0, record open_lease { closed = true })
      ∷ (1, record open_lease { closed = true })
      ∷ (2, reset)
      ∷ [];
  next = 3;
}

test_reset : acquire flock true gone ≡ some (2, resetting)
unfolding acquire close
test_reset = refl

test_request : acquire flock false resetting ≡ none
unfolding acquire
test_request = refl

steps : RuntimeSteps flock resetting
unfolding acquire fork close
steps =
    takes true 2
      (gives_back 1 open_lease (handle 1)
        (gives_back 0 open_lease (handle 2)
          (shares 0 1 open_lease (handle 1) (takes false 0 begun refl) refl refl refl) refl refl)
        refl refl)
      refl

exclusive_lease_is_alone_example :
    ((i j : ℕ) (l m : Lease)
      → lookup i resetting.leases ≡ some l
      → lookup j resetting.leases ≡ some m
      → l.closed ≡ false
      → m.closed ≡ false
      → l.exclusive ≡ true
      → i ≡ j)
    × ((k : ℕ) (r : Resource)
        → lookup k resetting.resources ≡ some r
        → r.references ≡ live k resetting.leases)
exclusive_lease_is_alone_example = exclusive_lease_is_alone flock resetting flock-IsLock steps

abbrev process : Process
process = record {
  recovery_lock = false;
  claim = none;
  digest = λ c. c.body;
  recording_key = λ key epoch. key;
}

-- Two operations of case 7, of which one is retired, and one of case 8.
abbrev operation : ℕ → OperationStatus → Operation
operation case_id status = record {
  case_id = case_id;
  channel = 3;
  kind = 1;
  request_hash = 5;
  status = status;
  generation = 1;
  recording = 0;
  executions = [];
}

abbrev db : Database
db = record empty {
  operations =
      (50, operation 7 OperationStatus.not_committed)
      ∷ (51, operation 8 OperationStatus.prepared)
      ∷ [];
}

test_other_case : assert_recording_quiescent process none db ≡ err runtime_busy
unfolding assert_recording_quiescent
test_other_case = refl

quiet : assert_recording_quiescent process (some 7) db ≡ ok tt
unfolding assert_recording_quiescent
quiet = refl

quiescent_recording_is_idle_example : HasNoWork (some 7) db
quiescent_recording_is_idle_example = quiescent_recording_is_idle process (some 7) db quiet
