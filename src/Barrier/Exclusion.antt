-- ===== src/Barrier/Exclusion.antt =====
-- Runs of requests that take, share and give back leases exclude each other (`RuntimeLease`,
-- `acquire_runtime_lease`, revguard/runtime_barrier.py).
use revguard.Base.{
  ℕ, ◌≡◌, Bool, true, false, ◌||◌, some, List, lookup, arith, Bool-cases, inl, inr, subst,
}
use revguard.Barrier.{Resource, Lease, Runtime, no_leases, held_modes, acquire, fork, close}
use revguard.Barrier.Counts.{live, none_held, none_exclusive}
use revguard.Barrier.Leases.{IsLock, IsSound, start-IsSound, sound_excludes}
use revguard.Barrier.Steps.{
  IsFree, acquired, forked, acquired-IsSound, forked-IsSound, given_back-IsSound,
}

-- The moves of requests: to take a lease, to share one that is there, and to give one back.
pub data RuntimeSteps (try_lock : Bool → List Bool → Bool) : Runtime → Type 0 where
  begun : RuntimeSteps try_lock no_leases
  takes :
      {w w' : Runtime} (exclusive : Bool) (i : ℕ)
      → RuntimeSteps try_lock w
      → acquire try_lock exclusive w ≡ some (i, w')
      → RuntimeSteps try_lock w'
  shares :
      {w w' : Runtime} (i j : ℕ) (l : Lease) (r : Resource)
      → RuntimeSteps try_lock w
      → lookup i w.leases ≡ some l
      → lookup l.resource w.resources ≡ some r
      → fork l r w ≡ some (j, w')
      → RuntimeSteps try_lock w'
  gives_back :
      {w : Runtime} (i : ℕ) (l : Lease) (r : Resource)
      → RuntimeSteps try_lock w
      → lookup i w.leases ≡ some l
      → lookup l.resource w.resources ≡ some r
      → RuntimeSteps try_lock (close i l r w)

lock-IsFree :
    (try_lock : Bool → List Bool → Bool) (exclusive : Bool) (w : Runtime)
    → IsLock try_lock
    → try_lock exclusive (held_modes w.resources) ≡ true
    → IsFree exclusive w
lock-IsFree try_lock true w (whole, shared) given k r found =
    let closed = none_held k r w.resources (whole (held_modes w.resources) given) found in
    ((λ e. closed), (λ e. closed))
lock-IsFree try_lock false w (whole, shared) given k r found = (
  (λ e. absurd (cc)),
  none_exclusive k r w.resources (shared (held_modes w.resources) given) found,
)

acquire-IsSound :
    (try_lock : Bool → List Bool → Bool) (exclusive : Bool) (i : ℕ) (w w' : Runtime)
    → IsLock try_lock
    → acquire try_lock exclusive w ≡ some (i, w')
    → IsSound w
    → IsSound w'
unfolding acquire
acquire-IsSound try_lock exclusive i w w' lock h sound =
    elim (Bool-cases (try_lock exclusive (held_modes w.resources))) [
      | inl given ↦
          let same : some (w.next, acquired exclusive w) ≡ some (i, w') = rw given at h in
          let result : (w.next, acquired exclusive w) ≡ (i, w') = cc in
          subst (λ (x : ℕ × Runtime). IsSound x.1) result
            (acquired-IsSound exclusive w (lock-IsFree try_lock exclusive w lock given) sound)
      | inr busy ↦ let wrong = rw busy at h in absurd (cc)
    ]

fork-IsSound :
    (i j : ℕ) (l : Lease) (r : Resource) (w w' : Runtime)
    → lookup i w.leases ≡ some l
    → lookup l.resource w.resources ≡ some r
    → fork l r w ≡ some (j, w')
    → IsSound w
    → IsSound w'
unfolding fork
fork-IsSound i j l r w w' at_i at_r h sound = elim (Bool-cases (l.closed || l.exclusive)) [
  | inl refused ↦ let wrong = rw refused at h in absurd (cc)
  | inr allowed ↦
      let same : some (w.next, forked l r w) ≡ some (j, w') = rw allowed at h in
      let result : (w.next, forked l r w) ≡ (j, w') = cc in
      subst (λ (x : ℕ × Runtime). IsSound x.1) result
        (forked-IsSound i l r w at_i at_r (ground arith) (ground arith) sound)
]

close-IsSound :
    (i : ℕ) (l : Lease) (r : Resource) (w : Runtime)
    → lookup i w.leases ≡ some l
    → lookup l.resource w.resources ≡ some r
    → IsSound w
    → IsSound (close i l r w)
unfolding close
close-IsSound i l r w at_i at_r sound = elim (Bool-cases l.closed) [
  | inl over ↦ rw over sound
  | inr open_l ↦ rw open_l (given_back-IsSound i l r w at_i at_r open_l sound)
]

module _ (try_lock : Bool → List Bool → Bool) (lock : IsLock try_lock) where
  steps-IsSound : {w : Runtime} → RuntimeSteps try_lock w → IsSound w
  steps-IsSound begun = start-IsSound
  steps-IsSound (takes {w} {w'} exclusive i steps e) =
      acquire-IsSound try_lock exclusive i w w' lock e (steps-IsSound steps)
  steps-IsSound (shares {w} {w'} i j l r steps at_i at_r e) =
      fork-IsSound i j l r w w' at_i at_r e (steps-IsSound steps)
  steps-IsSound (gives_back {w} i l r steps at_i at_r) =
      close-IsSound i l r w at_i at_r (steps-IsSound steps)

-- Where the system's lock gives an exclusive handle only while none is open, and a shared one only
-- while no exclusive one is, after any moves of requests an exclusive lease that is open is the only
-- open lease, and a handle is open for exactly as many references as it has open leases.
pub exclusive_lease_is_alone :
    (try_lock : Bool → List Bool → Bool) (w : Runtime)
    → IsLock try_lock
    → RuntimeSteps try_lock w
    → ((i j : ℕ) (l m : Lease)
        → lookup i w.leases ≡ some l
        → lookup j w.leases ≡ some m
        → l.closed ≡ false
        → m.closed ≡ false
        → l.exclusive ≡ true
        → i ≡ j)
      × ((k : ℕ) (r : Resource) → lookup k w.resources ≡ some r → r.references ≡ live k w.leases)
exclusive_lease_is_alone try_lock w lock steps =
    let sound = steps-IsSound try_lock lock steps in
    ((λ i j l m. sound_excludes w i j l m sound), sound.counted)
