-- ===== src/Barrier/Counts.antt =====
-- How many open leases a resource has (revguard/runtime_barrier.py: `_Resource.references`).
use revguard.Base.{
  ℕ, suc, ◌+◌, ◌≤◌, ◌≡◌, ◌≢◌, Bool, true, false, not, ◌&&◌, Option, none, some, [], ◌∷◌, Dict,
  lookup, insert, any, if◌then◌else◌, ◌==◌, arith,
}
use revguard.Barrier.{Resource, Lease, held_modes}

abbrev pub is_on : ℕ → Lease → Bool
is_on k l = not l.closed && l.resource == k

-- The open leases on a resource.
abbrev pub live : ℕ → Dict Lease → ℕ
live k [] = 0
live k ((_, l) ∷ rest) = if is_on k l then suc (live k rest) else live k rest

abbrev pub weight : ℕ → Option Lease → ℕ
weight k none = 0
weight k (some l) = if is_on k l then 1 else 0

pub live-insert :
    (k i : ℕ) (v : Lease) (d : Dict Lease)
    → live k (insert i v d) + weight k (lookup i d) ≡ live k d + weight k (some v)
live-insert k i v [] = ground arith
live-insert k i v ((j, l) ∷ d) = ground (arith, live-insert k i v d)

pub live-one :
    (k i : ℕ) (l : Lease) (d : Dict Lease) → lookup i d ≡ some l → is_on k l ≡ true → 1 ≤ live k d
live-one k i l [] found on = absurd (cc)
live-one k i l ((j, m) ∷ d) found on = ground (arith, live-one k i l d)

pub live-two :
    (k i j : ℕ) (l m : Lease) (d : Dict Lease)
    → i ≢ j
    → lookup i d ≡ some l
    → lookup j d ≡ some m
    → is_on k l ≡ true
    → is_on k m ≡ true
    → 2 ≤ live k d
live-two k i j l m [] other first second on_l on_m = absurd (cc)
live-two k i j l m ((h, x) ∷ d) other first second on_l on_m =
    ground (arith, live-two k i j l m d, live-one k i l d, live-one k j m d)

pub none_held :
    (k : ℕ) (r : Resource) (d : Dict Resource)
    → held_modes d ≡ []
    → lookup k d ≡ some r
    → r.references ≡ 0
unfolding held_modes
none_held k r [] free found = absurd (cc)
none_held k r ((j, s) ∷ d) free found = ground (arith, none_held k r d)

pub none_exclusive :
    (k : ℕ) (r : Resource) (d : Dict Resource)
    → any (λ b. b) (held_modes d) ≡ false
    → lookup k d ≡ some r
    → r.exclusive ≡ true
    → r.references ≡ 0
unfolding held_modes
none_exclusive k r [] free found alone = absurd (cc)
none_exclusive k r ((j, s) ∷ d) free found alone = ground (arith, none_exclusive k r d)
