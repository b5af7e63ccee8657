-- ===== src/Replication/Timeout.antt =====
-- The event loop sleeps until the first deadline of the clients that wait.
use carrotdb.Base.{
  ℕ, ◌-◌, ◌^◌, ◌<◌, ◌≤◌, ◌≡◌, refl, ◌||◌, List, [], ◌∷◌, Option, none, some, All, Bool-cases, ◌⊎◌,
  inl, inr, arith, leb, if◌then◌else◌, ◌∙◌, lt→ltb, ◌%◌,
}
use carrotdb.Base.Int.{ℤ, pos, negsuc, ltb_ℤ}
use carrotdb.Replication.Master.{BlockedWaitClient}
use carrotdb.Replication.Info.{to_int, is_minus_one, least_timeout, get_next_wait_timeout_ms}

-- A deadline less than 2 ^ 31 milliseconds away.
abbrev pub IsNear : ℕ → Option ℕ → Type 0
IsNear now none = Unit {0}
IsNear now (some at) = at - now < 2 ^ 31

-- A time that is not behind a deadline.
abbrev pub IsInTime : ℕ → ℕ → Option ℕ → Type 0
IsInTime now n none = Unit {0}
IsInTime now n (some at) = n ≤ at - now

-- A client among these has that deadline.
pub data IsDeadline (at : ℕ) : List BlockedWaitClient → Type 0 where
  of_first :
      {b : BlockedWaitClient} {bs : List BlockedWaitClient}
      → b.timeout_at ≡ some at
      → IsDeadline at (b ∷ bs)
  of_later :
      {b : BlockedWaitClient} {bs : List BlockedWaitClient}
      → IsDeadline at bs
      → IsDeadline at (b ∷ bs)

-- The time to the deadline of one of the clients, which is 0 for a deadline that is over.
abbrev pub IsReached : ℕ → ℕ → List BlockedWaitClient → Type 0
IsReached now n bs = (at : ℕ) × IsDeadline at bs × (n ≡ at - now)

abbrev IsHit : ℕ → ℕ → Option ℕ → List BlockedWaitClient → Type 0
IsHit now n o bs = ((at : ℕ) × (o ≡ some at) × (n ≡ at - now)) ⊎ IsReached now n bs

hit-IsReached :
    (now n : ℕ) (b : BlockedWaitClient) (bs : List BlockedWaitClient)
    → IsHit now n b.timeout_at bs
    → IsReached now n (b ∷ bs)
hit-IsReached now n b bs (inl (at, e, l)) = (at, of_first e, l)
hit-IsReached now n b bs (inr (at, d, l)) = (at, of_later d, l)

to_int-near : (n : ℕ) → n < 2 ^ 31 → to_int n ≡ pos n
unfolding to_int
to_int-near n near = let low : n % 2 ^ 32 ≡ n = omega arith in rw (low, lt→ltb n (2 ^ 31) near) refl

abbrev InTime : ℕ → ℕ → List BlockedWaitClient → Type 0
InTime now n = All (λ b. IsInTime now n b.timeout_at)

abbrev pub Near : ℕ → List BlockedWaitClient → Type 0
Near now = All (λ b. IsNear now b.timeout_at)

zero-IsInTime : (now : ℕ) (o : Option ℕ) → IsInTime now 0 o
zero-IsInTime now none = tt
zero-IsInTime now (some at) = omega arith

InTime-zero : (now : ℕ) (bs : List BlockedWaitClient) → InTime now 0 bs
InTime-zero now [] = tt
InTime-zero now (b ∷ bs) = (zero-IsInTime now b.timeout_at, InTime-zero now bs)

-- The step of the loop with the client's deadline and the loop over the others.
turn : ℕ → ℤ → Option ℕ → (ℤ → ℤ) → ℤ
turn now min_timeout none rest = rest min_timeout
turn now min_timeout (some at) rest =
    if leb at now
    then pos 0
    else if is_minus_one min_timeout || ltb_ℤ (pos (at - now)) min_timeout
    then rest (to_int (at - now))
    else rest min_timeout

least_timeout-turn :
    (now : ℕ) (b : BlockedWaitClient) (bs : List BlockedWaitClient) (m : ℤ)
    → least_timeout now (b ∷ bs) m ≡ turn now m b.timeout_at (least_timeout now bs)
unfolding least_timeout turn
least_timeout-turn now b bs m = by_deadline b.timeout_at
  where
    by_deadline :
        (o : Option ℕ)
        → elim o [
          | none ↦ least_timeout now bs m
          | some at ↦
              (let remaining = at - now in
                let shorter = least_timeout now bs (to_int remaining) in
                let rest = least_timeout now bs m in
                if leb at now
                then pos 0
                else if is_minus_one m || ltb_ℤ (pos remaining) m
                then shorter
                else rest)
        ]
          ≡ turn now m o (least_timeout now bs)
    by_deadline none = refl
    by_deadline (some at) = refl

abbrev Found : ℕ → ℕ → List BlockedWaitClient → ℤ → Type 0
Found now k bs r =
    (n : ℕ) × (r ≡ pos n) × (n ≤ k) × InTime now n bs × ((n ≡ k) ⊎ IsReached now n bs)

turn-Found :
    (now k : ℕ) (o : Option ℕ) (bs : List BlockedWaitClient) (rest : ℤ → ℤ)
    → IsNear now o
    → ((j : ℕ) → Found now j bs (rest (pos j)))
    → (n : ℕ) × (turn now (pos k) o rest ≡ pos n)
      × (n ≤ k)
      × IsInTime now n o
      × InTime now n bs
      × ((n ≡ k) ⊎ IsHit now n o bs)
unfolding turn is_minus_one
turn-Found now k none bs rest near found =
    let (n, e, le, all, at) = found k in (n, e, le, tt, all, later at)
  where
    later : {n : ℕ} → (n ≡ k) ⊎ IsReached now n bs → (n ≡ k) ⊎ IsHit now n none bs
    later (inl e) = inl e
    later (inr d) = inr (inr d)
turn-Found now k (some at) bs rest near found = elim (Bool-cases (leb at now)) [
  | inl l ↦
      rw l
        (0, refl, omega arith, omega arith, InTime-zero now bs, inr (inl (at, refl, ground arith)))
  | inr l ↦ rw l (elim (Bool-cases (ltb_ℤ (pos (at - now)) (pos k))) [
    | inl s ↦
        (let (n, e, le, all, d) = found (at - now) in
          rw (s, to_int-near (at - now) near) (n, e, ground arith, le, all, inr (sooner d)))
    | inr s ↦ (let (n, e, le, all, d) = found k in rw s (n, e, le, ground arith, all, later d))
  ])
]
  where
    sooner : {n : ℕ} → (n ≡ at - now) ⊎ IsReached now n bs → IsHit now n (some at) bs
    sooner (inl e) = inl (at, refl, e)
    sooner (inr d) = inr d

    later : {n : ℕ} → (n ≡ k) ⊎ IsReached now n bs → (n ≡ k) ⊎ IsHit now n (some at) bs
    later (inl e) = inl e
    later (inr d) = inr (inr d)

least_timeout-Found :
    (now k : ℕ) (bs : List BlockedWaitClient)
    → Near now bs
    → Found now k bs (least_timeout now bs (pos k))
unfolding least_timeout
least_timeout-Found now k [] near = (k, refl, omega arith, tt, inl refl)
least_timeout-Found now k (b ∷ bs) near =
    let (n, e, le, one, all, d) =
      turn-Found now k b.timeout_at bs (least_timeout now bs) near.0
        (λ j. least_timeout-Found now j bs near.1) in
    (n, least_timeout-turn now b bs (pos k) ∙ e, le, (one, all), joined d)
  where
    joined : {n : ℕ} → (n ≡ k) ⊎ IsHit now n b.timeout_at bs → (n ≡ k) ⊎ IsReached now n (b ∷ bs)
    joined (inl e) = inl e
    joined (inr d) = inr (hit-IsReached now _ b bs d)

-- -1 where there is no deadline, or else the time to the first one.
abbrev pub IsLeast : ℕ → List BlockedWaitClient → ℤ → Type 0
IsLeast now bs r =
    ((r ≡ negsuc 0) × All (λ b. b.timeout_at ≡ none) bs)
    ⊎ ((n : ℕ) × (r ≡ pos n) × All (λ b. IsInTime now n b.timeout_at) bs × IsReached now n bs)

turn-IsLeast :
    (now : ℕ) (b : BlockedWaitClient) (bs : List BlockedWaitClient) (o : Option ℕ)
    → b.timeout_at ≡ o
    → IsNear now o
    → Near now bs
    → IsLeast now bs (least_timeout now bs (negsuc 0))
    → ((turn now (negsuc 0) o (least_timeout now bs) ≡ negsuc 0)
        × (o ≡ none)
        × All (λ c. c.timeout_at ≡ none) bs)
      ⊎ ((n : ℕ) × (turn now (negsuc 0) o (least_timeout now bs) ≡ pos n)
          × IsInTime now n o
          × InTime now n bs
          × IsHit now n o bs)
unfolding turn is_minus_one
turn-IsLeast now b bs none e near all (inl (r, h)) = inl (r, refl, h)
turn-IsLeast now b bs none e near all (inr (n, r, h, d)) = inr (n, r, tt, h, inr d)
turn-IsLeast now b bs (some at) e near all h = elim (Bool-cases (leb at now)) [
  | inl l ↦ rw l (inr (0, refl, omega arith, InTime-zero now bs, inl (at, refl, ground arith)))
  | inr l ↦
      rw (l, to_int-near (at - now) near)
        (let (n, r, le, found, d) = least_timeout-Found now (at - now) bs all in
          inr (n, r, le, found, started d))
]
  where
    started : {n : ℕ} → (n ≡ at - now) ⊎ IsReached now n bs → IsHit now n (some at) bs
    started (inl l) = inl (at, refl, l)
    started (inr d) = inr d

least_timeout-IsLeast :
    (now : ℕ) (bs : List BlockedWaitClient)
    → Near now bs
    → IsLeast now bs (least_timeout now bs (negsuc 0))
unfolding least_timeout
least_timeout-IsLeast now [] near = inl (refl, tt)
least_timeout-IsLeast now (b ∷ bs) near =
    join
      (turn-IsLeast now b bs b.timeout_at refl near.0 near.1 (least_timeout-IsLeast now bs near.1))
  where
    join :
        ((turn now (negsuc 0) b.timeout_at (least_timeout now bs) ≡ negsuc 0)
            × (b.timeout_at ≡ none)
            × All (λ c. c.timeout_at ≡ none) bs)
          ⊎ ((n : ℕ) × (turn now (negsuc 0) b.timeout_at (least_timeout now bs) ≡ pos n)
              × IsInTime now n b.timeout_at
              × InTime now n bs
              × IsHit now n b.timeout_at bs)
        → IsLeast now (b ∷ bs) (least_timeout now (b ∷ bs) (negsuc 0))
    join (inl (r, one, h)) = inl (least_timeout-turn now b bs (negsuc 0) ∙ r, (one, h))
    join (inr (n, r, one, h, d)) =
        inr (n, least_timeout-turn now b bs (negsuc 0) ∙ r, (one, h), hit-IsReached now n b bs d)

-- When every deadline of a client that waits is less than 2 ^ 31 milliseconds away,
-- get_next_wait_timeout_ms answers -1, and then no client has a deadline, or the least of the times
-- in milliseconds to the clients' deadlines: the time to one of them, 0 for a deadline that is
-- over, which passes none of the others.
pub get_next_wait_timeout_ms-IsLeast :
    (now : ℕ) (bs : List BlockedWaitClient)
    → All (λ b. IsNear now b.timeout_at) bs
    → IsLeast now bs (get_next_wait_timeout_ms now bs)
unfolding get_next_wait_timeout_ms
get_next_wait_timeout_ms-IsLeast now bs near = least_timeout-IsLeast now bs near
