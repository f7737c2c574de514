-- ===== src/Stack/Numbers.antt =====
-- The identifiers and ports that the stack hands out (minitcp/stack.py).
use mini_tcp.Base.{
  ltb, ltb→lt, ltb→le, ==_ne, ==_iff, ℕ, zero, suc, ◌+◌, ◌-◌, ◌%◌, ◌==◌, if◌then◌else◌, ◌≤◌, ◌<◌,
  ◌≡◌, ◌≢◌, ◌↔◌, refl, sym, ap, ◌∙◌, subst, true, false, Option, none, some, arith, Bool-cases, inl,
  inr,
}
use mini_tcp.Stack.{
  Stack, first_ephemeral_port, last_ephemeral_port, allocate_id, port_in_use, next_port_after,
  try_ports, allocate_port,
}

-- The port that a try starts from lies in the ephemeral range.
abbrev pub IsEphemeral : ℕ → Type 0
IsEphemeral port = (first_ephemeral_port ≤ port) × (port ≤ last_ephemeral_port)

next_port_after-IsEphemeral : (port : ℕ) → IsEphemeral port → IsEphemeral (next_port_after port)
unfolding next_port_after
next_port_after-IsEphemeral port h = ground (arith, h)

-- The port that is tried after so many others.
unfoldable nth_port : ℕ → ℕ → ℕ
unfolding next_port_after
nth_port zero port = port
nth_port (suc k) port = nth_port k (next_port_after port)

-- The tries go through the ephemeral ports in a circle.
nth_port_lem :
    (k port : ℕ) → IsEphemeral port → nth_port k port ≡ 49152 + (port - 49152 + k) % 16384
unfolding nth_port
nth_port_lem zero port h = omega (arith, h)
nth_port_lem (suc k) port h =
    nth_port_lem k (next_port_after port) (next_port_after-IsEphemeral port h)
    ∙ unfold next_port_after in ground (arith, h)

-- The ephemeral port before another, round the end of the range.
abbrev pub port_before : ℕ → ℕ
port_before port = if port == 49152 then 65535 else port - 1

-- How many tries it takes to get from one ephemeral port to another.
steps_to : ℕ → ℕ → ℕ
steps_to start port = (port + 16384 - start) % 16384

nth_port-steps_to :
    (start port : ℕ)
    → IsEphemeral start
    → IsEphemeral port
    → nth_port (steps_to start port) start ≡ port
unfolding steps_to
nth_port-steps_to start port h k = nth_port_lem (steps_to start port) start h ∙ omega (arith, h, k)

last_try :
    (start port : ℕ)
    → IsEphemeral start
    → IsEphemeral port
    → 16383 ≤ steps_to start port
    → port ≡ port_before start
unfolding steps_to
last_try start port h k late = elim (Bool-cases (start == 49152)) [
  | inl e ↦ rw e (omega (arith, h, k, late, (==_iff start 49152).0 e))
  | inr e ↦ rw e (omega (arith, h, k, late, ==_ne start 49152 e))
]

steps_to_early :
    (start port : ℕ)
    → IsEphemeral start
    → IsEphemeral port
    → port ≢ port_before start
    → steps_to start port < 16383
unfolding steps_to
steps_to_early start port h k other = elim (Bool-cases (ltb (steps_to start port) 16383)) [
  | inl early ↦ ltb→lt _ _ early
  | inr late ↦ absurd (other (last_try start port h k (ltb→le _ _ late)))
]

nth_port-before :
    (k start : ℕ)
    → IsEphemeral start
    → k < 16383
    → IsEphemeral (nth_port k start) × (nth_port k start ≢ port_before start)
nth_port-before k start h less = rw (nth_port_lem k start h) (
  (omega arith, omega arith),
  elim (Bool-cases (start == 49152)) [
    | inl e ↦ rw e (λ x. omega (arith, x, (==_iff start 49152).0 e, less))
    | inr e ↦ rw e (λ x. omega (arith, x, h, less))
  ],
)

module _ {T : Type 0} where
  -- If the next identification is one of 1 to 65535, so is the one that is handed out and the one after
  -- it, and these two differ.
  pub allocate_id_bounds :
      (s : Stack T)
      → 1 ≤ s.next_id
      → s.next_id ≤ 65535
      → ((1 ≤ (allocate_id s).1) × ((allocate_id s).1 ≤ 65535))
        × (((1 ≤ (allocate_id s).0.next_id) × ((allocate_id s).0.next_id ≤ 65535))
            × ((allocate_id s).0.next_id ≢ (allocate_id s).1))
  unfolding allocate_id
  allocate_id_bounds s h k =
      ((omega arith, omega arith), ((ground arith, ground arith), λ e. ground (arith, e)))

  -- A port is in use whatever port is tried next.
  in_use_moved :
      (s : Stack T) (port next : ℕ)
      → port_in_use (record s { next_port = next }) port ≡ port_in_use s port
  unfolding port_in_use
  in_use_moved s port next = refl

  -- One try: a busy port is passed over, and a free one is handed out.
  moved : Stack T → Stack T
  moved s = record s { next_port = next_port_after s.next_port }

  try_busy :
      (tries : ℕ) (s : Stack T)
      → port_in_use s s.next_port ≡ true
      → try_ports (suc tries) s ≡ try_ports tries (moved s)
  unfolding try_ports moved
  try_busy tries s busy = rw busy refl

  try_free :
      (tries : ℕ) (s : Stack T)
      → port_in_use s s.next_port ≡ false
      → try_ports (suc tries) s ≡ (moved s, some s.next_port)
  unfolding try_ports moved
  try_free tries s free = rw free refl

  -- The port that is handed out is free.
  abbrev IsRight : Stack T → Stack T × Option ℕ → Type 0
  IsRight s (s', none) = Unit {0}
  IsRight s (s', some port) =
      (port_in_use s port ≡ false) × (IsEphemeral port × IsEphemeral s'.next_port)

  try_ports-IsRight :
      (tries : ℕ) (s : Stack T) → IsEphemeral s.next_port → IsRight s (try_ports tries s)
  unfolding moved port_in_use try_ports
  try_ports-IsRight zero s h = tt
  try_ports-IsRight (suc tries) s h = elim (Bool-cases (port_in_use s s.next_port)) [
    | inl busy ↦
        subst (IsRight s) (sym (try_busy tries s busy))
          (try_ports-IsRight tries (moved s) (next_port_after-IsEphemeral s.next_port h))
    | inr free ↦
        subst (IsRight s) (sym (try_free tries s free))
          (free, (h, next_port_after-IsEphemeral s.next_port h))
  ]

  of_right :
      (s : Stack T) (r : Stack T × Option ℕ) (port : ℕ)
      → IsRight s r
      → r.1 ≡ some port
      → (port_in_use s port ≡ false) × (IsEphemeral port × IsEphemeral r.0.next_port)
  of_right s (s', none) port h e = absurd cc
  of_right s (s', some p) port h e = ground (arith, h, e)

  -- A port that is handed out is an ephemeral port that no listener and no connection uses, and the
  -- next search starts from an ephemeral port again, if this one did.
  pub allocate_port_free :
      (s : Stack T) (port : ℕ)
      → IsEphemeral s.next_port
      → (allocate_port s).1 ≡ some port
      → (port_in_use s port ≡ false)
        × (IsEphemeral port × IsEphemeral (allocate_port s).0.next_port)
  allocate_port_free s port h e =
      of_right s (allocate_port s) port (unfold allocate_port in try_ports-IsRight 16383 s h) e

  all_busy :
      (tries : ℕ) (s : Stack T)
      → (try_ports tries s).1 ≡ none
      → (k : ℕ) → k < tries
      → port_in_use s (nth_port k s.next_port) ≡ true
  all_busy zero s e k h = absurd (omega arith)
  all_busy (suc tries) s e k h = elim (Bool-cases (port_in_use s s.next_port)) [
    | inr free ↦ absurd (ground (arith, sym (ap (λ x. x.1) (try_free tries s free)) ∙ e))
    | inl busy ↦
        later k h (all_busy tries (moved s) (sym (ap (λ x. x.1) (try_busy tries s busy)) ∙ e)) busy
  ]
    where
      later :
          (k : ℕ)
          → k < suc tries
          → ((j : ℕ) → j < tries → port_in_use (moved s) (nth_port j (moved s).next_port) ≡ true)
          → port_in_use s s.next_port ≡ true
          → port_in_use s (nth_port k s.next_port) ≡ true
      later zero h rest busy = unfold nth_port in busy
      later (suc j) h rest busy = unfold moved port_in_use nth_port in rest j (omega arith)

  all_busy-none :
      (tries : ℕ) (s : Stack T)
      → ((k : ℕ) → k < tries → port_in_use s (nth_port k s.next_port) ≡ true)
      → (try_ports tries s).1 ≡ none
  all_busy-none zero s h = unfold try_ports in refl
  all_busy-none (suc tries) s h =
      ap (λ x. x.1) (try_busy tries s (unfold nth_port in h 0 (omega arith)))
      ∙ all_busy-none tries (moved s)
          (λ k less. unfold moved port_in_use nth_port in h (suc k) (omega arith))

  -- No port is handed out exactly if each ephemeral port is in use, but perhaps the one that is tried
  -- last: the one before the port that the search starts from, round the end of the range. The search
  -- starts from an ephemeral port.
  pub allocate_port_fails :
      (s : Stack T)
      → IsEphemeral s.next_port
      → ((allocate_port s).1 ≡ none) ↔ (
          (port : ℕ)
          → IsEphemeral port
          → port ≢ port_before s.next_port
          → port_in_use s port ≡ true)
  unfolding allocate_port
  allocate_port_fails s start = (
    λ e port h other. rw⁻¹ (nth_port-steps_to s.next_port port start h) (
        all_busy 16383 s e (steps_to s.next_port port)
          (steps_to_early s.next_port port start h other)),
    λ h. all_busy-none 16383 s (λ k less.
        let (within, other) = nth_port-before k s.next_port start less in
        h (nth_port k s.next_port) within other),
  )
