-- ===== src/Runner/Transition/Invariant.antt =====
-- The invariant of one task's record: its history is a walk in the transition diagram from PENDING
-- to its state, and its attempts are numbered in order, with only the last of a running task open.
use schema_guard.Base.{
  ℕ, suc, ◌+◌, ◌≤◌, String, ◌≡◌, refl, inl, inr, Bool, true, false, Option, List, [], ◌∷◌, ◌++◌,
  arith, length, length-append, All, All-append, length-map_last, map_last, is_none, if◌then◌else◌,
  Bool-cases,
}
use schema_guard.Runner.Record.{
  TaskStatus, pending, TaskAttempt, TaskTransition, TaskStateRecord, new_record,
}
use schema_guard.Runner.Task.{TaskSpec}
use schema_guard.Runner.Transition.{
  Request, is_running, next_record, next_attempts, start_attempt, close_abandoned, close_attempt,
  retry_abandoned,
}
use schema_guard.Runner.Transition.Edges.{Permitted, start}

-- The transitions lead from one status to another, each over an edge of the diagram.
abbrev pub Walk : TaskStatus → List TaskTransition → TaskStatus → Type 0
Walk s [] t = s ≡ t
Walk s (x ∷ xs) t =
    (x.from_state ≡ s) × Permitted x.reason true x.from_state x.to_state × Walk x.to_state xs t

-- The attempts are numbered from `n`.
abbrev pub Numbered : ℕ → List TaskAttempt → Type 0
Numbered n [] = Unit
Numbered n (x ∷ xs) = (x.attempt_number ≡ n) × Numbered (n + 1) xs

-- Every attempt is closed with an end time, but the last of a running task, which is open.
abbrev pub OpenAtEnd : Bool → List TaskAttempt → Type 0
OpenAtEnd live [] = live ≡ false
OpenAtEnd live (x ∷ []) = (is_running x.state ≡ live) × (is_none x.ended_at ≡ live)
OpenAtEnd live (x ∷ y ∷ xs) =
    (is_running x.state ≡ false) × (is_none x.ended_at ≡ false) × OpenAtEnd live (y ∷ xs)

-- The heartbeat has a time zone, so a lease can be compared with the clock.
abbrev pub IsZoned : TaskAttempt → Type 0
IsZoned x = x.heartbeat_at.aware ≡ true

-- How often a walk enters RUNNING.
abbrev pub starts : List TaskTransition → ℕ
starts [] = 0
starts (x ∷ xs) = let n = starts xs in if is_running x.to_state then suc n else n

pub record IsConsistent (r : TaskStateRecord) : Type 0 where
  pub walk : Walk pending r.transitions r.state
  pub numbered : Numbered 1 r.attempts
  pub open_at_end : OpenAtEnd (is_running r.state) r.attempts
  pub one_attempt_per_start : length r.attempts ≡ starts r.transitions
  pub zoned : All IsZoned r.attempts

-- A record that a plan's task starts with is consistent.
pub new_record-IsConsistent : (now : ℕ) (t : TaskSpec) → IsConsistent (new_record now t)
unfolding new_record
new_record-IsConsistent now t = record {
  walk = refl;
  numbered = tt;
  open_at_end = refl;
  one_attempt_per_start = refl;
  zoned = tt;
}

pub Walk-append :
    (s : TaskStatus) (xs : List TaskTransition) (x : TaskTransition)
    → Walk s xs x.from_state
    → Permitted x.reason true x.from_state x.to_state
    → Walk s (xs ++ x ∷ []) x.to_state
Walk-append s [] x h p = (ground arith, p, refl)
Walk-append s (y ∷ ys) x h p = (h.0, h.1, Walk-append y.to_state ys x h.2 p)

pub starts-append :
    (xs : List TaskTransition) (x : TaskTransition)
    → starts (xs ++ x ∷ []) ≡ starts xs + (if is_running x.to_state then 1 else 0)
starts-append [] x = ground arith
starts-append (y ∷ ys) x = ground (arith, starts-append ys x)

Numbered-append :
    (n : ℕ) (xs : List TaskAttempt) (x : TaskAttempt)
    → Numbered n xs
    → x.attempt_number ≡ n + length xs
    → Numbered n (xs ++ x ∷ [])
Numbered-append n [] x h e = (omega arith, tt)
Numbered-append n (y ∷ ys) x h e = (h.0, Numbered-append (n + 1) ys x h.1 (omega arith))

OpenAtEnd-append :
    (xs : List TaskAttempt) (x : TaskAttempt)
    → OpenAtEnd false xs
    → is_running x.state ≡ true
    → is_none x.ended_at ≡ true
    → OpenAtEnd true (xs ++ x ∷ [])
OpenAtEnd-append [] x h r e = (r, e)
OpenAtEnd-append (y ∷ []) x h r e = (h.0, h.1, (r, e))
OpenAtEnd-append (y ∷ z ∷ zs) x h r e = (h.0, h.1, OpenAtEnd-append (z ∷ zs) x h.2 r e)

-- Rewriting the last attempt keeps the numbers, if it keeps its own.
pub Numbered-map_last :
    (f : TaskAttempt → TaskAttempt)
    → ((x : TaskAttempt) → (f x).attempt_number ≡ x.attempt_number)
    → (n : ℕ) (xs : List TaskAttempt) → Numbered n xs
    → Numbered n (map_last f xs)
Numbered-map_last f keep n [] h = tt
Numbered-map_last f keep n (x ∷ []) h = (ground (arith, keep x), tt)
Numbered-map_last f keep n (x ∷ y ∷ xs) h = (h.0, Numbered-map_last f keep (n + 1) (y ∷ xs) h.1)

-- An update that closes an open attempt leaves all of them closed.
pub OpenAtEnd-close :
    (f : TaskAttempt → TaskAttempt)
    → ((x : TaskAttempt) → (is_running (f x).state ≡ false) × (is_none (f x).ended_at ≡ false))
    → (live : Bool) (xs : List TaskAttempt) → OpenAtEnd live xs
    → OpenAtEnd false (map_last f xs)
OpenAtEnd-close f close live [] h = refl
OpenAtEnd-close f close live (x ∷ []) h = close x
OpenAtEnd-close f close live (x ∷ y ∷ []) h = (h.0, h.1, close y)
OpenAtEnd-close f close live (x ∷ y ∷ z ∷ zs) h =
    (h.0, h.1, OpenAtEnd-close f close live (y ∷ z ∷ zs) h.2)

-- An update that leaves the state and the end time of an attempt alone.
pub OpenAtEnd-keep :
    (f : TaskAttempt → TaskAttempt)
    → ((x : TaskAttempt)
        → (is_running (f x).state ≡ is_running x.state)
          × (is_none (f x).ended_at ≡ is_none x.ended_at))
    → (live : Bool) (xs : List TaskAttempt) → OpenAtEnd live xs
    → OpenAtEnd live (map_last f xs)
OpenAtEnd-keep f keep live [] h = h
OpenAtEnd-keep f keep live (x ∷ []) h = ground (arith, keep x)
OpenAtEnd-keep f keep live (x ∷ y ∷ []) h = (h.0, h.1, OpenAtEnd-keep f keep live (y ∷ []) h.2)
OpenAtEnd-keep f keep live (x ∷ y ∷ z ∷ zs) h =
    (h.0, h.1, OpenAtEnd-keep f keep live (y ∷ z ∷ zs) h.2)

pub All-map_last :
    (P : TaskAttempt → Type 0) (f : TaskAttempt → TaskAttempt)
    → ((x : TaskAttempt) → P x → P (f x))
    → (xs : List TaskAttempt) → All P xs
    → All P (map_last f xs)
All-map_last P f keep [] h = tt
All-map_last P f keep (x ∷ []) h = (keep x h.0, tt)
All-map_last P f keep (x ∷ y ∷ xs) h = (h.0, All-map_last P f keep (y ∷ xs) h.1)

not_running :
    {why : Option String} {flag : Bool} {s t : TaskStatus}
    → Permitted why flag s t
    → is_running t ≡ true
    → is_running s ≡ false
not_running start h = refl
not_running _ h = ground arith

-- What a transition does to the attempts: it starts one, closes the last, or leaves them alone.
data Attempted (xs : List TaskAttempt) (from_live to_live : Bool) : List TaskAttempt → Type 0 where
  started :
      (x : TaskAttempt)
      → to_live ≡ true
      → x.attempt_number ≡ length xs + 1
      → is_running x.state ≡ true
      → is_none x.ended_at ≡ true
      → IsZoned x
      → Attempted xs from_live to_live (xs ++ x ∷ [])
  closed :
      (f : TaskAttempt → TaskAttempt)
      → to_live ≡ false
      → ((x : TaskAttempt) → (f x).attempt_number ≡ x.attempt_number)
      → ((x : TaskAttempt) → (is_running (f x).state ≡ false) × (is_none (f x).ended_at ≡ false))
      → ((x : TaskAttempt) → IsZoned (f x))
      → Attempted xs from_live to_live (map_last f xs)
  untouched : to_live ≡ false → from_live ≡ false → Attempted xs from_live to_live xs

next_attempts-Attempted :
    (now pid : ℕ) (r : TaskStateRecord) (a : Request)
    → Attempted r.attempts (is_running r.state) (is_running a.to_state) (next_attempts now pid r a)
unfolding next_attempts start_attempt close_abandoned close_attempt
next_attempts-Attempted now pid r a = elim (Bool-cases (is_running a.to_state)) [
  | inl live ↦
      rw live (started (start_attempt now pid (length r.attempts + 1)) refl refl refl refl refl)
  | inr idle ↦ rw idle (elim (Bool-cases (retry_abandoned r.state a)) [
    | inl lost ↦
        rw lost
          (closed (close_abandoned now a.reason) refl (λ x. refl) (λ x. (refl, refl)) (λ x. refl))
    | inr kept ↦ rw kept (elim (Bool-cases (is_running r.state)) [
      | inl live ↦
          rw live (closed (close_attempt now a) refl (λ x. refl) (λ x. (idle, refl)) (λ x. refl))
      | inr rest ↦ rw rest (untouched refl refl)
    ])
  ])
]

module _ {xs : List TaskAttempt} {from_live to_live : Bool} where
  Attempted-Numbered :
      {ys : List TaskAttempt} → Attempted xs from_live to_live ys → Numbered 1 xs → Numbered 1 ys
  Attempted-Numbered (started x live number opened none' zone) h =
      Numbered-append 1 xs x h (omega arith)
  Attempted-Numbered (closed f idle number close zone) h = Numbered-map_last f number 1 xs h
  Attempted-Numbered (untouched idle rest) h = h

  Attempted-OpenAtEnd :
      {ys : List TaskAttempt}
      → Attempted xs from_live to_live ys
      → (to_live ≡ true → from_live ≡ false)
      → OpenAtEnd from_live xs
      → OpenAtEnd to_live ys
  Attempted-OpenAtEnd (started x live number opened none' zone) fresh h =
      rw live (OpenAtEnd-append xs x (rw (fresh live) at h) opened none')
  Attempted-OpenAtEnd (closed f idle number close zone) fresh h =
      rw idle (OpenAtEnd-close f close from_live xs h)
  Attempted-OpenAtEnd (untouched idle rest) fresh h = rw idle (rw rest at h)

  Attempted-IsZoned :
      {ys : List TaskAttempt} → Attempted xs from_live to_live ys → All IsZoned xs → All IsZoned ys
  Attempted-IsZoned (started x live number opened none' zone) h =
      All-append IsZoned xs (x ∷ []) h (zone, tt)
  Attempted-IsZoned (closed f idle number close zone) h =
      All-map_last IsZoned f (λ x z. zone x) xs h
  Attempted-IsZoned (untouched idle rest) h = h

  Attempted-length :
      {ys : List TaskAttempt}
      → Attempted xs from_live to_live ys
      → length ys ≡ length xs + (if to_live then 1 else 0)
  Attempted-length (started x live number opened none' zone) = rw live (length-append xs (x ∷ []))
  Attempted-length (closed f idle number close zone) = ground (arith, length-map_last f xs)
  Attempted-length (untouched idle rest) = ground arith

module _ (now pid : ℕ) (r : TaskStateRecord) (a : Request) (c : IsConsistent r)
    (p : Permitted a.reason true r.state a.to_state) where
  -- The next record of a consistent record is consistent.
  pub next_record-IsConsistent : IsConsistent (next_record now pid r a)
  unfolding next_record
  next_record-IsConsistent =
      let v = next_attempts-Attempted now pid r a in
      record {
        walk = Walk-append pending r.transitions _ c.walk p;
        numbered = Attempted-Numbered v c.numbered;
        open_at_end = Attempted-OpenAtEnd v (not_running p) c.open_at_end;
        one_attempt_per_start = rw (starts-append, Attempted-length v, c.one_attempt_per_start);
        zoned = Attempted-IsZoned v c.zoned;
      }

-- A transition loses no attempt.
pub next_attempts-le :
    (now pid : ℕ) (r : TaskStateRecord) (a : Request)
    → length r.attempts ≤ length (next_attempts now pid r a)
next_attempts-le now pid r a =
    ground (arith, Attempted-length (next_attempts-Attempted now pid r a))
