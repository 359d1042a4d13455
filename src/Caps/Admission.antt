-- ===== src/Caps/Admission.antt =====
-- Any number of calls on one limiter: the counter is the number of counted slots and stays within
-- the cap.
use Prim.Native.String.{String}
use cognis.Base.{
  ℕ, zero, suc, ◌+◌, ◌≤◌, ◌<◌, ◌≡◌, refl, sym, Bool, true, false, List, [], ◌∷◌, ◌++◌, some, arith,
}
use cognis.McpError.{McpError}
use cognis.Caps.{Texts}
use cognis.Caps.Limiter.{Call, idle, trying, holding, refused, begin, attempt, drop, acquire_loop}

abbrev pub slots : List Call → ℕ
slots [] = 0
slots (holding true ∷ cs) = suc (slots cs)
slots (_ ∷ cs) = slots cs

abbrev pub AllSeen : ℕ → List Call → Type 0
AllSeen bound [] = Unit
AllSeen bound (trying c ∷ cs) = (c ≤ bound) × AllSeen bound cs
AllSeen bound (_ ∷ cs) = AllSeen bound cs

slots-append : (xs ys : List Call) → slots (xs ++ ys) ≡ slots xs + slots ys
slots-append [] ys = omega arith
slots-append (x ∷ xs) ys = ground (arith, slots-append xs ys)

pub record Limiter : Type 0 where
  pub in_flight : ℕ
  pub calls : List Call

slots-cons : (c : Call) (cs : List Call) → slots (c ∷ cs) ≡ slots (c ∷ []) + slots cs
slots-cons c cs = ground arith

replace-AllSeen :
    (bound : ℕ) (pre post : List Call) (old call : Call)
    → AllSeen bound (call ∷ [])
    → AllSeen bound (pre ++ (old ∷ post))
    → AllSeen bound (pre ++ (call ∷ post))
replace-AllSeen bound [] post old call g a = ground (arith, g, a)
replace-AllSeen bound (trying c ∷ pre) post old call g (h, a) =
    (h, replace-AllSeen bound pre post old call g a)
replace-AllSeen bound (idle ∷ pre) post old call g a = replace-AllSeen bound pre post old call g a
replace-AllSeen bound (holding b ∷ pre) post old call g a =
    replace-AllSeen bound pre post old call g a
replace-AllSeen bound (refused e ∷ pre) post old call g a =
    replace-AllSeen bound pre post old call g a

abbrev pub idle_calls : ℕ → List Call
idle_calls zero = []
idle_calls (suc k) = idle ∷ idle_calls k

-- A new limiter and the calls that will come.
abbrev pub new : ℕ → Limiter
new k = record { in_flight = 0; calls = idle_calls k }

-- The outcomes of the weak exchanges: spurious failures, then none.
abbrev pub failing : ℕ → List Bool
failing zero = false ∷ []
failing (suc k) = true ∷ failing k

module _ (texts : Texts) (bound : ℕ) where
  -- The calls before and after the one that moves stay as they are.
  pub data Step : Limiter → Limiter → Type 0 where
    beginning :
        (pre post : List Call) (n : ℕ)
        → Step
            (record { in_flight = n; calls = pre ++ (idle ∷ post) })
            (record { in_flight = n; calls = pre ++ (begin bound n ∷ post) })
    attempting :
        (pre post : List Call) (tool : String) (spurious : Bool) (current n : ℕ)
        → Step
            (record { in_flight = n; calls = pre ++ (trying current ∷ post) })
            (record {
              in_flight = (attempt texts bound tool spurious current n).1;
              calls = pre ++ ((attempt texts bound tool spurious current n).0 ∷ post);
            })
    dropping :
        (pre post : List Call) (counted : Bool) (n : ℕ)
        → Step
            (record { in_flight = n; calls = pre ++ (holding counted ∷ post) })
            (record { in_flight = drop counted n; calls = pre ++ (idle ∷ post) })

  pub data Reach (s : Limiter) : Limiter → Type 0 where
    here : Reach s s
    next : {t u : Limiter} → Reach s t → Step t u → Reach s u

  -- The counter is the number of counted slots, and neither it nor a value of it that a call has
  -- observed is above the cap.
  pub record IsValid (s : Limiter) : Type 0 where
    pub counted : s.in_flight ≡ slots s.calls
    pub within : s.in_flight ≤ bound
    pub seen : AllSeen bound s.calls

  replace-IsValid :
      (pre post : List Call) (old call : Call) (n n' : ℕ)
      → n' + slots (old ∷ []) ≡ n + slots (call ∷ [])
      → n' ≤ bound
      → AllSeen bound (call ∷ [])
      → IsValid (record { in_flight = n; calls = pre ++ (old ∷ post) })
      → IsValid (record { in_flight = n'; calls = pre ++ (call ∷ post) })
  replace-IsValid pre post old call n n' e h g v = record {
    counted = omega (
      arith,
      v.counted,
      e,
      slots-append pre (old ∷ post),
      slots-append pre (call ∷ post),
      slots-cons old post,
      slots-cons call post,
    );
    within = h;
    seen = replace-AllSeen bound pre post old call g v.seen;
  }

  begin-step :
      (n : ℕ) → n ≤ bound → (slots (begin bound n ∷ []) ≡ 0) × AllSeen bound (begin bound n ∷ [])
  unfolding begin
  begin-step n h = ground arith

  attempt-step :
      (tool : String) (spurious : Bool) (current n : ℕ)
      → n ≤ bound
      → let (call, n') = attempt texts bound tool spurious current n in
        (n' ≡ n + slots (call ∷ [])) × (n' ≤ bound) × AllSeen bound (call ∷ [])
  unfolding attempt
  attempt-step tool spurious current n h = ground arith

  drop-step :
      (counted : Bool) (n m : ℕ)
      → n ≡ m + slots (holding counted ∷ [])
      → (drop counted n + slots (holding counted ∷ []) ≡ n) × (drop counted n ≤ n)
  unfolding drop
  drop-step counted n m e = ground arith

  Step-IsValid : {s t : Limiter} → Step s t → IsValid s → IsValid t
  Step-IsValid (beginning pre post n) v =
      let (e, g) = begin-step n v.within in
      replace-IsValid pre post idle (begin bound n) n n (omega (arith, e)) v.within g v
  Step-IsValid (attempting pre post tool spurious current n) v =
      let (call, n') = attempt texts bound tool spurious current n in
      let (e, h, g) = attempt-step tool spurious current n v.within in
      replace-IsValid pre post (trying current) call n n' (omega (arith, e)) h g v
  Step-IsValid (dropping pre post counted n) v =
      let m = slots pre + slots post in
      let (e, h) = drop-step counted n m (
        omega (
          arith,
          v.counted,
          slots-append pre (holding counted ∷ post),
          slots-cons (holding counted) post,
        )) in
      replace-IsValid pre post (holding counted) idle n (drop counted n) (omega (arith, e))
        (omega (arith, h, v.within)) tt v

  Reach-IsValid : {s t : Limiter} → IsValid s → Reach s t → IsValid t
  Reach-IsValid v here = v
  Reach-IsValid v (next r st) = Step-IsValid st (Reach-IsValid v r)

  idle-slots : (k : ℕ) → (slots (idle_calls k) ≡ 0) × AllSeen bound (idle_calls k)
  idle-slots zero = (refl, tt)
  idle-slots (suc k) = idle-slots k

  -- However the steps of any number of calls interleave, the counter is the number of counted slots
  -- that are held, and it stays within the cap.
  pub Reach-new-IsValid : (k : ℕ) {s : Limiter} → Reach (new k) s → IsValid s
  Reach-new-IsValid k r =
      let (e, g) = idle-slots k in
      Reach-IsValid (record { counted = sym e; within = omega arith; seen = g }) r

  seen-refused :
      (pre post : List Call) (current : ℕ) (tool : String) (spurious : Bool) (n : ℕ) (e : McpError)
      → AllSeen bound (pre ++ (trying current ∷ post))
      → (attempt texts bound tool spurious current n).0 ≡ refused e
      → current ≡ bound
  unfolding attempt
  seen-refused [] post current tool spurious n e a h = ground (arith, a, h)
  seen-refused (trying c ∷ pre) post current tool spurious n e a h =
      seen-refused pre post current tool spurious n e a.1 h
  seen-refused (idle ∷ pre) post current tool spurious n e a h =
      seen-refused pre post current tool spurious n e a h
  seen-refused (holding b ∷ pre) post current tool spurious n e a h =
      seen-refused pre post current tool spurious n e a h
  seen-refused (refused f ∷ pre) post current tool spurious n e a h =
      seen-refused pre post current tool spurious n e a h

  -- In every interleaving, a call that is refused had observed a counter equal to the cap.
  pub attempt-refused :
      (k : ℕ) (pre post : List Call) (current : ℕ) (tool : String) (spurious : Bool) (n : ℕ)
      (e : McpError)
      → Reach (new k) (record { in_flight = n; calls = pre ++ (trying current ∷ post) })
      → (attempt texts bound tool spurious current n).0 ≡ refused e
      → current ≡ bound
  attempt-refused k pre post current tool spurious n e r =
      seen-refused pre post current tool spurious n e (Reach-new-IsValid k r).seen

  -- A call that runs alone below the cap is admitted, whatever number of spurious failures comes
  -- before the exchange that succeeds.
  pub acquire_loop_alone :
      (tool : String) (failures n : ℕ)
      → n < bound
      → acquire_loop texts bound tool (failing failures) n n ≡ some (holding true, suc n)
  unfolding acquire_loop attempt
  acquire_loop_alone tool zero n h = ground arith
  acquire_loop_alone tool (suc failures) n h = ground (arith, acquire_loop_alone tool failures n h)
