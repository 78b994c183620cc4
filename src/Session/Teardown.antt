-- ===== src/Session/Teardown.antt =====
-- The tasks that `disconnect` of ssh-transport/src/lib.rs spawns, run by a scheduler of any kind.
use rust_core.Base.{ℕ, ◌≡◌, refl, ap, ◌∙◌, sym, Bool, true, false, some, List, [], ◌∷◌, ◌++◌, map}
use rust_core.Base.{reverse, Option, none, length, length-reverse, ◌+◌, ◌*◌, ◌≤◌, min, arith}
use rust_core.Base.{reverse-onto}
use rust_core.Russh.{RusshError, Reply, hangs, History, Call, Step, plain, within, eof, close}
use rust_core.Channel.{closing}
use rust_core.Connect.{SshSpikeSession}
use rust_core.Session.{disconnect, farewell}

-- A task's run: its calls, the newest first, and whether it came to its end. A call that gets no
-- reply stops the task, unless it is bounded.
abbrev pub goes_on : Step → Reply RusshError (Unit {0}) → Bool
goes_on (plain c) hangs = false
goes_on (plain c) _ = true
goes_on (within seconds c) _ = true

abbrev pub call_of : Step → Call
call_of (plain c) = c
call_of (within seconds c) = c

unfoldable pub run_task :
    (History → Call → Reply RusshError (Unit {0})) → List Step → History → History × Bool
run_task replies [] h = (h, true)
run_task replies (step ∷ rest) h = elim (goes_on step (replies h (call_of step))) [
  | true ↦ run_task replies rest (call_of step ∷ h)
  | false ↦ (call_of step ∷ h, false)
]

abbrev pub bye : ℕ → Call
bye handle = call_of (farewell handle)

farewells_finish :
    (replies : History → Call → Reply RusshError (Unit {0})) (handles : List ℕ) (h : History)
    → run_task replies (map farewell handles) h ≡ (reverse (map bye handles) ++ h, true)
unfolding run_task
farewells_finish replies [] h = refl
farewells_finish replies (n ∷ handles) h =
    farewells_finish replies handles (bye n ∷ h)
    ∙ ap (λ t. (t, true)) (sym (reverse-onto (bye n) (map bye handles) h))

-- The last task that `disconnect` spawns for a connected session comes to its end whatever the
-- connections reply, also if every one of them hangs: it says goodbye once to the target and then
-- once to each hop, in reverse order of the dial, and makes no other call.
pub farewells_lem :
    (s : SshSpikeSession) (handle : ℕ) (replies : History → Call → Reply RusshError (Unit {0}))
    (h : History)
    → s.handle ≡ some handle
    → (task : List Step) × ((disconnect s).1 ≡ closing s.write_half ++ (task ∷ []))
      × (run_task replies task h ≡ (reverse (map bye (handle ∷ reverse s.parents)) ++ h, true))
unfolding disconnect
farewells_lem s handle replies h live = (
  map farewell (handle ∷ reverse s.parents),
  rw live refl,
  farewells_finish replies (handle ∷ reverse s.parents) h,
)

-- How long a call takes until its reply, in seconds, and how long a step waits for it; `none` is for
-- ever.
abbrev pub wait_of : Step → Option ℕ → Option ℕ
wait_of (plain c) latency = latency
wait_of (within seconds c) none = some seconds
wait_of (within seconds c) (some latency) = some (min seconds latency)

abbrev plus : Option ℕ → Option ℕ → Option ℕ
plus none b = none
plus (some a) none = none
plus (some a) (some b) = some (a + b)

unfoldable pub elapsed : (History → Call → Option ℕ) → List Step → History → Option ℕ
elapsed latency [] h = some 0
elapsed latency (step ∷ rest) h =
    plus (wait_of step (latency h (call_of step))) (elapsed latency rest (call_of step ∷ h))

wait_of-farewell :
    (handle : ℕ) (latency : Option ℕ)
    → (seconds : ℕ) × (wait_of (farewell handle) latency ≡ some seconds) × (seconds ≤ 5)
wait_of-farewell handle none = (5, refl, omega arith)
wait_of-farewell handle (some latency) = (min 5 latency, refl, omega arith)

farewells_elapsed :
    (latency : History → Call → Option ℕ) (handles : List ℕ) (h : History)
    → (seconds : ℕ) × (elapsed latency (map farewell handles) h ≡ some seconds)
      × (seconds ≤ 5 * length handles)
unfolding elapsed
farewells_elapsed latency [] h = (0, refl, omega arith)
farewells_elapsed latency (n ∷ handles) h =
    let (a, waits, small) = wait_of-farewell n (latency h (bye n)) in
    let (b, later, bound) = farewells_elapsed latency handles (bye n ∷ h) in
    (a + b, rw (waits, later) refl, omega (arith, small, bound))

-- However slow the connections are, also if they never reply, the last task that `disconnect` spawns
-- for a connected session waits five seconds at most for each connection.
pub farewells_bounded :
    (s : SshSpikeSession) (handle : ℕ) (latency : History → Call → Option ℕ) (h : History)
    → s.handle ≡ some handle
    → (task : List Step) × ((disconnect s).1 ≡ closing s.write_half ++ (task ∷ []))
      × ((seconds : ℕ) × (elapsed latency task h ≡ some seconds)
          × (seconds ≤ 5 * (1 + length s.parents)))
unfolding disconnect
farewells_bounded s handle latency h live =
    let (seconds, waits, bound) = farewells_elapsed latency (handle ∷ reverse s.parents) h in
    (
      map farewell (handle ∷ reverse s.parents),
      rw live refl,
      (seconds, waits, omega (arith, bound, length-reverse s.parents)),
    )

-- Two tasks that run side by side: the calls of each keep their order.
pub data Merge : List Call → List Call → List Call → Type 0 where
  nil : Merge [] [] []
  left : {c : Call} {xs ys zs : List Call} → Merge xs ys zs → Merge (c ∷ xs) ys (c ∷ zs)
  right : {c : Call} {xs ys zs : List Call} → Merge xs ys zs → Merge xs (c ∷ ys) (c ∷ zs)

-- The connections that are told goodbye.
abbrev departure_of : Call → List ℕ
departure_of (Call.disconnect handle _ _) = handle ∷ []
departure_of _ = []

abbrev pub departures : List Call → List ℕ
departures [] = []
departures (c ∷ cs) = departure_of c ++ departures cs

departures-bye : (handles : List ℕ) → departures (map bye handles) ≡ handles
departures-bye [] = refl
departures-bye (n ∷ handles) = ap (λ t. n ∷ t) (departures-bye handles)

both_empty : (xs ys : List ℕ) → xs ++ ys ≡ [] → (xs ≡ []) × (ys ≡ [])
both_empty [] ys e = (refl, e)
both_empty (x ∷ xs) ys e = cc

departures-Merge :
    {xs ys zs : List Call} → Merge xs ys zs → departures xs ≡ [] → departures zs ≡ departures ys
departures-Merge nil e = refl
departures-Merge (left {c} {xs} m) e =
    let (none_here, none_later) = both_empty (departure_of c) (departures xs) e in
    rw none_here (departures-Merge m none_later)
departures-Merge (right {c} m) e = ap (λ t. departure_of c ++ t) (departures-Merge m e)

call_of-farewell : (handles : List ℕ) → map call_of (map farewell handles) ≡ map bye handles
call_of-farewell [] = refl
call_of-farewell (n ∷ handles) = ap (λ t. bye n ∷ t) (call_of-farewell handles)

-- On a connected session with a shell, however the calls of the task that closes the shell and of the
-- one that ends the connections are interleaved, the target is told goodbye first and then the hops,
-- the innermost first.
pub departures-disconnect :
    (s : SshSpikeSession) (handle wh : ℕ) {shell connections : List Step} {calls : List Call}
    → s.handle ≡ some handle
    → s.write_half ≡ some wh
    → (disconnect s).1 ≡ shell ∷ connections ∷ []
    → Merge (map call_of shell) (map call_of connections) calls
    → departures calls ≡ handle ∷ reverse s.parents
unfolding disconnect
departures-disconnect s handle wh {shell} {connections} live open_shell spawned m =
    let tasks : (plain (eof wh) ∷ plain (close wh) ∷ [])
          ∷ map farewell (handle ∷ reverse s.parents)
          ∷ []
        ≡ shell ∷ connections ∷ [] =
      rw (live, open_shell) at spawned in
    let first : plain (eof wh) ∷ plain (close wh) ∷ [] ≡ shell = cc tasks in
    let second : map farewell (handle ∷ reverse s.parents) ≡ connections = cc tasks in
    departures-Merge m (rw (← first) refl)
    ∙ rw (← second) (
        ap departures (call_of-farewell (handle ∷ reverse s.parents))
        ∙ departures-bye (handle ∷ reverse s.parents))
