-- ===== src/Broker/Rules.antt =====
-- Rules for what a handler keeps: of the database and the frames sent, whether it returns or raises.
use pi_tmux_orchestrator.Prelude.{ℕ, ◌≡◌, refl, String, Bool, true, false, List, ◌∷◌, []}
use pi_tmux_orchestrator.Prelude.Result.{Result, ok, err, ErrorCode}
use pi_tmux_orchestrator.Prelude.Table.{insert}
use pi_tmux_orchestrator.Store.Rows.{Db, WorkflowState}
use pi_tmux_orchestrator.Store.Writes.{Tx}
use pi_tmux_orchestrator.Broker.State.{Broker, Frame, Notice}
use pi_tmux_orchestrator.Broker.Transport.{
  Exec, ◌>>=◌, ◌>>◌, continue, pure, raise, when, transact, catch, recover, send, broadcast,
  broadcast_workflow,
}

-- A statement about the database and the frames sent to the workers.
abbrev pub Assertion : Type 1
Assertion = Db → List (String × Frame) → Type 0

abbrev pub Holds : Assertion → Broker → Type 0
Holds I b = I b.db b.sent

abbrev pub Post : {A : Type 0} → (A → Assertion) → Assertion → Result A → Broker → Type 0
Post Q E (ok a) b = Holds (Q a) b
Post Q E (err c) b = Holds E b

-- From `I`, a return leaves `Q` of its value, and an exception leaves `E`.
pub record Triple {A : Type 0} (I : Assertion) (m : Broker → Result A × Broker) (Q : A → Assertion)
    (E : Assertion) : Type 0 where
  pub at : (b : Broker) → Holds I b → Post Q E (m b).0 (m b).1

abbrev pub Keeps : {A : Type 0} → Assertion → (Broker → Result A × Broker) → Type 0
Keeps I m = Triple I m (λ _. I) I

module _ {A B : Type 0} {E : Assertion} {Q : B → Assertion} where
  after :
      (R : A → Assertion) (f : A → Exec B)
      → ((a : A) → Triple (R a) (f a) Q E)
      → (r : Result A) (b : Broker) → Post R E r b
      → Post Q E (continue f r b).0 (continue f r b).1
  after R f k (ok a) b h = (k a).at b h
  after R f k (err c) b h = h

module _ {A B : Type 0} {I E : Assertion} {Q : B → Assertion} where
  -- `x ← m; f x`
  pub Triple-bind :
      (R : A → Assertion) (m : Exec A) (f : A → Exec B)
      → Triple I m R E
      → ((a : A) → Triple (R a) (f a) Q E)
      → Triple I (m >>= f) Q E
  unfolding ◌>>=◌
  Triple-bind R m f km kf = record { at = λ b h. after R f kf (m b).0 (m b).1 (km.at b h) }

module _ {B : Type 0} {I E : Assertion} {Q : B → Assertion} where
  -- `m; n`, where the state between them satisfies `R`
  pub Triple-then :
      (R : Assertion) (m : Exec (Unit {0})) (n : Exec B)
      → Triple I m (λ _. R) E
      → Triple R n Q E
      → Triple I (m >> n) Q E
  Triple-then R m n km kn = Triple-bind (λ _. R) m (λ _. n) km (λ _. kn)

-- A transaction that, wherever it commits, takes `I` to `Q` of its value.
pub Triple-transact :
    {A : Type 0} {I : Assertion} {Q : A → Assertion} (tx : Tx A)
    → ((db : Db) (sent : List (String × Frame)) (a : A) (db' : Db)
        → tx db ≡ ok (a, db')
        → I db sent
        → Q a db' sent)
    → Triple I (transact tx) Q I
unfolding transact
Triple-transact {A} {I} {Q} tx k = record { at = λ b h. ended b h (tx b.db) refl }
  where
    outcome : (b : Broker) → Result (A × Db) → Result A × Broker
    outcome b (ok (a, db)) = (ok a, record b { db = db })
    outcome b (err c) = (err c, b)

    ended :
        (b : Broker)
        → Holds I b
        → (r : Result (A × Db)) → tx b.db ≡ r
        → Post Q I (transact tx b).0 (transact tx b).1
    ended b h (ok (a, db)) e = rw (e, transact) (k b.db b.sent a db e h)
    ended b h (err c) e = rw (e, transact) h

module _ {I : Assertion} where
  pub Keeps-pure : {A : Type 0} (a : A) → Keeps I (pure a)
  Keeps-pure a = record { at = λ b h. h }

  pub Keeps-raise : {A : Type 0} (c : ErrorCode) → Triple I (raise {A = A} c) (λ _. I) I
  Keeps-raise c = record { at = λ b h. h }

  pub Keeps-broadcast : (n : Notice) → Keeps I (broadcast n)
  unfolding broadcast
  Keeps-broadcast n = record { at = λ b h. h }

  pub Keeps-broadcast_workflow :
      (s : WorkflowState) (round : ℕ) → Keeps I (broadcast_workflow s round)
  unfolding broadcast_workflow
  Keeps-broadcast_workflow s round = record { at = λ b h. h }

  pub Keeps-when : (t : Bool) (m : Exec (Unit {0})) → Keeps I m → Keeps I (when t m)
  Keeps-when true m k = k
  Keeps-when false m k = record { at = λ b h. h }

-- A frame is written before its `drain` fails, so that an exception leaves `Q` too.
pub Triple-send :
    {I Q : Assertion} (role : String) (frame : Frame)
    → ((db : Db) (sent : List (String × Frame)) → I db sent → Q db (insert (role, frame) sent))
    → Triple I (send role frame) (λ _. Q) Q
unfolding send
Triple-send {I} {Q} role frame k = record { at = λ b h. written b b.link refl h }
  where
    written :
        (b : Broker) (link : List Bool)
        → b.link ≡ link
        → Holds I b
        → Post (λ _. Q) Q (send role frame b).0 (send role frame b).1
    written b [] e h = rw (e, send) (k b.db b.sent h)
    written b (true ∷ rest) e h = rw (e, send) (k b.db b.sent h)
    written b (false ∷ rest) e h = rw (e, send) (k b.db b.sent h)

Post-weaken :
    {A : Type 0} {E F : Assertion} (Q : A → Assertion)
    → ((db : Db) (sent : List (String × Frame)) → E db sent → F db sent)
    → (r : Result A) (b : Broker) → Post Q E r b
    → Post Q F r b
Post-weaken Q k (ok a) b h = h
Post-weaken Q k (err c) b h = k b.db b.sent h

Post-ensure :
    {A : Type 0} {Q R : A → Assertion} (E : Assertion)
    → ((a : A) (db : Db) (sent : List (String × Frame)) → Q a db sent → R a db sent)
    → (r : Result A) (b : Broker) → Post Q E r b
    → Post R E r b
Post-ensure E k (ok a) b h = k a b.db b.sent h
Post-ensure E k (err c) b h = h

recovered :
    {A : Type 0} {E F : Assertion} (Q : A → Assertion) (handler : Exec A)
    → Triple F handler Q E
    → (r : Result A) (b : Broker) → Post Q F r b
    → Post Q E (recover handler r b).0 (recover handler r b).1
recovered Q handler t (ok a) b h = h
recovered Q handler t (err c) b h = t.at b h

module _ {A : Type 0} {I E : Assertion} {Q : A → Assertion} where
  -- What an exception leaves may be forgotten in part.
  pub Triple-weaken :
      {F : Assertion} (m : Exec A)
      → ((db : Db) (sent : List (String × Frame)) → E db sent → F db sent)
      → Triple I m Q E
      → Triple I m Q F
  Triple-weaken m k t = record { at = λ b h. Post-weaken Q k (m b).0 (m b).1 (t.at b h) }

  -- What a return leaves may be said in other words.
  pub Triple-ensure :
      {R : A → Assertion} (m : Exec A)
      → ((a : A) (db : Db) (sent : List (String × Frame)) → Q a db sent → R a db sent)
      → Triple I m Q E
      → Triple I m R E
  Triple-ensure m k t = record { at = λ b h. Post-ensure E k (m b).0 (m b).1 (t.at b h) }

  -- The handler starts from what the exception left.
  pub Triple-catch :
      {F : Assertion} (m handler : Exec A)
      → Triple I m Q F
      → Triple F handler Q E
      → Triple I (catch m handler) Q E
  unfolding catch
  Triple-catch m handler t u = record {
    at = λ b h. recovered Q handler u (m b).0 (m b).1 (t.at b h);
  }

-- `if test: m`, with what the test says known on each side.
pub Triple-when :
    {I Q E : Assertion} (test : Bool) (m : Exec (Unit {0}))
    → (test ≡ true → Triple I m (λ _. Q) E)
    → (test ≡ false → (db : Db) (sent : List (String × Frame)) → I db sent → Q db sent)
    → Triple I (when test m) (λ _. Q) E
Triple-when true m k l = k refl
Triple-when false m k l = record { at = λ b h. l refl b.db b.sent h }
