-- ===== src/Database/Connection/Requests.antt =====
-- The requests of a history, and the history without those that were made before.
use choreography_saga_demo.Base.{
  String, ◌≡◌, refl, ap, inl, inr, Bool, true, false, ◌||◌, List, [], ◌∷◌, ◌++◌, if◌then◌else◌,
  arith, All, Bool-cases,
}
use choreography_saga_demo.Database.Tables.{ProcessedMessage}
use choreography_saga_demo.Database.Sql.{is_processed, marker}
use choreography_saga_demo.Database.History.{Call, reserves, releases, publishes, attempts, waits}
use choreography_saga_demo.Database.{consumer_reserve}

-- The key and the consumer of a request of the application; the relay's calls have none.
abbrev pub request : Call → List ProcessedMessage
request (reserves saga key sku q build) = marker key consumer_reserve ∷ []
request (releases saga id key consumer build) = marker key consumer ∷ []
request _ = []

abbrev pub requests : List Call → List ProcessedMessage
requests [] = []
requests (c ∷ cs) = request c ++ requests cs

pub requests-append : (cs es : List Call) → requests (cs ++ es) ≡ requests cs ++ requests es
requests-append [] es = refl
requests-append (reserves saga key sku q build ∷ cs) es =
    ap (λ ms. marker key consumer_reserve ∷ ms) (requests-append cs es)
requests-append (releases saga id key consumer build ∷ cs) es =
    ap (λ ms. marker key consumer ∷ ms) (requests-append cs es)
requests-append (publishes id ∷ cs) es = requests-append cs es
requests-append (attempts id ∷ cs) es = requests-append cs es
requests-append (waits n ∷ cs) es = requests-append cs es

abbrev pub repeats : List ProcessedMessage → Call → Bool
repeats ms (reserves saga key sku q build) = is_processed key consumer_reserve ms
repeats ms (releases saga id key consumer build) = is_processed key consumer ms
repeats ms _ = false

-- The calls without those whose request is among `ms`, or was made before.
unfoldable pub once : List ProcessedMessage → List Call → List Call
once ms [] = []
once ms (c ∷ cs) =
    let rest : List Call = once (request c ++ ms) cs in if repeats ms c then rest else c ∷ rest

-- No two calls of the list make the same request.
abbrev pub AllDiffer : List Call → Type 0
AllDiffer [] = Unit {0}
AllDiffer (c ∷ cs) = (repeats (requests cs) c ≡ false) × AllDiffer cs

abbrev pub Among : List ProcessedMessage → ProcessedMessage → Type 0
Among ms m = is_processed m.idempotency_key m.consumer ms ≡ true

module _ (key consumer : String) where
  pub Among-All :
      (ns ms : List ProcessedMessage)
      → All (Among ns) ms
      → is_processed key consumer ms ≡ true
      → is_processed key consumer ns ≡ true
  Among-All ns [] h e = cc
  Among-All ns (m ∷ ms) h e = ground (arith, Among-All ns ms h.1, h.0)

  pub Among-left :
      (ms ns : List ProcessedMessage)
      → is_processed key consumer ms ≡ true
      → is_processed key consumer (ms ++ ns) ≡ true
  Among-left [] ns h = cc
  Among-left (m ∷ ms) ns h = ground (arith, Among-left ms ns)

  pub Among-right :
      (ms ns : List ProcessedMessage)
      → is_processed key consumer ns ≡ true
      → is_processed key consumer (ms ++ ns) ≡ true
  Among-right [] ns h = h
  Among-right (m ∷ ms) ns h = ground (arith, Among-right ms ns h)

  -- What is in `ms` is no request of the calls that `once ms` keeps.
  once-new :
      (ms : List ProcessedMessage) (cs : List Call)
      → is_processed key consumer ms ≡ true
      → is_processed key consumer (requests (once ms cs)) ≡ false
  unfolding once
  once-new ms [] h = refl
  once-new ms (reserves saga k sku q build ∷ cs) h =
      ground (arith, once-new (marker k consumer_reserve ∷ ms) cs)
  once-new ms (releases saga id k c build ∷ cs) h = ground (arith, once-new (marker k c ∷ ms) cs)
  once-new ms (publishes id ∷ cs) h = once-new ms cs h
  once-new ms (attempts id ∷ cs) h = once-new ms cs h
  once-new ms (waits n ∷ cs) h = once-new ms cs h

  -- A request of the calls is in `ms`, or `once ms` keeps it.
  pub once-kept :
      (ms : List ProcessedMessage) (cs : List Call)
      → is_processed key consumer (requests cs) ≡ true
      → (is_processed key consumer ms || is_processed key consumer (requests (once ms cs))) ≡ true
  unfolding once
  once-kept ms [] h = cc
  once-kept ms (reserves saga k sku q build ∷ cs) h =
      elim (Bool-cases (is_processed key consumer (requests cs))) [
        | inl e ↦ ground (arith, once-kept (marker k consumer_reserve ∷ ms) cs e)
        | inr e ↦ ground (arith, e)
      ]
  once-kept ms (releases saga id k c build ∷ cs) h =
      elim (Bool-cases (is_processed key consumer (requests cs))) [
        | inl e ↦ ground (arith, once-kept (marker k c ∷ ms) cs e)
        | inr e ↦ ground (arith, e)
      ]
  once-kept ms (publishes id ∷ cs) h = once-kept ms cs h
  once-kept ms (attempts id ∷ cs) h = once-kept ms cs h
  once-kept ms (waits n ∷ cs) h = once-kept ms cs h

AllDiffer-if :
    (b : Bool) (c : Call) (cs : List Call)
    → repeats (requests cs) c ≡ false
    → AllDiffer cs
    → AllDiffer (if b then cs else c ∷ cs)
AllDiffer-if true c cs new rest = rest
AllDiffer-if false c cs new rest = (new, rest)

marker_self :
    (key consumer : String) (ms : List ProcessedMessage)
    → is_processed key consumer (marker key consumer ∷ ms) ≡ true
marker_self key consumer ms = ground arith

pub once-AllDiffer : (ms : List ProcessedMessage) (cs : List Call) → AllDiffer (once ms cs)
unfolding once
once-AllDiffer ms [] = tt
once-AllDiffer ms (reserves saga k sku q build ∷ cs) =
    let ms' : List ProcessedMessage = marker k consumer_reserve ∷ ms in
    AllDiffer-if (is_processed k consumer_reserve ms) (reserves saga k sku q build) (once ms' cs)
      (once-new k consumer_reserve ms' cs (marker_self k consumer_reserve ms))
      (once-AllDiffer ms' cs)
once-AllDiffer ms (releases saga id k c build ∷ cs) =
    let ms' : List ProcessedMessage = marker k c ∷ ms in
    AllDiffer-if (is_processed k c ms) (releases saga id k c build) (once ms' cs)
      (once-new k c ms' cs (marker_self k c ms)) (once-AllDiffer ms' cs)
once-AllDiffer ms (publishes id ∷ cs) = (refl, once-AllDiffer ms cs)
once-AllDiffer ms (attempts id ∷ cs) = (refl, once-AllDiffer ms cs)
once-AllDiffer ms (waits n ∷ cs) = (refl, once-AllDiffer ms cs)

pub repeats-All :
    (ns ms : List ProcessedMessage) (c : Call)
    → All (Among ns) ms
    → repeats ms c ≡ true
    → repeats ns c ≡ true
repeats-All ns ms (reserves saga key sku q build) h e = Among-All key consumer_reserve ns ms h e
repeats-All ns ms (releases saga id key consumer build) h e = Among-All key consumer ns ms h e
repeats-All ns ms (publishes id) h e = cc
repeats-All ns ms (attempts id) h e = cc
repeats-All ns ms (waits n) h e = cc

pub All-map :
    {P Q : ProcessedMessage → Type 0}
    → ((m : ProcessedMessage) → P m → Q m)
    → (ms : List ProcessedMessage) → All P ms
    → All Q ms
All-map f [] h = tt
All-map f (m ∷ ms) h = (f m h.0, All-map f ms h.1)

pub Among-self : (ms : List ProcessedMessage) → All (Among ms) ms
Among-self [] = tt
Among-self (m ∷ ms) = (
  marker_self m.idempotency_key m.consumer ms,
  All-map (λ n. Among-right n.idempotency_key n.consumer (m ∷ []) ms) ms (Among-self ms),
)
