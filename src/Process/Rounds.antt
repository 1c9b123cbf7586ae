-- ===== src/Process/Rounds.antt =====
-- services/inventory/src/main.cpp: the body of the relay's thread with its log lines. A round is a pass
-- and the line about one that threw; an exception of the JSON library in that line leaves the thread,
-- and so ends the process.
use choreography_saga_demo.Base.{
  ℕ, zero, suc, ◌+◌, ◌<◌, ◌++◌, String, ◌≡◌, refl, sym, ap, ◌∙◌, inl, inr, List, [], ◌∷◌, arith,
  length, length-append,
}
use mathlib.Core.Path.{subst}
use choreography_saga_demo.Base.Int.{ℤ}
use choreography_saga_demo.Clock.{timestamp}
use choreography_saga_demo.Obs.Log.{emit, with_context, add_fields, log_fields}
use choreography_saga_demo.Base.Outcome.{
  Error, Outcome, ok, throws, Proc, ◌>>◌, pure, Outcome-cases,
}
use choreography_saga_demo.Outbox.{Repo, Publisher}
use choreography_saga_demo.Json.{Json}
use choreography_saga_demo.Obs.Host.{Host, Moment, log_err}
use choreography_saga_demo.Relay.{World, drain_once, relay_rounds}

module _ {J S P R : Type 0} (lib : Json J) (what : Error → String) (repo : Repo S)
    (publisher : Publisher P) (clock : ℕ → ℕ) (size : ℤ) where
  unfoldable pub relay_round : Moment → Proc (Host (World S P) J R) (Unit {0})
  relay_round at h =
      let (r, w) = drain_once repo publisher clock size h.repo in
      elim r [
        | ok _ ↦ (ok tt, record h { repo = w })
        | throws e ↦
            log_err lib at "outbox relay drain failed" (("error", lib.text (what e)) ∷ [])
              (record h { repo = w })
      ]

  -- The rounds until g_stop is seen, by the moments of their lines.
  unfoldable pub relay_thread : List Moment → Proc (Host (World S P) J R) (Unit {0})
  unfolding relay_round
  relay_thread [] = pure tt
  relay_thread (at ∷ more) = do relay_round at; relay_thread more

-- How many of so many passes throw.
module _ {S P : Type 0} (repo : Repo S) (publisher : Publisher P) (clock : ℕ → ℕ) (size : ℤ) where
  abbrev pub failed_passes : ℕ → World S P → ℕ
  failed_passes zero w = 0
  failed_passes (suc n) w =
      let (r, w') = drain_once repo publisher clock size w in
      elim r [ ok _ ↦ 0 | throws e ↦ 1 ] + failed_passes n w'

module _ {J S P R : Type 0} (lib : Json J) (what : Error → String) (repo : Repo S)
    (publisher : Publisher P) (clock : ℕ → ℕ) (size : ℤ) where
  -- How the body of the thread ends that makes at most `n` rounds: after all of them, or in the line
  -- about a pass that threw, the one after so many, where the JSON library throws.
  pub data Ends (h : Host (World S P) J R) (n : ℕ) (r : Outcome (Unit {0}))
      (h' : Host (World S P) J R) : Type 0 where
    after_all :
        r ≡ ok tt
        → h'.repo ≡ relay_rounds repo publisher clock size n h.repo
        → length h'.telemetry.out
          ≡ length h.telemetry.out + failed_passes repo publisher clock size n h.repo
        → Ends h n r h'
    in_line :
        (before : ℕ) (e e' : Error) (fields : List (String × J))
        → before < n
        → (drain_once repo publisher clock size
            (relay_rounds repo publisher clock size before h.repo)).0
          ≡ throws e
        → lib.dump (lib.object fields) ≡ throws e'
        → r ≡ throws e'
        → h'.repo ≡ relay_rounds repo publisher clock size (suc before) h.repo
        → length h'.telemetry.out
          ≡ length h.telemetry.out + failed_passes repo publisher clock size before h.repo
        → Ends h n r h'

  -- A round more before.
  Ends-next :
      (h h1 : Host (World S P) J R) (n : ℕ) {r : Outcome (Unit {0})} {h' : Host (World S P) J R}
      → h1.repo ≡ (drain_once repo publisher clock size h.repo).1
      → length h1.telemetry.out
        ≡ length h.telemetry.out + failed_passes repo publisher clock size 1 h.repo
      → Ends h1 n r h'
      → Ends h (suc n) r h'
  unfolding relay_rounds
  Ends-next h h1 n one lines (after_all x y z) =
      let fewer : failed_passes repo publisher clock size n h1.repo
          ≡ failed_passes repo publisher clock size n
              (drain_once repo publisher clock size h.repo).1 =
        ap (failed_passes repo publisher clock size n) one in
      after_all x (y ∙ ap (relay_rounds repo publisher clock size n) one)
        (omega (arith, z, lines, fewer))
  Ends-next h h1 n one lines (in_line before e e' fields less t d x y z) =
      let fewer : failed_passes repo publisher clock size before h1.repo
          ≡ failed_passes repo publisher clock size before
              (drain_once repo publisher clock size h.repo).1 =
        ap (failed_passes repo publisher clock size before) one in
      in_line (suc before) e e' fields (omega (arith, less))
        (ap
            (λ w.
              (drain_once repo publisher clock size
                (relay_rounds repo publisher clock size before w)).0)
            (sym one)
          ∙ t)
        d x (y ∙ ap (relay_rounds repo publisher clock size (suc before)) one)
        (omega (arith, z, lines, fewer))

  -- A round whose pass returns, and one whose pass throws.
  round_quiet :
      (at : Moment) (more : List Moment) (h : Host (World S P) J R) (n : ℕ)
      → (drain_once repo publisher clock size h.repo).0 ≡ ok n
      → relay_thread lib what repo publisher clock size (at ∷ more) h
        ≡ relay_thread lib what repo publisher clock size more
            (record h { repo = (drain_once repo publisher clock size h.repo).1 })
  unfolding relay_thread relay_round
  round_quiet at more h n x = ground (arith, x)

  -- The object of the line about a pass that threw.
  abbrev failure : Error → Moment → Host (World S P) J R → List (String × J)
  failure e at h = with_context h.telemetry.trace_context at.span (
      add_fields (("error", lib.text (what e)) ∷ [])
        (log_fields lib (timestamp at.now) "ERROR" "outbox relay drain failed"))

  round_logged :
      (at : Moment) (more : List Moment) (h : Host (World S P) J R) (e : Error) (line : String)
      → (drain_once repo publisher clock size h.repo).0 ≡ throws e
      → lib.dump (lib.object (failure e at h)) ≡ ok line
      → relay_thread lib what repo publisher clock size (at ∷ more) h
        ≡ relay_thread lib what repo publisher clock size more (record h {
          repo = (drain_once repo publisher clock size h.repo).1;
          telemetry = record h.telemetry { out = h.telemetry.out ++ line ∷ [] };
        })
  unfolding relay_thread relay_round emit
  round_logged at more h e line x y = ground (arith, x, y)

  round_left :
      (at : Moment) (more : List Moment) (h : Host (World S P) J R) (e e' : Error)
      → (drain_once repo publisher clock size h.repo).0 ≡ throws e
      → lib.dump (lib.object (failure e at h)) ≡ throws e'
      → relay_thread lib what repo publisher clock size (at ∷ more) h
        ≡ (throws e', record h { repo = (drain_once repo publisher clock size h.repo).1 })
  unfolding relay_thread relay_round emit
  round_left at more h e e' x y = ground (arith, x, y)

  -- No exception of a pass leaves the body of the relay's thread. Either it makes all its rounds,
  -- leaves the repository and the publisher that as many passes leave, and has written a line for
  -- each pass that threw; or it ends right after a pass that threw, with the exception that the
  -- JSON library throws for the object of a log line, leaves what the passes up to this one leave,
  -- and has written a line for each earlier pass that threw.
  pub relay_thread-Ends :
      (moments : List Moment) (h : Host (World S P) J R)
      → let (r, h') = relay_thread lib what repo publisher clock size moments h in
        Ends h (length moments) r h'
  unfolding relay_thread relay_rounds
  relay_thread-Ends [] h = after_all refl refl (omega arith)
  relay_thread-Ends (at ∷ more) h =
      let w : World S P = (drain_once repo publisher clock size h.repo).1 in
      elim (Outcome-cases (drain_once repo publisher clock size h.repo).0) [
        | inr (n, x) ↦
            subst (λ o. Ends h (suc (length more)) o.0 o.1) (sym (round_quiet at more h n x))
              (Ends-next h (record h { repo = w }) (length more) refl (ground (arith, x))
                (relay_thread-Ends more (record h { repo = w })))
        | inl (e, x) ↦ elim (Outcome-cases (lib.dump (lib.object (failure e at h)))) [
          | inr (line, y) ↦
              let h1 : Host (World S P) J R = record h {
                repo = w;
                telemetry = record h.telemetry { out = h.telemetry.out ++ line ∷ [] };
              } in
              subst (λ o. Ends h (suc (length more)) o.0 o.1)
                (sym (round_logged at more h e line x y))
                (Ends-next h h1 (length more) refl
                  (ground (arith, x, length-append h.telemetry.out (line ∷ [])))
                  (relay_thread-Ends more h1))
          | inl (e', y) ↦
              subst (λ o. Ends h (suc (length more)) o.0 o.1) (sym (round_left at more h e e' x y))
                (in_line 0 e e' (failure e at h) (omega arith) x y refl refl (omega arith))
        ]
      ]
